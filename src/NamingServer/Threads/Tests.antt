-- ===== src/NamingServer/Threads/Tests.antt =====
-- Threads of a naming server with two storage servers, and the theorems there.
use network_file_system.Base.{same, ℕ, ◌≡◌, ◌≢◌, refl, some, none, [], ◌∷◌, inl, arith, here}
use network_file_system.Common.{Message, zero_message, create_file, read_file, delete_file, acked}
use network_file_system.Sockets.{
  answered, exchange, create_socket, connect_to_server, send_message, receive_message,
}
use network_file_system.Trie.{create_trie_node, trie_insert, trie_search}
use network_file_system.ServerInfo.{add_path_to_ss_info}
use network_file_system.LruCache.Tests.{path_c, two_cells, two_slots, two_cells-IsValid}
use network_file_system.LruCache.Get.{cached}
use network_file_system.LruCache.{hash_path}
use network_file_system.Hash.{hash_loop}
use network_file_system.NamingServer.Threads.Stale.{deleted_path_cached}
use network_file_system.NamingServer.{handle_locate, directed}
use network_file_system.NamingServer.State.{
  NamingServer, get_available_ss_for_creation, server, contact, served,
}
use network_file_system.NamingServer.Shape.{IsRegistry}
use network_file_system.NamingServer.Tests.{fine, two_files, two_files-IsRegistry}
use network_file_system.NamingServer.Threads.{
  asked, begin, advance, Running, arrives, alone_at, moves, goes_on, choosing, begin_create, choose,
  creating, Steps, no_step, after,
}
use network_file_system.NamingServer.Threads.Registry.{interleaved-IsRegistry}
use network_file_system.NamingServer.Threads.Race.{next_turn, created_twice}

abbrev creates_c : Message
creates_c = record zero_message { operation = create_file; path = path_c }

abbrev two_servers : NamingServer
two_servers = record two_files { num_registered_ss = 2 }

two_servers-IsRegistry : IsRegistry two_servers
two_servers-IsRegistry = record {
  array = two_files-IsRegistry.array;
  few = omega arith;
  turn = inl refl;
  servers = two_files-IsRegistry.servers;
  rooted = two_files-IsRegistry.rooted;
  routes = λ q i e. omega (arith, two_files-IsRegistry.routes q i e);
}

c_absent : trie_search two_servers.path_trie_root path_c ≡ none
unfolding trie_search trie_insert create_trie_node
c_absent = refl

c_acked : (i : ℕ) → contact fine (server two_servers i) creates_c ≡ answered acked
unfolding contact exchange create_socket connect_to_server send_message receive_message
c_acked i = refl

created_twice_example :
    (r : Running) × Steps (alone_at two_servers) r
    × (r.responses ≡ acked ∷ acked ∷ [])
    × (0 ≢ (next_turn two_servers).current_ss_index)
    × (server r.state 0 ≡ add_path_to_ss_info (server two_servers 0) path_c)
    × (server r.state (next_turn two_servers).current_ss_index
        ≡ add_path_to_ss_info (server two_servers (next_turn two_servers).current_ss_index) path_c)
    × (trie_search r.state.path_trie_root path_c ≡ some (next_turn two_servers).current_ss_index)
created_twice_example =
    created_twice fine fine creates_c creates_c two_servers two_servers-IsRegistry (omega arith)
      refl refl refl c_absent (c_acked 0) (c_acked (next_turn two_servers).current_ss_index)

-- A path in the tree that is not in the cache.
abbrev c_uncached : NamingServer
c_uncached = record two_files { path_trie_root = trie_insert two_files.path_trie_root path_c 0 }

abbrev reads_c : Message
reads_c = record zero_message { operation = read_file; path = path_c }

abbrev deletes_c : Message
deletes_c = record zero_message { operation = delete_file; path = path_c }

c_missed : cached path_c two_cells two_slots ≡ none
unfolding hash_path hash_loop same
c_missed = refl

c_found : trie_search c_uncached.path_trie_root path_c ≡ some 0
unfolding trie_search trie_insert create_trie_node
c_found = refl

c_gone : contact fine (server c_uncached 0) deletes_c ≡ answered acked
unfolding contact exchange create_socket connect_to_server send_message receive_message
c_gone = refl

deleted_path_cached_example :
    (r : Running) × Steps (alone_at c_uncached) r
    × (r.responses ≡ directed (server r.state 0) ∷ acked ∷ [])
    × (trie_search r.state.path_trie_root path_c ≡ none)
    × (handle_locate fine reads_c r.state ≡ served (directed (server r.state 0)) r.state)
deleted_path_cached_example =
    deleted_path_cached two_cells two_slots c_uncached fine fine fine reads_c deletes_c reads_c 0
      refl two_cells-IsValid c_missed (omega arith) refl c_found refl refl refl refl c_gone

c_asked : advance (asked fine creates_c) two_servers ≡ goes_on (choosing fine creates_c) two_servers
unfolding advance begin begin_create trie_search trie_insert create_trie_node
c_asked = refl

c_chosen :
    advance (choosing fine creates_c) two_servers
    ≡ goes_on (creating fine creates_c 0) (next_turn two_servers)
unfolding advance choose get_available_ss_for_creation
c_chosen = refl

-- A thread that creates a path and has the server whose turn it is.
interleaved-IsRegistry_example : IsRegistry (next_turn two_servers)
interleaved-IsRegistry_example =
    interleaved-IsRegistry two_servers
      (record {
        state = next_turn two_servers;
        threads = creating fine creates_c 0 ∷ [];
        responses = [];
      })
      two_servers-IsRegistry
      (after
        (after (after no_step (arrives fine creates_c (λ e. absurd (cc)))) (moves here c_asked))
        (moves here c_chosen))
