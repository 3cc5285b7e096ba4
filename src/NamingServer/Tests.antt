-- ===== src/NamingServer/Tests.antt =====
-- A naming server with one storage server and two files, both in the cache, and the theorems there.
use network_file_system.Base.{
  same, ℕ, ◌+◌, ◌%◌, ◌≡◌, ◌<◌, refl, true, some, [], ◌∷◌, inl, arith, if◌then◌else◌, set,
}
use network_file_system.Common.{FilePath, Message, zero_message, max_ss}
use network_file_system.Sockets.{
  System, recv_got, exchange, create_socket, connect_to_server, send_message, receive_message,
}
use network_file_system.Trie.{create_trie_node, trie_insert, trie_search, trie_delete}
use network_file_system.Trie.Lookup.{
  create_trie_node-IsNode, trie_insert-IsNode, search-insert, search-create_trie_node,
}
use network_file_system.ServerInfo.{remove_path_from_ss_info}
use network_file_system.Hash.{hash_loop}
use network_file_system.LruCache.{hash_path}
use network_file_system.LruCache.Shape.{Cells, Distinct}
use network_file_system.LruCache.Spec.{Slots, repr, is_live}
use network_file_system.LruCache.Get.{cached}
use network_file_system.LruCache.Remove.{remove_spec, remove_refines}
use network_file_system.LruCache.Tests.{
  path_a, path_b, path_c, hash_a, hash_b, info_one, cell_a, cell_b, two_cells, two_slots,
  two_cells-Distinct, two_cells-IsValid,
}
use network_file_system.NamingServer.{
  handle_register, handle_connection, dispatch, handle_copy, handle_create, handle_delete,
  handle_locate, delete_at, delete_finish, forget_path, directed,
}
use network_file_system.NamingServer.State.{
  NamingServer, start, Outside, served, crashed, acked, server, set_server, contact,
  get_available_ss_for_creation,
}
use network_file_system.NamingServer.Shape.{IsRegistry, servers-set}
use network_file_system.NamingServer.Requests.{listed, registered}
use network_file_system.NamingServer.Reregistered.{registered_path_stale}
use network_file_system.NamingServer.Copying.{CopyEnds, copied}
use network_file_system.NamingServer.Creation.{CreateEnds, created}
use network_file_system.NamingServer.Deletion.{DeleteEnds, Removable, deleted}
use network_file_system.NamingServer.Location.{IsReady, LocateEnds, route_answer, located}
use network_file_system.NamingServer.Reachable.{start-IsRegistry}
use network_file_system.NamingServer.Turns.{after_calls, call-after_calls}
use network_file_system.NamingServer.UseAfterFree.{locate_after_deletes}

-- All goes well outside.
abbrev pub working : System
working = record {
  socket = some 3;
  inet_pton = λ ip. true;
  connect = λ sockfd ip port. true;
  bind = λ sockfd port. true;
  listen = λ sockfd. true;
  send = λ sockfd msg. true;
  recv = λ ip port msg. recv_got acked;
}

abbrev pub fine : Outside
fine = record { sys = working; has_buffer = true; fresh = 3 }

abbrev request : FilePath → Message
request path = record zero_message { path = path }

abbrev pub two_files : NamingServer
two_files = record {
  registered_ss = set start.registered_ss 0 info_one;
  num_registered_ss = 1;
  current_ss_index = 0;
  path_trie_root = trie_insert (trie_insert create_trie_node path_a 0) path_b 0;
  path_lru_cache = repr two_cells two_slots;
}

routes_two : (q : FilePath) (i : ℕ) → trie_search two_files.path_trie_root q ≡ some i → i < 1
routes_two q i e = ground (
  arith,
  search-insert create_trie_node path_a q 0 create_trie_node-IsNode,
  search-insert (trie_insert create_trie_node path_a 0) path_b q 0
      (trie_insert-IsNode create_trie_node path_a 0 create_trie_node-IsNode),
  search-create_trie_node q,
)

pub two_files-IsRegistry : IsRegistry two_files
unfolding start
two_files-IsRegistry = record {
  array = refl;
  few = omega arith;
  turn = inl refl;
  servers =
      servers-set start 0 info_one (omega arith) start-IsRegistry.servers
        (record { slots = refl; within = omega arith });
  rooted = trie_insert-IsNode _ path_b 0 (trie_insert-IsNode _ path_a 0 create_trie_node-IsNode);
  routes = routes_two;
}

created_example :
    CreateEnds (request path_c) two_files (handle_create fine (request path_c) two_files)
created_example = created fine (request path_c) two_files two_files-IsRegistry

pub removable : Removable path_a two_cells two_slots two_files
removable = record { held = refl; distinct = two_cells-Distinct; live = rw hash_a refl }

deleted_example :
    DeleteEnds
      (request path_a)
      two_cells
      two_slots
      two_files
      (handle_delete fine (request path_a) two_files)
deleted_example =
    deleted fine (request path_a) two_cells two_slots two_files two_files-IsRegistry removable

pub ready : IsReady fine two_cells two_slots two_files
unfolding trie_search trie_insert create_trie_node start
ready = record {
  held = refl;
  valid = two_cells-IsValid;
  coherent = ((0, refl, refl), ((0, refl, refl), tt));
  unused = refl;
}

located_example :
    LocateEnds two_files
      (route_answer two_files (trie_search two_files.path_trie_root path_b))
      (handle_locate fine (request path_b) two_files)
located_example = located fine (request path_b) two_cells two_slots two_files ready

abbrev pub registration : Message
registration = record zero_message { accessible_paths = path_a ∷ []; num_accessible_paths = 1 }

pub few_servers : start.num_registered_ss < max_ss
unfolding start
few_servers = omega arith

registered_example :
    (s' : NamingServer) × (handle_register registration start ≡ served acked s')
    × IsRegistry s'
    × (s'.num_registered_ss ≡ start.num_registered_ss + 1)
    × ((q : FilePath)
        → trie_search s'.path_trie_root q ≡ (
            if listed 1 0 registration q
            then some start.num_registered_ss
            else trie_search start.path_trie_root q))
registered_example = registered registration start start-IsRegistry few_servers (omega arith)

-- The state after the first storage server has registered.
pub registration_served :
    (s' : NamingServer) × (handle_connection fine (some registration) start ≡ served acked s')
unfolding handle_connection dispatch
registration_served =
    let (s', e, _, _, _) =
      registered registration start start-IsRegistry few_servers (omega arith) in
    (s', e)

a_cached : cached path_a two_cells two_slots ≡ some cell_a
unfolding hash_path hash_loop same
a_cached = refl

a_listed : listed 1 0 registration path_a ≡ true
unfolding same
a_listed = refl

registered_path_stale_example :
    (s' s'' : NamingServer) × (handle_register registration two_files ≡ served acked s')
    × (trie_search s'.path_trie_root path_a ≡ some 1)
    × (handle_locate fine (request path_a) s' ≡ served (directed info_one) s'')
registered_path_stale_example =
    registered_path_stale two_cells two_slots two_files fine registration (request path_a) cell_a
      two_files-IsRegistry (omega arith) (omega arith) a_listed refl two_cells-IsValid a_cached

abbrev three_servers : NamingServer
three_servers = record two_files { num_registered_ss = 3; current_ss_index = 1 }

call-after_calls_example :
    (get_available_ss_for_creation (after_calls 5 three_servers)).0 ≡ some ((1 + 5) % 3)
call-after_calls_example = call-after_calls 5 three_servers (omega arith)

-- The state after an acknowledged request to delete.
abbrev forgotten : FilePath → Cells → Slots → NamingServer → NamingServer
forgotten path cs m s = record (set_server s 0 (remove_path_from_ss_info (server s 0) path)) {
  path_trie_root = trie_delete s.path_trie_root path;
  path_lru_cache = repr (remove_spec path cs m).0 (remove_spec path cs m).1;
}

abbrev one_file : NamingServer
one_file = forgotten path_a two_cells two_slots two_files

abbrev one_left : Cells × Slots
one_left = remove_spec path_a two_cells two_slots

one_left-Distinct : Distinct one_left.0
unfolding hash_path hash_loop same
one_left-Distinct = (omega arith, refl, tt)

one_left_live : is_live one_left.0 one_left.1 (hash_path path_b) ≡ true
unfolding hash_path hash_loop same
one_left_live = refl

abbrev no_file : NamingServer
no_file = forgotten path_b one_left.0 one_left.1 one_file

deletes_a : handle_delete fine (request path_a) two_files ≡ served acked one_file
unfolding handle_delete delete_at delete_finish forget_path contact exchange create_socket
    connect_to_server send_message receive_message trie_search trie_insert create_trie_node start
deletes_a = rw (remove_refines path_a two_cells two_slots two_cells-Distinct removable.live) refl

deletes_b : handle_delete fine (request path_b) one_file ≡ served acked no_file
unfolding handle_delete delete_at delete_finish forget_path contact exchange create_socket
    connect_to_server send_message receive_message trie_search trie_insert trie_delete
    create_trie_node start
deletes_b = rw (remove_refines path_b one_left.0 one_left.1 one_left-Distinct one_left_live) refl

locate_after_deletes_example : handle_locate fine (request path_a) no_file ≡ crashed
locate_after_deletes_example =
    locate_after_deletes fine fine fine (request path_a) (request path_b) (request path_a) two_files
      one_file no_file cell_a cell_b [] two_slots refl two_cells-Distinct (rw hash_a refl)
      (rw hash_b refl) (rw (hash_a, hash_b) (omega arith)) refl refl refl deletes_a deletes_b

abbrev copy_a_c : Message
copy_a_c = record zero_message { path = path_a; path2 = path_c }

copied_example : CopyEnds copy_a_c two_files (handle_copy fine copy_a_c two_files)
copied_example = copied fine copy_a_c two_files two_files-IsRegistry
