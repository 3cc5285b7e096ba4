-- ===== src/NamingServer/Requests.antt =====
-- What REGISTER_SS, CREATE_FILE and DELETE_FILE do to the routes of the tree.
use network_file_system.Base.{
  ℕ, zero, suc, ◌+◌, ◌≤◌, ◌<◌, ◌≡◌, refl, ◌∙◌, Bool, true, false, ◌||◌, some, [], arith, ltb,
  if◌then◌else◌, same, get_or, set, length-set,
}
use network_file_system.Common.{FilePath, Message, max_ss, max_accessible_paths}
use network_file_system.Trie.{trie_insert, trie_search}
use network_file_system.Trie.Lookup.{IsNode, trie_insert-IsNode, search-insert}
use network_file_system.NamingServer.{register_paths, new_server, handle_register}
use network_file_system.NamingServer.State.{NamingServer, served, acked, server, set_server}
use network_file_system.NamingServer.Shape.{IsRegistry, servers-set}

-- One of the paths `i`, `i + 1`, … of the message, so many of them, is the path.
abbrev pub listed : ℕ → ℕ → Message → FilePath → Bool
listed zero i msg q = false
listed (suc rounds) i msg q =
    listed rounds (i + 1) msg q || same (get_or msg.accessible_paths i []) q

-- A round of the loop.
abbrev register_path : ℕ → ℕ → Message → NamingServer → NamingServer
register_path i n msg s =
    record (set_server s n (record (server s n) {
      accessible_paths = set (server s n).accessible_paths i (get_or msg.accessible_paths i []);
    })) { path_trie_root = trie_insert s.path_trie_root (get_or msg.accessible_paths i []) n }

-- The paths that the loop registers lead to the new server, the others where they led.
register_paths-routes :
    (r i n : ℕ) (msg : Message) (s : NamingServer) (q : FilePath)
    → IsNode s.path_trie_root
    → trie_search (register_paths r i n msg s).path_trie_root q
      ≡ (if listed r i msg q then some n else trie_search s.path_trie_root q)
unfolding register_paths
register_paths-routes zero i n msg s q w = refl
register_paths-routes (suc r) i n msg s q w =
    let p = get_or msg.accessible_paths i [] in
    let w' = trie_insert-IsNode s.path_trie_root p n w in
    ground (
      arith,
      register_paths-routes r (i + 1) n msg (register_path i n msg s) q w',
      search-insert s.path_trie_root p q n w,
    )

-- The registry with one more server in use.
abbrev grown : NamingServer → ℕ → NamingServer
grown s n = record s { num_registered_ss = n + 1 }

register_path-IsRegistry :
    (i n : ℕ) (msg : Message) (s : NamingServer)
    → IsRegistry (grown s n)
    → IsRegistry (grown (register_path i n msg s) n)
register_path-IsRegistry i n msg s v =
    let p = get_or msg.accessible_paths i [] in
    let info = record (server s n) { accessible_paths = set (server s n).accessible_paths i p } in
    record {
      array = length-set s.registered_ss n info ∙ v.array;
      few = v.few;
      turn = v.turn;
      servers = servers-set s n info (rw v.array (omega (arith, v.few))) v.servers (record {
        slots = length-set (server s n).accessible_paths i p ∙ (v.servers n).slots;
        within = (v.servers n).within;
      });
      rooted = trie_insert-IsNode s.path_trie_root p n v.rooted;
      routes = λ q j e. ground (arith, search-insert s.path_trie_root p q n v.rooted, v.routes q j);
    }

register_paths-IsRegistry :
    (r i n : ℕ) (msg : Message) (s : NamingServer)
    → IsRegistry (grown s n)
    → IsRegistry (grown (register_paths r i n msg s) n)
unfolding register_paths
register_paths-IsRegistry zero i n msg s v = v
register_paths-IsRegistry (suc r) i n msg s v =
    register_paths-IsRegistry r (i + 1) n msg (register_path i n msg s)
      (register_path-IsRegistry i n msg s v)

-- The state in which the loop of REGISTER_SS starts.
abbrev pub opened : Message → NamingServer → NamingServer
opened msg s = set_server s s.num_registered_ss (new_server msg (server s s.num_registered_ss))

opened-IsRegistry :
    (msg : Message) (s : NamingServer)
    → IsRegistry s
    → s.num_registered_ss < max_ss
    → msg.num_accessible_paths ≤ max_accessible_paths
    → IsRegistry (grown (opened msg s) s.num_registered_ss)
unfolding new_server
opened-IsRegistry msg s v h few =
    let n = s.num_registered_ss in
    record {
      array = length-set s.registered_ss n (new_server msg (server s n)) ∙ v.array;
      few = omega (arith, h);
      turn = ground (arith, v.turn);
      servers =
          servers-set s n (new_server msg (server s n)) (rw v.array h) v.servers
            (record { slots = (v.servers n).slots; within = few });
      rooted = v.rooted;
      routes = λ q j e. omega (arith, v.routes q j e);
    }

-- REGISTER_SS of a message with at most ten paths, where a slot is free, is acknowledged: the
-- registry stays well formed with one more server in use, the paths of the message lead to that
-- server, and all others lead where they led.
pub registered :
    (msg : Message) (s : NamingServer)
    → IsRegistry s
    → s.num_registered_ss < max_ss
    → msg.num_accessible_paths ≤ max_accessible_paths
    → (s' : NamingServer) × (handle_register msg s ≡ served acked s')
      × IsRegistry s'
      × (s'.num_registered_ss ≡ s.num_registered_ss + 1)
      × ((q : FilePath)
          → trie_search s'.path_trie_root q ≡ (
              if listed msg.num_accessible_paths 0 msg q
              then some s.num_registered_ss
              else trie_search s.path_trie_root q))
unfolding handle_register
registered msg s v h few =
    let n = s.num_registered_ss in
    let free : ltb n max_ss ≡ true = ground arith in
    let fits : ltb max_accessible_paths msg.num_accessible_paths ≡ false = ground arith in
    rw (free, fits)
      (
        grown (register_paths msg.num_accessible_paths 0 n msg (opened msg s)) n,
        refl,
        register_paths-IsRegistry msg.num_accessible_paths 0 n msg (opened msg s)
            (opened-IsRegistry msg s v h few),
        refl,
        λ q. register_paths-routes msg.num_accessible_paths 0 n msg (opened msg s) q v.rooted,
      )
