-- ===== src/NamingServer/Endings.antt =====
-- naming_server.c: what each request leaves of the invariant of the registry.
use network_file_system.Base.{
  ℕ, ◌<◌, ◌≡◌, refl, ◌∙◌, sym, subst, Bool, true, false, inl, inr, Option, none, some, arith,
  Bool-cases, Option-cases, ltb, length, length-set,
}
use network_file_system.Common.{
  FilePath, Message, OperationType, register_ss, list_paths, read_file, write_file, create_file,
  delete_file, get_file_info, copy_file, ack, nack, stop, max_ss, max_accessible_paths,
  max_data_size,
}
use network_file_system.Trie.{trie_search, trie_collect_paths}
use network_file_system.Trie.Lookup.{search-delete, trie_delete-IsNode}
use network_file_system.ServerInfo.{StorageServerInfo, remove_path_from_ss_info}
use network_file_system.ServerInfo.Erase.{remove-erase_first}
use network_file_system.LruCache.{lru_get, lru_put, lru_remove}
use network_file_system.LruCache.State.{LruCache, Run, ok, fault, out_of_fuel}
use network_file_system.NamingServer.{
  handle_register, handle_list, handle_create, handle_delete, handle_copy, handle_locate,
  handle_connection, dispatch, forget_path, delete_finish, copy_finish, copy_to, locate_in_trie,
  locate_next, join_lines,
}
use network_file_system.Sockets.{Contact, failed, answered}
use network_file_system.NamingServer.State.{
  NamingServer, Outside, Outcome, served, dropped, crashed, hangs, is_success, server, after_cache,
  contact, get_available_ss_for_creation,
}
use network_file_system.NamingServer.Shape.{
  IsRegistry, servers-set, get_available_lem, available_in_use, available_number,
  commit_path-IsRegistry,
}
use network_file_system.NamingServer.Requests.{registered}
use network_file_system.NamingServer.Creation.{created}

-- A connection that ends, ends in a well-formed registry.
abbrev pub Ends : Outcome → Type 0
Ends (served m s) = IsRegistry s
Ends (dropped s) = IsRegistry s
Ends crashed = Unit {0}
Ends hangs = Unit {0}

pub with_cache :
    (s : NamingServer) (c : LruCache) → IsRegistry s → IsRegistry (record s { path_lru_cache = c })
with_cache s c v = record {
  array = v.array;
  few = v.few;
  turn = v.turn;
  servers = v.servers;
  rooted = v.rooted;
  routes = v.routes;
}

pub after_cache-Ends :
    {A : Type 0} (r : Run A) (k : A → LruCache → Outcome)
    → ((a : A) (c : LruCache) → Ends (k a c))
    → Ends (after_cache r k)
after_cache-Ends (ok a c) k h = h a c
after_cache-Ends fault k h = tt
after_cache-Ends out_of_fuel k h = tt

handle_register-Ends :
    (msg : Message) (s : NamingServer) → IsRegistry s → Ends (handle_register msg s)
unfolding handle_register
handle_register-Ends msg s v = elim (Bool-cases (ltb s.num_registered_ss max_ss)) [
  | inr full ↦ rw full v
  | inl room ↦ elim (Bool-cases (ltb max_accessible_paths msg.num_accessible_paths)) [
    | inl many ↦ rw (room, many) tt
    | inr few ↦
        let (s', e, v', _, _) = registered msg s v (ground arith) (ground arith) in
        subst Ends (sym e) v'
  ]
]

handle_list-Ends : (out : Outside) (s : NamingServer) → IsRegistry s → Ends (handle_list out s)
unfolding handle_list
handle_list-Ends out s v = elim (Bool-cases out.has_buffer) [
  | inr refusal ↦ rw refusal v
  | inl given ↦
      elim (Bool-cases
        (ltb (length (join_lines (trie_collect_paths s.path_trie_root))) max_data_size)) [
          | inl short ↦ rw (given, short) v
          | inr long ↦ rw (given, long) tt
        ]
]

handle_create-Ends :
    (out : Outside) (msg : Message) (s : NamingServer)
    → IsRegistry s
    → Ends (handle_create out msg s)
handle_create-Ends out msg s v =
    let (r, s', e, v', _) = created out msg s v in subst Ends (sym e) v'

forget_path-Ends :
    (i : ℕ) (path : FilePath) (s : NamingServer)
    → IsRegistry s
    → i < s.num_registered_ss
    → Ends (forget_path i path s)
unfolding forget_path
forget_path-Ends i path s v h =
    let info = remove_path_from_ss_info (server s i) path in
    after_cache-Ends (lru_remove path s.path_lru_cache) _ (λ a c. record {
      array = length-set s.registered_ss i info ∙ v.array;
      few = v.few;
      turn = v.turn;
      servers =
          servers-set s i info (rw v.array (omega (arith, v.few))) v.servers
            (remove-erase_first (server s i) path (v.servers i)).1;
      rooted = trie_delete-IsNode s.path_trie_root path v.rooted;
      routes = λ q j e. ground (arith, search-delete s.path_trie_root path q, v.routes q j);
    })

pub delete_finish-Ends :
    (i : ℕ) (msg : Message) (answer : Contact) (s : NamingServer)
    → IsRegistry s
    → i < s.num_registered_ss
    → Ends (delete_finish i msg answer s)
unfolding delete_finish
delete_finish-Ends i msg (failed code) s v h = v
delete_finish-Ends i msg (answered r) s v h = elim (Bool-cases (is_success r)) [
  | inl done ↦ rw done (forget_path-Ends i msg.path s v h)
  | inr refusal ↦ rw refusal v
]

handle_delete-Ends :
    (out : Outside) (msg : Message) (s : NamingServer)
    → IsRegistry s
    → Ends (handle_delete out msg s)
unfolding handle_delete
handle_delete-Ends out msg s v = elim (Option-cases (trie_search s.path_trie_root msg.path)) [
  | inl e ↦ rw e v
  | inr (i, e) ↦
      rw e (delete_finish-Ends i msg (contact out (server s i) msg) s v (v.routes msg.path i e))
]

pub copy_finish-Ends :
    (exists : Bool) (dest : ℕ) (msg : Message) (answer : Contact) (s : NamingServer)
    → IsRegistry s
    → dest < s.num_registered_ss
    → Ends (copy_finish exists dest msg answer s)
unfolding copy_finish
copy_finish-Ends exists dest msg (failed code) s v h = v
copy_finish-Ends exists dest msg (answered r) s v h = elim (Bool-cases (is_success r)) [
  | inr refusal ↦ rw refusal v
  | inl done ↦ elim (Bool-cases exists) [
    | inl old ↦ rw (done, old) v
    | inr new ↦ rw (done, new) (commit_path-IsRegistry dest msg.path2 s v h)
  ]
]

copy_to-Ends :
    (out : Outside) (msg : Message) (source : ℕ) (exists : Bool) (o : Option ℕ) (s : NamingServer)
    → IsRegistry s
    → ((dest : ℕ) → o ≡ some dest → dest < s.num_registered_ss)
    → Ends (copy_to out msg source exists (o, s))
unfolding copy_to
copy_to-Ends out msg source exists none s v h = v
copy_to-Ends out msg source exists (some dest) s v h =
    copy_finish-Ends exists dest msg _ s v (h dest refl)

handle_copy-Ends :
    (out : Outside) (msg : Message) (s : NamingServer) → IsRegistry s → Ends (handle_copy out msg s)
unfolding handle_copy
handle_copy-Ends out msg s v = elim (Option-cases (trie_search s.path_trie_root msg.path)) [
  | inl e ↦ rw e v
  | inr (source, e) ↦ elim (Option-cases (trie_search s.path_trie_root msg.path2)) [
    | inr (dest, f) ↦
        rw (e, f)
          (copy_to-Ends out msg source true (some dest) s v (λ d g. v.routes msg.path2 d (f ∙ g)))
    | inl f ↦
        let (o, s') = get_available_ss_for_creation s in
        rw (e, f)
          (copy_to-Ends out msg source false o s' (get_available_lem s v)
            (λ d g. rw (available_number s) (available_in_use s d v g)))
  ]
]

pub locate_in_trie-Ends :
    (out : Outside) (msg : Message) (s : NamingServer) (o : Option ℕ)
    → IsRegistry s
    → Ends (locate_in_trie out msg s o)
unfolding locate_in_trie
locate_in_trie-Ends out msg s none v = v
locate_in_trie-Ends out msg s (some i) v =
    after_cache-Ends (lru_put out.fresh msg.path (server s i) s.path_lru_cache) _
      (λ a c. with_cache s c v)

locate_next-Ends :
    (out : Outside) (msg : Message) (s : NamingServer) (o : Option StorageServerInfo)
    → IsRegistry s
    → Ends (locate_next out msg s o)
unfolding locate_next
locate_next-Ends out msg s none v =
    locate_in_trie-Ends out msg s (trie_search s.path_trie_root msg.path) v
locate_next-Ends out msg s (some info) v = v

handle_locate-Ends :
    (out : Outside) (msg : Message) (s : NamingServer)
    → IsRegistry s
    → Ends (handle_locate out msg s)
unfolding handle_locate
handle_locate-Ends out msg s v =
    after_cache-Ends (lru_get msg.path s.path_lru_cache) _
      (λ o c. locate_next-Ends out msg (record s { path_lru_cache = c }) o (with_cache s c v))

pub dispatch-Ends :
    (operation : OperationType) (out : Outside) (msg : Message) (s : NamingServer)
    → IsRegistry s
    → Ends (dispatch operation out msg s)
unfolding dispatch
dispatch-Ends register_ss out msg s v = handle_register-Ends msg s v
dispatch-Ends list_paths out msg s v = handle_list-Ends out s v
dispatch-Ends create_file out msg s v = handle_create-Ends out msg s v
dispatch-Ends delete_file out msg s v = handle_delete-Ends out msg s v
dispatch-Ends copy_file out msg s v = handle_copy-Ends out msg s v
dispatch-Ends read_file out msg s v = handle_locate-Ends out msg s v
dispatch-Ends write_file out msg s v = handle_locate-Ends out msg s v
dispatch-Ends get_file_info out msg s v = handle_locate-Ends out msg s v
dispatch-Ends ack out msg s v = v
dispatch-Ends nack out msg s v = v
dispatch-Ends stop out msg s v = v

pub handle_connection-Ends :
    (out : Outside) (request : Option Message) (s : NamingServer)
    → IsRegistry s
    → Ends (handle_connection out request s)
unfolding handle_connection
handle_connection-Ends out none s v = v
handle_connection-Ends out (some msg) s v = dispatch-Ends msg.operation out msg s v
