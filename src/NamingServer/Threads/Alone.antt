-- ===== src/NamingServer/Threads/Alone.antt =====
-- naming_server.c: a thread that runs alone does what `handle_connection` does.
use network_file_system.Base.{
  ℕ, zero, false, suc, ◌≡◌, refl, Option, none, some, inl, inr, Option-cases,
}
use network_file_system.Common.{
  Message, OperationType, register_ss, list_paths, read_file, write_file, create_file, delete_file,
  get_file_info, copy_file, ack, nack, stop,
}
use network_file_system.Trie.{trie_search}
use network_file_system.ServerInfo.{StorageServerInfo}
use network_file_system.LruCache.{lru_get}
use network_file_system.LruCache.State.{Run, ok, fault, out_of_fuel}
use network_file_system.NamingServer.{
  handle_create, create_unless, create_on, handle_delete, delete_at, handle_copy, copy_from,
  copy_dest, copy_to, handle_locate, locate_next, locate_in_trie, dispatch, handle_connection,
}
use network_file_system.NamingServer.State.{
  NamingServer, Outside, Outcome, get_available_ss_for_creation, after_cache,
}
use network_file_system.NamingServer.Threads.{
  asked, creating, copying_to, Progress, goes_on, ends, begin_create, begin_delete, begin_copy,
  begin_locate, begin, choose, find_dest, find_located, advance,
}

-- What the thread comes to within so many more steps of its own.
unfoldable pub alone : ℕ → Progress → Option Outcome
alone n (ends o) = some o
alone zero (goes_on t s) = none
alone (suc n) (goes_on t s) = alone n (advance t s)

chosen_alone :
    (out : Outside) (msg : Message) (p : Option ℕ × NamingServer)
    → alone 3 (choose (creating out msg) p) ≡ some (create_on out msg p)
unfolding alone advance choose create_on
chosen_alone out msg (none, s) = refl
chosen_alone out msg (some i, s) = refl

create_alone :
    (out : Outside) (msg : Message) (s : NamingServer)
    → alone 4 (begin create_file out msg s) ≡ some (handle_create out msg s)
unfolding alone begin begin_create advance handle_create create_unless
create_alone out msg s = elim (Option-cases (trie_search s.path_trie_root msg.path)) [
  | inr (i, e) ↦ rw e refl
  | inl e ↦ rw e (chosen_alone out msg (get_available_ss_for_creation s))
]

delete_alone :
    (out : Outside) (msg : Message) (s : NamingServer)
    → alone 4 (begin delete_file out msg s) ≡ some (handle_delete out msg s)
unfolding alone begin begin_delete advance handle_delete delete_at
delete_alone out msg s = elim (Option-cases (trie_search s.path_trie_root msg.path)) [
  | inr (i, e) ↦ rw e refl
  | inl e ↦ rw e refl
]

dest_alone :
    (out : Outside) (msg : Message) (source : ℕ) (p : Option ℕ × NamingServer)
    → alone 2 (choose (copying_to out msg source false) p) ≡ some (copy_to out msg source false p)
unfolding alone advance choose copy_to
dest_alone out msg source (none, s) = refl
dest_alone out msg source (some i, s) = refl

found_dest_alone :
    (out : Outside) (msg : Message) (source : ℕ) (s : NamingServer) (o : Option ℕ)
    → alone 3 (find_dest out msg source s o) ≡ some (copy_dest out msg s source o)
unfolding alone advance find_dest copy_dest copy_to
found_dest_alone out msg source s (some dest) = refl
found_dest_alone out msg source s none = dest_alone out msg source (get_available_ss_for_creation s)

copy_alone :
    (out : Outside) (msg : Message) (s : NamingServer)
    → alone 4 (begin copy_file out msg s) ≡ some (handle_copy out msg s)
unfolding alone begin begin_copy advance handle_copy copy_from
copy_alone out msg s = elim (Option-cases (trie_search s.path_trie_root msg.path)) [
  | inl e ↦ rw e refl
  | inr (source, e) ↦
      rw e (found_dest_alone out msg source s (trie_search s.path_trie_root msg.path2))
]

found_alone :
    (out : Outside) (msg : Message) (s : NamingServer) (o : Option ℕ)
    → alone 3 (find_located out msg s o) ≡ some (locate_in_trie out msg s o)
unfolding alone advance find_located locate_in_trie
found_alone out msg s none = refl
found_alone out msg s (some i) = refl

locate_alone :
    (out : Outside) (msg : Message) (s : NamingServer) (r : Run (Option StorageServerInfo))
    → alone 4 (begin_locate out msg s r)
      ≡ some (after_cache r λ o c. locate_next out msg (record s { path_lru_cache = c }) o)
unfolding alone begin_locate advance locate_next
locate_alone out msg s (ok (some info) c) = refl
locate_alone out msg s (ok none c) =
    found_alone out msg (record s { path_lru_cache = c }) (trie_search s.path_trie_root msg.path)
locate_alone out msg s fault = refl
locate_alone out msg s out_of_fuel = refl

alone-begin :
    (operation : OperationType) (out : Outside) (msg : Message) (s : NamingServer)
    → alone 4 (begin operation out msg s) ≡ some (dispatch operation out msg s)
unfolding alone begin dispatch handle_locate
alone-begin create_file out msg s = create_alone out msg s
alone-begin delete_file out msg s = delete_alone out msg s
alone-begin copy_file out msg s = copy_alone out msg s
alone-begin read_file out msg s = locate_alone out msg s (lru_get msg.path s.path_lru_cache)
alone-begin write_file out msg s = locate_alone out msg s (lru_get msg.path s.path_lru_cache)
alone-begin get_file_info out msg s = locate_alone out msg s (lru_get msg.path s.path_lru_cache)
alone-begin register_ss out msg s = refl
alone-begin list_paths out msg s = refl
alone-begin ack out msg s = refl
alone-begin nack out msg s = refl
alone-begin stop out msg s = refl

-- A thread that is the only one to run ends within five steps, as `handle_connection` does for its
-- request.
alone-handle_connection :
    (out : Outside) (msg : Message) (s : NamingServer)
    → alone 4 (advance (asked out msg) s) ≡ some (handle_connection out (some msg) s)
unfolding advance handle_connection
alone-handle_connection out msg s = alone-begin msg.operation out msg s
