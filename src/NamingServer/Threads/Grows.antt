-- ===== src/NamingServer/Threads/Grows.antt =====
-- naming_server.c: what the ends of a request leave of the number of servers.
use network_file_system.Base.{
  ℕ, ◌≤◌, ◌<◌, sym, subst, Bool, inl, inr, some, arith, Bool-cases, ltb, length,
}
use network_file_system.Common.{Message, max_ss, max_accessible_paths, max_data_size}
use network_file_system.Sockets.{Contact, failed, answered}
use network_file_system.Trie.{trie_collect_paths}
use network_file_system.LruCache.{lru_put, lru_remove}
use network_file_system.LruCache.State.{LruCache, Run, ok, fault, out_of_fuel}
use network_file_system.NamingServer.{
  handle_register, handle_list, join_lines, commit_path, create_finish, forget_path, delete_finish,
  copy_finish, locate_in_trie,
}
use network_file_system.NamingServer.State.{
  NamingServer, Outside, Outcome, served, dropped, crashed, hangs, is_success, server, after_cache,
}
use network_file_system.NamingServer.Shape.{IsRegistry, commit_path-IsRegistry}
use network_file_system.NamingServer.Requests.{registered}
use network_file_system.NamingServer.Endings.{Ends}

-- No server goes away.
abbrev pub Grows : ℕ → Outcome → Type 0
Grows n (served m s) = n ≤ s.num_registered_ss
Grows n (dropped s) = n ≤ s.num_registered_ss
Grows n crashed = Unit {0}
Grows n hangs = Unit {0}

after_cache-Grows :
    {A : Type 0} (n : ℕ) (r : Run A) (k : A → LruCache → Outcome)
    → ((a : A) (c : LruCache) → Grows n (k a c))
    → Grows n (after_cache r k)
after_cache-Grows n (ok a c) k h = h a c
after_cache-Grows n fault k h = tt
after_cache-Grows n out_of_fuel k h = tt

pub handle_register-Grows :
    (msg : Message) (s : NamingServer)
    → IsRegistry s
    → Grows s.num_registered_ss (handle_register msg s)
unfolding handle_register
handle_register-Grows msg s v = elim (Bool-cases (ltb s.num_registered_ss max_ss)) [
  | inr full ↦ rw full (omega arith)
  | inl room ↦ elim (Bool-cases (ltb max_accessible_paths msg.num_accessible_paths)) [
    | inl many ↦ rw (room, many) tt
    | inr few ↦
        let (s', e, _, n, _) = registered msg s v (ground arith) (ground arith) in
        subst (Grows s.num_registered_ss) (sym e) (omega (arith, n))
  ]
]

pub handle_list-Grows :
    (out : Outside) (s : NamingServer) → Grows s.num_registered_ss (handle_list out s)
unfolding handle_list
handle_list-Grows out s = elim (Bool-cases out.has_buffer) [
  | inr refusal ↦ rw refusal (omega arith)
  | inl given ↦
      elim (Bool-cases
        (ltb (length (join_lines (trie_collect_paths s.path_trie_root))) max_data_size)) [
          | inl short ↦ rw (given, short) (omega arith)
          | inr long ↦ rw (given, long) tt
        ]
]

pub create_finish-Grows :
    (i : ℕ) (msg : Message) (answer : Contact) (s : NamingServer)
    → Grows s.num_registered_ss (create_finish i msg answer s)
unfolding create_finish commit_path
create_finish-Grows i msg (failed code) s = omega arith
create_finish-Grows i msg (answered r) s = elim (Bool-cases (is_success r)) [
  | inl done ↦ rw done (omega arith)
  | inr refusal ↦ rw refusal (omega arith)
]

pub create_finish-Ends :
    (i : ℕ) (msg : Message) (answer : Contact) (s : NamingServer)
    → IsRegistry s
    → i < s.num_registered_ss
    → Ends (create_finish i msg answer s)
unfolding create_finish
create_finish-Ends i msg (failed code) s v h = v
create_finish-Ends i msg (answered r) s v h = elim (Bool-cases (is_success r)) [
  | inl done ↦ rw done (commit_path-IsRegistry i msg.path s v h)
  | inr refusal ↦ rw refusal v
]

pub delete_finish-Grows :
    (i : ℕ) (msg : Message) (answer : Contact) (s : NamingServer)
    → Grows s.num_registered_ss (delete_finish i msg answer s)
unfolding delete_finish forget_path
delete_finish-Grows i msg (failed code) s = omega arith
delete_finish-Grows i msg (answered r) s = elim (Bool-cases (is_success r)) [
  | inl done ↦ rw done (
      after_cache-Grows s.num_registered_ss (lru_remove msg.path s.path_lru_cache) _
        (λ a c. omega arith))
  | inr refusal ↦ rw refusal (omega arith)
]

pub copy_finish-Grows :
    (exists : Bool) (dest : ℕ) (msg : Message) (answer : Contact) (s : NamingServer)
    → Grows s.num_registered_ss (copy_finish exists dest msg answer s)
unfolding copy_finish commit_path
copy_finish-Grows exists dest msg (failed code) s = omega arith
copy_finish-Grows exists dest msg (answered r) s = elim (Bool-cases (is_success r)) [
  | inr refusal ↦ rw refusal (omega arith)
  | inl done ↦ elim (Bool-cases exists) [
    | inl old ↦ rw (done, old) (omega arith)
    | inr new ↦ rw (done, new) (omega arith)
  ]
]

pub locate_in_trie-Grows :
    (out : Outside) (msg : Message) (s : NamingServer) (i : ℕ)
    → Grows s.num_registered_ss (locate_in_trie out msg s (some i))
unfolding locate_in_trie
locate_in_trie-Grows out msg s i =
    after_cache-Grows s.num_registered_ss (lru_put out.fresh msg.path (server s i) s.path_lru_cache)
      _ (λ a c. omega arith)
