-- ===== src/NamingServer/Shape.antt =====
-- The invariant of the naming server's registry: `registered_ss`, the turn and the tree.
use native.Mathlib.Nat.{mod-lt}
use network_file_system.Base.{
  ℕ, ◌+◌, ◌≤◌, ◌<◌, ◌≡◌, refl, ◌∙◌, sym, subst, ◌⊎◌, inl, inr, some, List, arith, Bool-cases, ltb,
  ◌==◌, if◌then◌else◌, length, get_or, set, length-set, get_or-set_self, get_or-set_ne,
}
use network_file_system.Common.{FilePath, max_ss}
use network_file_system.Trie.{trie_search}
use network_file_system.Trie.Lookup.{IsNode, trie_insert-IsNode, search-insert}
use network_file_system.ServerInfo.{StorageServerInfo, zero_info, add_path_to_ss_info}
use network_file_system.ServerInfo.Erase.{IsValid, add_path-append}
use network_file_system.NamingServer.{commit_path}
use network_file_system.NamingServer.State.{NamingServer, server, get_available_ss_for_creation}

-- The array has its 100 slots, of which at most so many are in use. The turn is at a server in use,
-- or at 0. Every slot has its ten paths. The tree has a root, and every path in it leads to a server
-- in use.
pub record IsRegistry (s : NamingServer) : Type 0 where
  pub array : length s.registered_ss ≡ max_ss
  pub few : s.num_registered_ss ≤ max_ss
  pub turn : (s.current_ss_index ≡ 0) ⊎ (s.current_ss_index < s.num_registered_ss)
  pub servers : (i : ℕ) → IsValid (server s i)
  pub rooted : IsNode s.path_trie_root
  pub routes :
      (q : FilePath) (i : ℕ) → trie_search s.path_trie_root q ≡ some i → i < s.num_registered_ss

pub get_or-set :
    (xs : List StorageServerInfo) (i j : ℕ) (v : StorageServerInfo)
    → i < length xs
    → get_or (set xs i v) j zero_info ≡ (if i == j then v else get_or xs j zero_info)
get_or-set xs i j v h =
    ground (arith, get_or-set_self xs i v zero_info, get_or-set_ne xs i j v zero_info)

-- A server in the array after another was written.
pub servers-set :
    (s : NamingServer) (n : ℕ) (info : StorageServerInfo)
    → n < length s.registered_ss
    → ((i : ℕ) → IsValid (server s i))
    → IsValid info
    → (i : ℕ) → IsValid (get_or (set s.registered_ss n info) i zero_info)
servers-set s n info h w v i =
    subst IsValid (sym (get_or-set s.registered_ss n i info h)) (elim (Bool-cases (n == i)) [
      | inl e ↦ subst (λ b. IsValid (if b then info else server s i)) (sym e) v
      | inr e ↦ subst (λ b. IsValid (if b then info else server s i)) (sym e) (w i)
    ])

-- The turn passes to a server in use, and the server whose turn it was is in use.
pub get_available_lem :
    (s : NamingServer) → IsRegistry s → IsRegistry (get_available_ss_for_creation s).1
unfolding get_available_ss_for_creation
get_available_lem s v = elim (Bool-cases (ltb 0 s.num_registered_ss)) [
  | inr e ↦ rw e v
  | inl e ↦ rw e (record {
    array = v.array;
    few = v.few;
    turn = inr (mod-lt (s.current_ss_index + 1) (ground arith));
    servers = v.servers;
    rooted = v.rooted;
    routes = v.routes;
  })
]

-- The server that `get_available_ss_for_creation` gives is in use.
pub available_in_use :
    (s : NamingServer) (i : ℕ)
    → IsRegistry s
    → (get_available_ss_for_creation s).0 ≡ some i
    → i < s.num_registered_ss
unfolding get_available_ss_for_creation
available_in_use s i v e = ground (arith, v.turn)

pub commit_path-IsRegistry :
    (i : ℕ) (path : FilePath) (s : NamingServer)
    → IsRegistry s
    → i < s.num_registered_ss
    → IsRegistry (commit_path i path s)
unfolding commit_path
commit_path-IsRegistry i path s v h = record {
  array = length-set s.registered_ss i (add_path_to_ss_info (server s i) path) ∙ v.array;
  few = v.few;
  turn = v.turn;
  servers =
      servers-set s i (add_path_to_ss_info (server s i) path) (rw v.array (omega (arith, v.few)))
        v.servers (add_path-append (server s i) path (v.servers i)).1;
  rooted = trie_insert-IsNode s.path_trie_root path i v.rooted;
  routes = λ q j e. ground (arith, search-insert s.path_trie_root path q i v.rooted, v.routes q j);
}

pub available_number :
    (s : NamingServer) → (get_available_ss_for_creation s).1.num_registered_ss ≡ s.num_registered_ss
unfolding get_available_ss_for_creation
available_number s = elim (Bool-cases (ltb 0 s.num_registered_ss)) [
  | inr e ↦ rw e refl
  | inl e ↦ rw e refl
]
