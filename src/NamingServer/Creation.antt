-- ===== src/NamingServer/Creation.antt =====
-- naming_server.c: CREATE_FILE, on every branch.
use network_file_system.Base.{
  ℕ, ◌<◌, ◌≡◌, refl, ap, ◌∙◌, sym, subst, true, false, ◌⊎◌, inl, inr, none, some, [], ◌∷◌, ◌++◌,
  arith, Bool-cases, Option-cases, ltb, if◌then◌else◌, same, get_or-set_self, get_or, set, length,
  ◌==◌, ==_iff,
}
use network_file_system.Common.{
  FilePath, Message, file_exists, ss_unavailable, max_accessible_paths,
}
use network_file_system.Trie.{trie_search}
use network_file_system.Trie.Lookup.{search-insert}
use network_file_system.ServerInfo.{StorageServerInfo, zero_info, add_path_to_ss_info}
use network_file_system.ServerInfo.Erase.{paths_of, add_path-append}
use network_file_system.NamingServer.{
  commit_path, directed, create_finish, create_on, handle_create,
}
use network_file_system.Sockets.{Contact, failed, answered}
use network_file_system.NamingServer.State.{
  NamingServer, Outside, Outcome, served, acked, nacked, is_ack, is_success, server, contact,
  get_available_ss_for_creation,
}
use network_file_system.NamingServer.Shape.{
  IsRegistry, get_or-set, get_available_lem, commit_path-IsRegistry,
}

-- The path was in no server, and now leads to the server whose turn it was, which has it in its
-- list if there was room; the other paths lead where they led. The addresses of the servers and the
-- cache are as before.
pub record Created (msg : Message) (s s' : NamingServer) : Type 0 where
  pub new : trie_search s.path_trie_root msg.path ≡ none
  pub in_use : s.current_ss_index < s.num_registered_ss
  pub routes :
      (q : FilePath)
      → trie_search s'.path_trie_root q
        ≡ (if same msg.path q then some s.current_ss_index else trie_search s.path_trie_root q)
  pub paths : paths_of (server s' s.current_ss_index) ≡ (
      if ltb (server s s.current_ss_index).num_accessible_paths max_accessible_paths
      then paths_of (server s s.current_ss_index) ++ msg.path ∷ []
      else paths_of (server s s.current_ss_index))
  pub addresses : (j : ℕ) → directed (server s' j) ≡ directed (server s j)
  pub cache : s'.path_lru_cache ≡ s.path_lru_cache

-- At most the turn has changed.
pub record Kept (s s' : NamingServer) : Type 0 where
  pub servers : s'.registered_ss ≡ s.registered_ss
  pub number : s'.num_registered_ss ≡ s.num_registered_ss
  pub tree : s'.path_trie_root ≡ s.path_trie_root
  pub cache : s'.path_lru_cache ≡ s.path_lru_cache

pub Kept-refl : (s : NamingServer) → Kept s s
Kept-refl s = record { servers = refl; number = refl; tree = refl; cache = refl }

-- An acknowledged creation, or a refused one.
abbrev pub CreateEnds : Message → NamingServer → Outcome → Type 0
CreateEnds msg s o =
    (m : Message) × (s' : NamingServer) × (o ≡ served m s')
    × IsRegistry s'
    × (((m ≡ acked) × Created msg s s') ⊎ ((is_ack m.operation ≡ false) × Kept s s'))

-- The state after the choice of a server.
abbrev pub turned : NamingServer → NamingServer
turned s = (get_available_ss_for_creation s).1

pub turned-Kept : (s : NamingServer) → Kept s (turned s)
unfolding get_available_ss_for_creation
turned-Kept s = elim (Bool-cases (ltb 0 s.num_registered_ss)) [
  | inr e ↦ rw (turned, e) (record { servers = refl; number = refl; tree = refl; cache = refl })
  | inl e ↦ rw (turned, e) (record { servers = refl; number = refl; tree = refl; cache = refl })
]

refused :
    (msg : Message) (s s' : NamingServer) (code : ℕ)
    → IsRegistry s'
    → Kept s s'
    → CreateEnds msg s (served (nacked code) s')
refused msg s s' code v k = (nacked code, s', refl, v, inr (refl, k))

address-add_path :
    (info : StorageServerInfo) (path : FilePath)
    → directed (add_path_to_ss_info info path) ≡ directed info
unfolding add_path_to_ss_info
address-add_path info path =
    elim (Bool-cases (ltb info.num_accessible_paths max_accessible_paths)) [
      | inl room ↦ rw room refl
      | inr full ↦ rw full refl
    ]

-- A path more in a server's list does not change an address.
same_address :
    (s : NamingServer) (i : ℕ) (path : FilePath)
    → i < length s.registered_ss
    → (j : ℕ)
    → directed (get_or (set s.registered_ss i (add_path_to_ss_info (server s i) path)) j zero_info)
      ≡ directed (server s j)
same_address s i path h j =
    rw (get_or-set s.registered_ss i j (add_path_to_ss_info (server s i) path) h)
      (elim (Bool-cases (i == j)) [
        | inl e ↦ rw e (
            address-add_path (server s i) path ∙ ap (λ k. directed (server s k)) ((==_iff i j).0 e))
        | inr e ↦ rw e refl
      ])

pub committed :
    (msg : Message) (s : NamingServer)
    → IsRegistry s
    → trie_search s.path_trie_root msg.path ≡ none
    → s.current_ss_index < s.num_registered_ss
    → Created msg s (commit_path s.current_ss_index msg.path (turned s))
unfolding commit_path get_available_ss_for_creation
committed msg s v new h =
    let i = s.current_ss_index in
    let info = add_path_to_ss_info (server s i) msg.path in
    let some_server : ltb 0 s.num_registered_ss ≡ true = ground arith in
    rw (turned, some_server)
      (record {
        new = new;
        in_use = h;
        routes = λ q. search-insert s.path_trie_root msg.path q i v.rooted;
        paths =
            ap paths_of
              (get_or-set_self s.registered_ss i info zero_info (rw v.array (omega (arith, v.few))))
            ∙ (add_path-append (server s i) msg.path (v.servers i)).0;
        addresses = same_address s i msg.path (rw v.array (omega (arith, v.few)));
        cache = refl;
      })

create_finish-CreateEnds :
    (msg : Message) (s : NamingServer) (answer : Contact)
    → IsRegistry s
    → trie_search s.path_trie_root msg.path ≡ none
    → s.current_ss_index < s.num_registered_ss
    → CreateEnds msg s (create_finish s.current_ss_index msg answer (turned s))
unfolding create_finish
create_finish-CreateEnds msg s (failed code) v new h =
    refused msg s (turned s) code (get_available_lem s v) (turned-Kept s)
create_finish-CreateEnds msg s (answered r) v new h = elim (Bool-cases (is_success r)) [
  | inl e ↦ rw e (
    acked,
    commit_path s.current_ss_index msg.path (turned s),
    refl,
    commit_path-IsRegistry s.current_ss_index msg.path (turned s) (get_available_lem s v)
        (rw (turned-Kept s).number h),
    inl (refl, committed msg s v new h),
  )
  | inr e ↦ rw e (refused msg s (turned s) r.error_code (get_available_lem s v) (turned-Kept s))
]

-- The choice as a pair with the state after it.
pub choice_of :
    (s : NamingServer)
    → ltb 0 s.num_registered_ss ≡ true
    → get_available_ss_for_creation s ≡ (some s.current_ss_index, turned s)
unfolding get_available_ss_for_creation
choice_of s e = rw (turned, e) refl

pub no_choice :
    (s : NamingServer)
    → ltb 0 s.num_registered_ss ≡ false
    → get_available_ss_for_creation s ≡ (none, s)
unfolding get_available_ss_for_creation
no_choice s e = rw e refl

create_on-CreateEnds :
    (out : Outside) (msg : Message) (s : NamingServer)
    → IsRegistry s
    → trie_search s.path_trie_root msg.path ≡ none
    → CreateEnds msg s (create_on out msg (get_available_ss_for_creation s))
unfolding create_on
create_on-CreateEnds out msg s v new = elim (Bool-cases (ltb 0 s.num_registered_ss)) [
  | inl e ↦
      subst (λ p. CreateEnds msg s (create_on out msg p)) (sym (choice_of s e))
        (create_finish-CreateEnds msg s (contact out (server (turned s) s.current_ss_index) msg) v
          new (ground (arith, v.turn)))
  | inr e ↦
      subst (λ p. CreateEnds msg s (create_on out msg p)) (sym (no_choice s e))
        (refused msg s s ss_unavailable v (Kept-refl s))
]

-- CREATE_FILE is answered, whatever the storage server does, and the registry stays well formed.
-- The answer is an acknowledgement, and then the path led nowhere and now leads to the server whose
-- turn it was, which is in use and has the path in its list if there was room, while other paths
-- lead where they led and no server's address changes; or it is none, and then the servers, the tree and the cache are as before.
pub created :
    (out : Outside) (msg : Message) (s : NamingServer)
    → IsRegistry s
    → CreateEnds msg s (handle_create out msg s)
unfolding handle_create
created out msg s v = elim (Option-cases (trie_search s.path_trie_root msg.path)) [
  | inr (i, e) ↦ rw e (refused msg s s file_exists v (Kept-refl s))
  | inl e ↦ rw e (create_on-CreateEnds out msg s v e)
]
