-- ===== src/NamingServer/Threads/Race.antt =====
-- naming_server.c: two CREATE_FILE requests for one path at a time.
use native.Mathlib.Nat.{mod-lt, mod-eq_of_lt, mod_self}
use network_file_system.Base.{
  ℕ, ◌+◌, ◌%◌, ◌≤◌, ◌<◌, ◌≡◌, ◌≢◌, refl, sym, ap, ◌∙◌, true, false, none, some, [], ◌∷◌, arith, ltb,
  inl, inr, Bool-cases, ==_iff, if◌then◌else◌, length, length-set, same_refl, ◌==◌, here, there,
  first, later,
}
use network_file_system.Common.{FilePath, Message, create_file, acked}
use network_file_system.Sockets.{answered}
use network_file_system.Trie.{trie_search}
use network_file_system.Trie.Lookup.{IsNode, trie_insert-IsNode, search-insert}
use network_file_system.ServerInfo.{add_path_to_ss_info}
use network_file_system.NamingServer.{commit_path, create_finish}
use network_file_system.NamingServer.State.{
  NamingServer, Outside, served, server, contact, get_available_ss_for_creation,
}
use network_file_system.NamingServer.Shape.{IsRegistry, get_or-set}
use network_file_system.NamingServer.Threads.{
  asked, choosing, creating, created, goes_on, ends, begin, begin_create, choose, advance, Running,
  arrives, alone_at, moves, responds, Steps, no_step, after,
}

-- The turn has passed on.
abbrev pub next_turn : NamingServer → NamingServer
next_turn s = record s { current_ss_index = (s.current_ss_index + 1) % s.num_registered_ss }

given :
    (s : NamingServer)
    → 2 ≤ s.num_registered_ss
    → get_available_ss_for_creation s ≡ (some s.current_ss_index, next_turn s)
unfolding get_available_ss_for_creation
given s h = let some_server : ltb 0 s.num_registered_ss ≡ true = ground arith in rw some_server refl

asks :
    (out : Outside) (msg : Message) (s : NamingServer)
    → msg.operation ≡ create_file
    → trie_search s.path_trie_root msg.path ≡ none
    → advance (asked out msg) s ≡ goes_on (choosing out msg) s
unfolding advance begin begin_create
asks out msg s is_create absent =
    ap (λ o. begin o out msg s) is_create ∙ ap (begin_create out msg s) absent

chooses :
    (out : Outside) (msg : Message) (s : NamingServer)
    → 2 ≤ s.num_registered_ss
    → advance (choosing out msg) s ≡ goes_on (creating out msg s.current_ss_index) (next_turn s)
unfolding advance choose
chooses out msg s h = ap (choose (creating out msg)) (given s h)

creates :
    (out : Outside) (msg : Message) (i : ℕ) (s : NamingServer)
    → contact out (server s i) msg ≡ answered acked
    → advance (creating out msg i) s ≡ goes_on (created msg i (answered acked)) s
unfolding advance
creates out msg i s e = ap (λ c. goes_on (created msg i c) s) e

finishes :
    (msg : Message) (i : ℕ) (s : NamingServer)
    → advance (created msg i (answered acked)) s ≡ ends (served acked (commit_path i msg.path s))
unfolding advance create_finish
finishes msg i s = refl

-- The turn that passes on is at another server.
other_turn : (i n : ℕ) → 2 ≤ n → i < n → (i + 1) % n ≢ i
other_turn i n h k e = elim (Bool-cases (i + 1 == n)) [
  | inl last ↦
      let whole : i + 1 ≡ n = (==_iff (i + 1) n).0 last in
      let zero_turn : (i + 1) % n ≡ 0 = ap (λ m. m % n) whole ∙ mod_self n in
      omega (arith, h, e, zero_turn, whole)
  | inr inner ↦
      let apart : i + 1 ≢ n = λ f. ground (arith, f) in
      let same_turn : (i + 1) % n ≡ i + 1 = mod-eq_of_lt (omega (arith, k, apart)) in
      omega (arith, e, same_turn)
]

-- Two threads that are both asked to create a path that is not there, with two servers in use or
-- more.
both :
    (out out' : Outside) (msg msg' : Message) (s : NamingServer)
    → 2 ≤ s.num_registered_ss
    → msg.operation ≡ create_file
    → msg'.operation ≡ create_file
    → trie_search s.path_trie_root msg.path ≡ none
    → trie_search s.path_trie_root msg'.path ≡ none
    → contact out (server s s.current_ss_index) msg ≡ answered acked
    → contact out' (server s (next_turn s).current_ss_index) msg' ≡ answered acked
    → Steps (alone_at s) (record {
      state =
          commit_path
            (next_turn s).current_ss_index
            msg'.path
            (commit_path s.current_ss_index msg.path (next_turn (next_turn s)));
      threads = [];
      responses = acked ∷ acked ∷ [];
    })
both out out' msg msg' s h c c' absent absent' done done' =
    let i = s.current_ss_index in
    let s1 = next_turn s in
    let j = s1.current_ss_index in
    let s2 = next_turn s1 in
    let asked_both =
      after (after no_step (arrives out msg (λ e. absurd (cc))))
        (arrives out' msg' (λ e. absurd (cc))) in
    let searched =
      after (after asked_both (moves (there (asked out' msg') here) (asks out msg s c absent)))
        (moves here (asks out' msg' s c' absent')) in
    let chosen =
      after (after searched (moves (there (choosing out' msg') here) (chooses out msg s h)))
        (moves here (chooses out' msg' s1 h)) in
    let answered_both =
      after (after chosen (moves (there (creating out' msg' j) here) (creates out msg i s2 done)))
        (moves here (creates out' msg' j s2 done')) in
    after
      (after answered_both
        (responds (later (created msg' j (answered acked)) first) (finishes msg i s2)))
      (responds first (finishes msg' j (commit_path i msg.path s2)))

length-commit_path :
    (i : ℕ) (path : FilePath) (s : NamingServer)
    → length (commit_path i path s).registered_ss ≡ length s.registered_ss
unfolding commit_path
length-commit_path i path s = length-set s.registered_ss i _

server-commit_path :
    (i j : ℕ) (path : FilePath) (s : NamingServer)
    → i < length s.registered_ss
    → server (commit_path i path s) j
      ≡ (if i == j then add_path_to_ss_info (server s i) path else server s j)
unfolding commit_path
server-commit_path i j path s h =
    get_or-set s.registered_ss i j (add_path_to_ss_info (server s i) path) h

search-commit_path :
    (i : ℕ) (path : FilePath) (s : NamingServer)
    → IsNode s.path_trie_root
    → trie_search (commit_path i path s).path_trie_root path ≡ some i
unfolding commit_path
search-commit_path i path s w =
    search-insert s.path_trie_root path path i w ∙ rw (same_refl path) refl

commit_path-IsNode :
    (i : ℕ) (path : FilePath) (s : NamingServer)
    → IsNode s.path_trie_root
    → IsNode (commit_path i path s).path_trie_root
unfolding commit_path
commit_path-IsNode i path s w = trie_insert-IsNode s.path_trie_root path i w

-- Two commits of a path on two servers.
twice_committed :
    (i j : ℕ) (path : FilePath) (s : NamingServer)
    → i ≢ j
    → i < length s.registered_ss
    → j < length s.registered_ss
    → (server (commit_path j path (commit_path i path s)) i ≡ add_path_to_ss_info (server s i) path)
      × (server (commit_path j path (commit_path i path s)) j
          ≡ add_path_to_ss_info (server s j) path)
twice_committed i j path s apart h k =
    let k' : j < length (commit_path i path s).registered_ss = rw (length-commit_path i path s) k in
    let other : (i == j) ≡ false = ground arith in
    let other' : (j == i) ≡ false = ground arith in
    let self_i : (i == i) ≡ true = ground arith in
    let self_j : (j == j) ≡ true = ground arith in
    let s' = commit_path i path s in
    (
      rw (server-commit_path j i path s' k', other', server-commit_path i i path s h, self_i) refl,
      rw (server-commit_path j j path s' k', self_j, server-commit_path i j path s h, other) refl,
    )

-- Two CREATE_FILE requests for one path, each of which is the last to look before the other changes
-- the tree, are both acknowledged, where the path is new, two servers or more are in use and the
-- servers that are chosen create the file: it is created on two different servers, both have it in
-- their lists if there was room, and the tree leads to the second.
pub created_twice :
    (out out' : Outside) (msg msg' : Message) (s : NamingServer)
    → IsRegistry s
    → 2 ≤ s.num_registered_ss
    → msg.operation ≡ create_file
    → msg'.operation ≡ create_file
    → msg'.path ≡ msg.path
    → trie_search s.path_trie_root msg.path ≡ none
    → contact out (server s s.current_ss_index) msg ≡ answered acked
    → contact out' (server s (next_turn s).current_ss_index) msg' ≡ answered acked
    → (r : Running) × Steps (alone_at s) r
      × (r.responses ≡ acked ∷ acked ∷ [])
      × (s.current_ss_index ≢ (next_turn s).current_ss_index)
      × (server r.state s.current_ss_index
          ≡ add_path_to_ss_info (server s s.current_ss_index) msg.path)
      × (server r.state (next_turn s).current_ss_index
          ≡ add_path_to_ss_info (server s (next_turn s).current_ss_index) msg.path)
      × (trie_search r.state.path_trie_root msg.path ≡ some (next_turn s).current_ss_index)
created_twice out out' msg msg' s v h c c' one absent done done' =
    let i = s.current_ss_index in
    let j = (next_turn s).current_ss_index in
    let s2 = next_turn (next_turn s) in
    let s4 = commit_path j msg'.path (commit_path i msg.path s2) in
    let k : i < s.num_registered_ss = elim v.turn [
      | inl first_turn ↦ omega (arith, first_turn, h)
      | inr in_use ↦ in_use
    ] in
    let k' : j < s.num_registered_ss = mod-lt (i + 1) (omega (arith, h)) in
    let apart : i ≢ j = λ e. other_turn i s.num_registered_ss h k (sym e) in
    let w : IsNode (commit_path i msg.path s2).path_trie_root =
      commit_path-IsNode i msg.path s2 v.rooted in
    let (at_i, at_j) =
      twice_committed i j msg.path s2 apart (rw v.array (omega (arith, v.few, k)))
        (rw v.array (omega (arith, v.few, k'))) in
    (
      record { state = s4; threads = []; responses = acked ∷ acked ∷ [] },
      both out out' msg msg' s h c c' absent (rw one absent) done done',
      refl,
      apart,
      rw one at_i,
      rw one at_j,
      rw one (search-commit_path j msg.path (commit_path i msg.path s2) w),
    )
