-- ===== src/NamingServer/Copying.antt =====
-- naming_server.c: COPY_FILE, on every branch.
use network_file_system.Base.{
  ℕ, ◌<◌, ◌≡◌, refl, sym, subst, true, false, ◌⊎◌, inl, inr, none, some, arith, Bool-cases,
  Option-cases, ltb,
}
use network_file_system.Common.{Message, file_not_found, ss_unavailable}
use network_file_system.Trie.{trie_search}
use network_file_system.NamingServer.{
  copy_finish, copy_to, copy_request, copy_dest, copy_from, handle_copy, commit_path,
}
use network_file_system.Sockets.{Contact, failed, answered}
use network_file_system.NamingServer.State.{
  NamingServer, Outside, Outcome, served, acked, nacked, is_ack, is_success, server, contact,
  get_available_ss_for_creation,
}
use network_file_system.NamingServer.Shape.{IsRegistry, get_available_lem, commit_path-IsRegistry}
use network_file_system.NamingServer.Creation.{
  Created, Kept, Kept-refl, turned, turned-Kept, committed, choice_of, no_choice,
}

-- The message that would create the destination.
abbrev pub creation : Message → Message
creation msg = record msg { path = msg.path2 }

-- The source led to a server. The destination did too, and nothing has changed, or it has been
-- created.
abbrev pub Copied : Message → NamingServer → NamingServer → Type 0
Copied msg s s' =
    ((i : ℕ) × (trie_search s.path_trie_root msg.path ≡ some i))
    × ((((d : ℕ) × (trie_search s.path_trie_root msg.path2 ≡ some d)) × (s' ≡ s))
        ⊎ Created (creation msg) s s')

abbrev pub CopyEnds : Message → NamingServer → Outcome → Type 0
CopyEnds msg s o =
    (m : Message) × (s' : NamingServer) × (o ≡ served m s')
    × IsRegistry s'
    × (((m ≡ acked) × Copied msg s s') ⊎ ((is_ack m.operation ≡ false) × Kept s s'))

refused_copy :
    (msg : Message) (s s' : NamingServer) (code : ℕ)
    → IsRegistry s'
    → Kept s s'
    → CopyEnds msg s (served (nacked code) s')
refused_copy msg s s' code v k = (nacked code, s', refl, v, inr (refl, k))

-- The destination is there already.
old_destination :
    (msg : Message) (s : NamingServer) (i d : ℕ) (answer : Contact)
    → IsRegistry s
    → trie_search s.path_trie_root msg.path ≡ some i
    → trie_search s.path_trie_root msg.path2 ≡ some d
    → CopyEnds msg s (copy_finish true d msg answer s)
unfolding copy_finish
old_destination msg s i d (failed code) v e f = refused_copy msg s s code v (Kept-refl s)
old_destination msg s i d (answered r) v e f = elim (Bool-cases (is_success r)) [
  | inl done ↦ rw done (acked, s, refl, v, inl (refl, ((i, e), inl ((d, f), refl))))
  | inr refusal ↦ rw refusal (refused_copy msg s s r.error_code v (Kept-refl s))
]

-- The destination is new and goes to the server whose turn it was.
new_destination :
    (msg : Message) (s : NamingServer) (i : ℕ) (answer : Contact)
    → IsRegistry s
    → trie_search s.path_trie_root msg.path ≡ some i
    → trie_search s.path_trie_root msg.path2 ≡ none
    → s.current_ss_index < s.num_registered_ss
    → CopyEnds msg s (copy_finish false s.current_ss_index msg answer (turned s))
unfolding copy_finish
new_destination msg s i (failed code) v e f h =
    refused_copy msg s (turned s) code (get_available_lem s v) (turned-Kept s)
new_destination msg s i (answered r) v e f h = elim (Bool-cases (is_success r)) [
  | inl done ↦ rw done (
    acked,
    commit_path s.current_ss_index msg.path2 (turned s),
    refl,
    commit_path-IsRegistry s.current_ss_index msg.path2 (turned s) (get_available_lem s v)
        (rw (turned-Kept s).number h),
    inl (refl, ((i, e), inr (committed (creation msg) s v f h))),
  )
  | inr refusal ↦
      rw refusal
        (refused_copy msg s (turned s) r.error_code (get_available_lem s v) (turned-Kept s))
]

choose_destination :
    (out : Outside) (msg : Message) (s : NamingServer) (i : ℕ)
    → IsRegistry s
    → trie_search s.path_trie_root msg.path ≡ some i
    → trie_search s.path_trie_root msg.path2 ≡ none
    → CopyEnds msg s (copy_to out msg i false (get_available_ss_for_creation s))
unfolding copy_to
choose_destination out msg s i v e f = elim (Bool-cases (ltb 0 s.num_registered_ss)) [
  | inl some_server ↦
      subst (λ p. CopyEnds msg s (copy_to out msg i false p)) (sym (choice_of s some_server))
        (new_destination msg s i
          (contact out (server (turned s) i)
            (copy_request msg (server (turned s) s.current_ss_index)))
          v e f (ground (arith, v.turn)))
  | inr no_server ↦
      subst (λ p. CopyEnds msg s (copy_to out msg i false p)) (sym (no_choice s no_server))
        (refused_copy msg s s ss_unavailable v (Kept-refl s))
]

-- COPY_FILE is answered, whatever the source's server does, and the registry stays well formed. The
-- answer is an acknowledgement, and then the source led to a server, and the destination led to one
-- too and nothing has changed, or it has been created at the server whose turn it was, as
-- CREATE_FILE does; or it is none, and then the servers, the tree and the cache are as before.
pub copied :
    (out : Outside) (msg : Message) (s : NamingServer)
    → IsRegistry s
    → CopyEnds msg s (handle_copy out msg s)
unfolding handle_copy copy_to
copied out msg s v = elim (Option-cases (trie_search s.path_trie_root msg.path)) [
  | inl e ↦
      subst (λ o. CopyEnds msg s (copy_from out msg s o)) (sym e)
        (refused_copy msg s s file_not_found v (Kept-refl s))
  | inr (i, e) ↦
      subst (λ o. CopyEnds msg s (copy_from out msg s o)) (sym e)
        (elim (Option-cases (trie_search s.path_trie_root msg.path2)) [
          | inl f ↦
              subst (λ o. CopyEnds msg s (copy_dest out msg s i o)) (sym f)
                (choose_destination out msg s i v e f)
          | inr (d, f) ↦
              subst (λ o. CopyEnds msg s (copy_dest out msg s i o)) (sym f)
                (old_destination msg s i d
                  (contact out (server s i) (copy_request msg (server s d))) v e f)
        ])
]
