-- ===== src/Client/Everywhere.antt =====
-- client.c with naming_server.c and storage_server.c: DELETE and CREATE from end to end.
mod Tests
use network_file_system.Base.{
  ℕ, ◌≡◌, ◌≢◌, refl, ap, ◌∙◌, Bool, true, ◌⊎◌, inl, inr, none, some, List, ◌∷◌,
}
use network_file_system.Common.{FilePath, Message, acked, nacked, success}
use network_file_system.Sockets.{System, answered, reaches}
use network_file_system.FileLocks.{RwLocks}
use network_file_system.FileLocks.Settled.{AllFree}
use network_file_system.FileOperations.{FileSystem, ss_delete, ss_create}
use network_file_system.FileOperations.Effects.{
  Removed, deleted_or_kept, Made, type_of, created_or_kept,
}
use network_file_system.StorageServer.{StorageServer, ran, coded, create_body, delete_body}
use network_file_system.StorageServer.Service.{IsUsable, nm_effect}
use network_file_system.StorageServer.Sequence.{from_nm, serve-Does}
use network_file_system.Trie.{trie_search}
use network_file_system.LruCache.Shape.{Cells}
use network_file_system.LruCache.Spec.{Slots}
use network_file_system.NamingServer.{handle_connection}
use network_file_system.NamingServer.State.{
  NamingServer, Outside, served, get_available_ss_for_creation,
}
use network_file_system.NamingServer.Shape.{IsRegistry}
use network_file_system.NamingServer.Deletion.{Removable}
use network_file_system.Client.{acknowledged, nm_refused, run, after_nm, directed_to}
use network_file_system.Client.Commands.{Command, delete, create, Fits, words, message_of}
use network_file_system.Client.EndToEnd.{AnsweredByNm}
use network_file_system.Client.Changes.{
  AnsweredByHolder, Handles, seen, delete_answer, create_answer,
}

-- The request at the naming server, with its answer and what it leaves.
abbrev pub Answers : Outside → NamingServer → Message → Message → NamingServer → Type 0
Answers out s m r s' = handle_connection out (some m) s ≡ served r s'

module _ (atoi : List ℕ → ℕ) (nm ss : System) (nm_ip nm_port : List ℕ) (out : Outside)
    (s s' : NamingServer) (c : Command) (fits : Fits c)
    (reached : reaches nm nm_ip (atoi nm_port) ≡ true)
    (told : AnsweredByNm nm nm_ip (atoi nm_port) out s (message_of c)) where
  acknowledged_seen :
      Answers out s (message_of c) acked s'
      → after_nm ss (message_of c) (answered acked) ≡ acknowledged
      → run atoi nm ss (nm_ip ∷ nm_port ∷ words c) ≡ acknowledged
  acknowledged_seen e shows =
      seen atoi nm ss nm_ip nm_port c acked fits reached (told acked s' e) ∙ shows

  refusal_seen :
      (code : ℕ)
      → Answers out s (message_of c) (nacked code) s'
      → run atoi nm ss (nm_ip ∷ nm_port ∷ words c) ≡ nm_refused code
  unfolding after_nm
  refusal_seen code e =
      seen atoi nm ss nm_ip nm_port c (nacked code) fits reached (told (nacked code) s' e)

module _ (P : RwLocks) (F : FileSystem) (atoi : List ℕ → ℕ) (nm ss sys : System)
    (nm_ip nm_port : List ℕ) (path : FilePath) (out : Outside) (i : ℕ) (s : NamingServer)
    (t : StorageServer P F) where
  -- DELETE of a path that leads to a storage server, from a client to that server and back: either the
  -- client shows an acknowledgement, the storage server's handler has answered with success and left
  -- the file removed, or the directory that looked empty, and the path leads nowhere; or the client
  -- shows the code of the handler's answer, which is not success, the handler has left the files as
  -- they were, and the naming server has not changed. No lock is held before,
  -- the locks can be used, there is memory for new ones, the answers arrive, and the cache's slot for
  -- the path does not dangle.
  pub deleted_everywhere :
      (cs : Cells) (m : Slots)
      → Fits (delete path)
      → reaches nm nm_ip (atoi nm_port) ≡ true
      → AnsweredByNm nm nm_ip (atoi nm_port) out s (message_of (delete path))
      → AnsweredByHolder P F out sys s i t (message_of (delete path))
      → IsUsable P F
      → AllFree P t.locks
      → Removable path cs m s
      → trie_search s.path_trie_root path ≡ some i
      → ((run atoi nm ss (nm_ip ∷ nm_port ∷ words (delete path)) ≡ acknowledged)
          × ((t' : StorageServer P F) × Handles P F sys
                (message_of (delete path))
                t
                (coded success)
                t'
              × Removed F path t.files t'.files)
          × ((s' : NamingServer) × Answers out s (message_of (delete path)) acked s'
              × (trie_search s'.path_trie_root path ≡ none)))
        ⊎ ((code : ℕ) × (code ≢ success)
            × (run atoi nm ss (nm_ip ∷ nm_port ∷ words (delete path)) ≡ nm_refused code)
            × ((t' : StorageServer P F) × Handles P F sys
                  (message_of (delete path))
                  t
                  (coded code)
                  t'
                × (t'.files ≡ t.files))
            × Answers out s (message_of (delete path)) (nacked code) s)
  unfolding nm_effect delete_body after_nm directed_to
  deleted_everywhere cs m fits reached told answers usable free c route =
      let msg = message_of (delete path) in
      let code = (ss_delete F path t.files).0 in
      let (locks', handled, _) = serve-Does P F (from_nm sys msg) t usable tt free in
      let left : StorageServer P F = record {
        locks = locks';
        files = (ss_delete F path t.files).1;
      } in
      let answer = answers _ _ handled in
      elim (delete_answer path out cs m i code s c route answer) [
        | inl (done, (s', e, gone)) ↦ elim (deleted_or_kept F path t.files) [
          | inl (_, removed) ↦ inl (
            acknowledged_seen atoi nm ss nm_ip nm_port out s s' (delete path) fits reached told e
                refl,
            (left, handled ∙ ap (λ k. ran (coded k) left) done, removed),
            (s', e, gone),
          )
          | inr (failed, _) ↦ absurd (failed done)
        ]
        | inr (failed, e) ↦ elim (deleted_or_kept F path t.files) [
          | inl (done, _) ↦ absurd (failed done)
          | inr (_, kept) ↦
              let refusal =
                refusal_seen atoi nm ss nm_ip nm_port out s s (delete path) fits reached told code
                  e in
              inr (code, failed, refusal, (left, handled, kept), e)
        ]
      ]

  -- CREATE of a path that leads nowhere, from a client to the storage server whose turn it is and back:
  -- either the client shows an acknowledgement, that storage server's handler has answered with success
  -- and left the file made or emptied, or the directory made, and the path leads to it; or the client
  -- shows the code of the handler's answer, which is not success, the handler has left the files as
  -- they were, and the naming server is as the choice of the server left it. No lock is held before, the locks can be used, there is memory for new ones, and the
  -- answers arrive.
  pub created_everywhere :
      (dir : Bool) (s1 : NamingServer)
      → Fits (create path dir)
      → reaches nm nm_ip (atoi nm_port) ≡ true
      → AnsweredByNm nm nm_ip (atoi nm_port) out s (message_of (create path dir))
      → AnsweredByHolder P F out sys s1 i t (message_of (create path dir))
      → IsUsable P F
      → AllFree P t.locks
      → IsRegistry s
      → trie_search s.path_trie_root path ≡ none
      → get_available_ss_for_creation s ≡ (some i, s1)
      → ((run atoi nm ss (nm_ip ∷ nm_port ∷ words (create path dir)) ≡ acknowledged)
          × ((t' : StorageServer P F) × Handles P F sys
                (message_of (create path dir))
                t
                (coded success)
                t'
              × Made F path dir t.files t'.files)
          × ((s' : NamingServer) × Answers out s (message_of (create path dir)) acked s'
              × (trie_search s'.path_trie_root path ≡ some i)))
        ⊎ ((code : ℕ) × (code ≢ success)
            × (run atoi nm ss (nm_ip ∷ nm_port ∷ words (create path dir)) ≡ nm_refused code)
            × ((t' : StorageServer P F) × Handles P F sys
                  (message_of (create path dir))
                  t
                  (coded code)
                  t'
                × (t'.files ≡ t.files))
            × Answers out s (message_of (create path dir)) (nacked code) s1)
  unfolding nm_effect create_body after_nm directed_to
  created_everywhere dir s1 fits reached told answers usable free v absent chosen =
      let msg = message_of (create path dir) in
      let code = (ss_create F path (type_of dir) t.files).0 in
      let (locks', handled, _) = serve-Does P F (from_nm sys msg) t usable tt free in
      let left : StorageServer P F = record {
        locks = locks';
        files = (ss_create F path (type_of dir) t.files).1;
      } in
      let answer = answers _ _ handled in
      elim (create_answer path dir out i code s s1 v absent chosen answer) [
        | inl (done, (s', e, leads)) ↦ elim (created_or_kept F path dir t.files) [
          | inl (_, made) ↦ inl (
            acknowledged_seen atoi nm ss nm_ip nm_port out s s' (create path dir) fits reached told
                e refl,
            (left, handled ∙ ap (λ k. ran (coded k) left) done, made),
            (s', e, leads),
          )
          | inr (failed, _) ↦ absurd (failed done)
        ]
        | inr (failed, e) ↦ elim (created_or_kept F path dir t.files) [
          | inl (done, _) ↦ absurd (failed done)
          | inr (_, kept) ↦
              let refusal =
                refusal_seen atoi nm ss nm_ip nm_port out s s1 (create path dir) fits reached told
                  code e in
              inr (code, failed, refusal, (left, handled, kept), e)
        ]
      ]
