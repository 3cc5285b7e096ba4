-- ===== src/Client/Changes.antt =====
-- client.c with naming_server.c: DELETE and CREATE, given what the storage server answers.
use network_file_system.Base.{
  subst, ℕ, ◌≡◌, ◌≢◌, refl, ◌∙◌, Bool, true, false, ◌⊎◌, inl, inr, Option, none, some, List, ◌∷◌,
  arith, if◌then◌else◌, same_refl, ◌==◌, Bool-cases, ==_iff,
}
use network_file_system.Common.{FilePath, Message, acked, nacked, success, is_success}
use network_file_system.Sockets.{System, answered, reaches, exchange}
use network_file_system.FileLocks.{RwLocks}
use network_file_system.FileOperations.{FileSystem}
use network_file_system.StorageServer.{StorageServer, ran, coded, handle_nm_connection}
use network_file_system.Trie.{trie_search, trie_delete}
use network_file_system.Trie.Lookup.{IsNode, search-delete, search-insert}
use network_file_system.ServerInfo.{remove_path_from_ss_info}
use network_file_system.LruCache.Shape.{Cells}
use network_file_system.LruCache.Spec.{Slots, repr}
use network_file_system.LruCache.Remove.{remove_spec, remove_refines}
use network_file_system.NamingServer.{
  dispatch, handle_connection, handle_delete, handle_create, delete_finish, forget_path, create_on,
  create_finish, commit_path,
}
use network_file_system.NamingServer.State.{
  NamingServer, Outside, served, set_server, server, contact, get_available_ss_for_creation,
}
use network_file_system.NamingServer.Shape.{IsRegistry, get_available_lem}
use network_file_system.NamingServer.Deletion.{Removable}
use network_file_system.Client.{stopped, run, send_request, after_nm}
use network_file_system.Client.Commands.{
  Command, list, read, write, info, copy, delete, create, Fits, parse_line, words, message_of,
  parse-words,
}

-- What the naming server does with the answer of the storage server that deletes.
forgets :
    (i : ℕ) (path : FilePath) (cs : Cells) (m : Slots) (s : NamingServer)
    → Removable path cs m s
    → (s' : NamingServer) × (forget_path i path s ≡ served acked s')
      × (trie_search s'.path_trie_root path ≡ none)
unfolding forget_path
forgets i path cs m s c =
    rw (c.held, remove_refines path cs m c.distinct c.live)
      (
        record (set_server s i (remove_path_from_ss_info (server s i) path)) {
          path_trie_root = trie_delete s.path_trie_root path;
          path_lru_cache = repr (remove_spec path cs m).0 (remove_spec path cs m).1;
        },
        refl,
        search-delete s.path_trie_root path path ∙ rw (same_refl path) refl,
      )

is_success-coded : (code : ℕ) → code ≢ success → is_success (coded code) ≡ false
is_success-coded code h = ground arith

module _ (P : RwLocks) (F : FileSystem) where
  -- The answer of the storage server's handler for the naming server comes back to it.
  abbrev pub AnsweredByHolder :
      Outside → System → NamingServer → ℕ → StorageServer P F → Message → Type 0
  AnsweredByHolder out sys s i t m =
      (r : Message) (t' : StorageServer P F)
      → handle_nm_connection P F true sys m t ≡ ran r t'
      → contact out (server s i) m ≡ answered r

  -- The storage server's handler for the naming server, with its answer and what it leaves.
  abbrev pub Handles : System → Message → StorageServer P F → Message → StorageServer P F → Type 0
  Handles sys m t r t' = handle_nm_connection P F true sys m t ≡ ran r t'

module _ (atoi : List ℕ → ℕ) (nm ss : System) (nm_ip nm_port : List ℕ) where
  run-words :
      (c : Command)
      → run atoi nm ss (nm_ip ∷ nm_port ∷ words c) ≡ (
          if reaches nm nm_ip (atoi nm_port)
          then send_request nm ss nm_ip (atoi nm_port) (parse_line (words c))
          else stopped)
  unfolding run
  run-words list = refl
  run-words (read path) = refl
  run-words (delete path) = refl
  run-words (info path) = refl
  run-words (write path bytes sync) = refl
  run-words (create path dir) = refl
  run-words (copy source dest) = refl

  -- What the client's program comes to with the answer of the naming server.
  pub seen :
      (c : Command) (r : Message)
      → Fits c
      → reaches nm nm_ip (atoi nm_port) ≡ true
      → exchange nm nm_ip (atoi nm_port) (message_of c) ≡ answered r
      → run atoi nm ss (nm_ip ∷ nm_port ∷ words c) ≡ after_nm ss (message_of c) (answered r)
  unfolding send_request
  seen c r fits reached e = run-words c ∙ rw (reached, parse-words c fits, e) refl

-- DELETE of a path that leads to server `i`, which answers with the code.
pub delete_answer :
    (path : FilePath) (out : Outside) (cs : Cells) (m : Slots) (i code : ℕ) (s : NamingServer)
    → Removable path cs m s
    → trie_search s.path_trie_root path ≡ some i
    → contact out (server s i) (message_of (delete path)) ≡ answered (coded code)
    → ((code ≡ success)
        × ((s' : NamingServer) × (handle_connection out (some (message_of (delete path))) s
              ≡ served acked s')
            × (trie_search s'.path_trie_root path ≡ none)))
      ⊎ ((code ≢ success)
          × (handle_connection out (some (message_of (delete path))) s ≡ served (nacked code) s))
unfolding handle_connection dispatch handle_delete delete_finish
delete_answer path out cs m i code s c route answer = elim (Bool-cases (code == success)) [
  | inl done ↦
      let (s', e, gone) = forgets i path cs m s c in
      inl ((==_iff code success).0 done, (s', rw (route, answer, done) e, gone))
  | inr refusal ↦ inr (ground (arith, refusal), rw (route, answer, refusal) refl)
]

-- CREATE of a path that leads nowhere, at the server whose turn it is.
pub create_answer :
    (path : FilePath) (dir : Bool) (out : Outside) (i code : ℕ) (s s1 : NamingServer)
    → IsRegistry s
    → trie_search s.path_trie_root path ≡ none
    → get_available_ss_for_creation s ≡ (some i, s1)
    → contact out (server s1 i) (message_of (create path dir)) ≡ answered (coded code)
    → ((code ≡ success)
        × ((s' : NamingServer) × (handle_connection out (some (message_of (create path dir))) s
              ≡ served acked s')
            × (trie_search s'.path_trie_root path ≡ some i)))
      ⊎ ((code ≢ success)
          × (handle_connection out (some (message_of (create path dir))) s
              ≡ served (nacked code) s1))
unfolding handle_connection dispatch handle_create create_on create_finish commit_path
create_answer path dir out i code s s1 v absent chosen answer =
    elim (Bool-cases (code == success)) [
      | inl done ↦ inl (
        (==_iff code success).0 done,
        (
          commit_path i path s1,
          rw (absent, chosen, answer, done) refl,
          search-insert s1.path_trie_root path path i (
                subst (λ (r : Option ℕ × NamingServer). IsNode r.1.path_trie_root) chosen
                  (get_available_lem s v).rooted)
              ∙ rw (same_refl path) refl,
        ),
      )
      | inr refusal ↦ inr (ground (arith, refusal), rw (absent, chosen, answer, refusal) refl)
    ]
