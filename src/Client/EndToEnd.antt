-- ===== src/Client/EndToEnd.antt =====
-- client.c with naming_server.c and storage_server.c: a command of a client from end to end.
use network_file_system.Base.{
  sym, ℕ, ◌-◌, ◌<◌, ◌≡◌, refl, ap, ◌∙◌, Bool, true, some, List, ◌∷◌, arith, length, take, take_all,
}
use network_file_system.Common.{FilePath, Message, acked, max_path_len, max_data_size}
use network_file_system.Sockets.{System, answered, reaches, exchange}
use network_file_system.FileLocks.{RwLocks}
use network_file_system.FileLocks.Settled.{AllFree}
use network_file_system.FileOperations.{FileSystem}
use network_file_system.FileOperations.Effects.{Keeps}
use network_file_system.StorageServer.{StorageServer, ran, handle_client_connection}
use network_file_system.StorageServer.Service.{IsUsable, IsWithin}
use network_file_system.StorageServer.Sequence.{from_client, effect, served-effect, serve-Does}
use network_file_system.StorageServer.Contents.{contents, write-read_effects}
use network_file_system.Trie.{trie_search}
use network_file_system.ServerInfo.{StorageServerInfo}
use network_file_system.LruCache.Shape.{Cells}
use network_file_system.LruCache.Spec.{Slots}
use network_file_system.NamingServer.{dispatch, handle_connection, handle_locate, directed}
use network_file_system.NamingServer.State.{NamingServer, Outside, served, server}
use network_file_system.NamingServer.Location.{IsReady, located}
use network_file_system.Client.{
  shown, wrote, text, run, send_request, after_nm, after_ss, directed_to, show_success,
}
use network_file_system.Client.Commands.{read, write, words, message_of, Fits, parse-words}

-- A connection on which the naming server's answer to the message comes back.
abbrev pub AnsweredByNm : System → List ℕ → ℕ → Outside → NamingServer → Message → Type 0
AnsweredByNm sys ip port out s m =
    (r : Message) (s' : NamingServer)
    → handle_connection out (some m) s ≡ served r s'
    → exchange sys ip port m ≡ answered r

module _ (P : RwLocks) (F : FileSystem) where
  -- The same for a storage server's port for clients.
  abbrev pub AnsweredBySs : System → StorageServerInfo → StorageServer P F → Message → Type 0
  AnsweredBySs sys info t m =
      (r : Message) (t' : StorageServer P F)
      → handle_client_connection P F true m t ≡ ran r t'
      → exchange sys info.ip info.client_port m ≡ answered r

  -- The naming server at a client's request: it has a cache that tells what its tree does, the path
  -- is that of server `i`, and its answer arrives.
  pub record Directs (nm : System) (nm_ip : List ℕ) (port : ℕ) (m : Message) (i : ℕ)
      (s : NamingServer) : Type 0 where
    pub out : Outside
    pub cells : Cells
    pub slots : Slots
    pub reached : reaches nm nm_ip port ≡ true
    pub ready : IsReady out cells slots s
    pub route : trie_search s.path_trie_root m.path ≡ some i
    pub answers : AnsweredByNm nm nm_ip port out s m

  -- The naming server's answer to a request to locate.
  directs :
      (nm : System) (nm_ip : List ℕ) (port : ℕ) (m : Message) (i : ℕ) (s : NamingServer)
      (d : Directs nm nm_ip port m i s)
      → handle_connection d.out (some m) s ≡ handle_locate d.out m s
      → exchange nm nm_ip port m ≡ answered (directed (server s i))
  directs nm nm_ip port m i s d located_by =
      let (cs', m', e, _, _) = located d.out m d.cells d.slots s d.ready in
      d.answers _ _ (located_by ∙ rw d.route at e)

  -- The storage server's response to a request of a client.
  served_by :
      (ss : System) (info : StorageServerInfo) (m : Message) (t : StorageServer P F)
      → IsUsable P F
      → AllFree P t.locks
      → IsWithin m.operation m
      → AnsweredBySs ss info t m
      → exchange ss info.ip info.client_port m ≡ answered (effect P F (from_client m) t.files).0
  served_by ss info m t usable free within answers =
      let (locks, f, _) = serve-Does P F (from_client m) t usable within free in answers _ _ f

  read_contents :
      (atoi : List ℕ → ℕ) (nm ss : System) (nm_ip nm_port : List ℕ) (path : FilePath) (i : ℕ)
      (s : NamingServer) (t : StorageServer P F) (bytes : List ℕ)
      → length path < max_path_len
      → Directs nm nm_ip (atoi nm_port) (message_of (read path)) i s
      → IsUsable P F
      → AllFree P t.locks
      → AnsweredBySs ss (server s i) t (message_of (read path))
      → (effect P F (from_client (message_of (read path))) t.files).0 ≡ contents P F bytes
      → run atoi nm ss (nm_ip ∷ nm_port ∷ words (read path)) ≡ shown (text bytes)
  unfolding run send_request after_nm directed_to after_ss show_success handle_connection dispatch
  read_contents atoi nm ss nm_ip nm_port path i s t bytes fits d usable free answers done =
      let m = message_of (read path) in
      rw
        (
          d.reached,
          parse-words (read path) fits,
          directs nm nm_ip (atoi nm_port) m i s d refl,
          served_by ss (server s i) m t usable free tt answers,
          done,
        )
        refl

  write_wrote :
      (atoi : List ℕ → ℕ) (nm ss : System) (nm_ip nm_port : List ℕ) (path : FilePath)
      (bytes : List ℕ) (sync : Bool) (i : ℕ) (s : NamingServer) (t : StorageServer P F)
      → Fits (write path bytes sync)
      → Directs nm nm_ip (atoi nm_port) (message_of (write path bytes sync)) i s
      → IsUsable P F
      → AllFree P t.locks
      → AnsweredBySs ss (server s i) t (message_of (write path bytes sync))
      → (effect P F (from_client (message_of (write path bytes sync))) t.files).0 ≡ acked
      → run atoi nm ss (nm_ip ∷ nm_port ∷ words (write path bytes sync)) ≡ wrote
  unfolding run send_request after_nm directed_to after_ss show_success handle_connection dispatch
  write_wrote atoi nm ss nm_ip nm_port path bytes sync i s t fits d usable free answers done =
      let m = message_of (write path bytes sync) in
      rw
        (
          d.reached,
          parse-words (write path bytes sync) fits,
          directs nm nm_ip (atoi nm_port) m i s d refl,
          served_by ss (server s i) m t usable free (omega (arith, fits.1)) answers,
          done,
        )
        refl

  taken_whole :
      (bytes : List ℕ)
      → length bytes < max_data_size
      → take (max_data_size - 1) (take (length bytes) bytes) ≡ bytes
  taken_whole bytes short =
      ap (take (max_data_size - 1)) (take_all (length bytes) bytes (omega arith))
      ∙ take_all (max_data_size - 1) bytes (omega (arith, short))

  -- What one client writes another reads: where the storage server answers a WRITE of a path and
  -- bytes that fit with success, WRITE reports it, and READ of the path, when the naming server
  -- directs it to the same storage server after the write, shows exactly these bytes. No lock is held
  -- before, the locks can be used, there is memory for new ones, the answers arrive, a file keeps
  -- what is written to it, and the bytes, being an argument, have no zero byte.
  pub written_shown :
      (atoi : List ℕ → ℕ) (nm ss nm' ss' : System) (nm_ip nm_port : List ℕ) (path : FilePath)
      (bytes : List ℕ) (sync : Bool) (i j : ℕ) (s s' : NamingServer) (t t' : StorageServer P F)
      → Fits (write path bytes sync)
      → text bytes ≡ bytes
      → Directs nm nm_ip (atoi nm_port) (message_of (write path bytes sync)) i s
      → Directs nm' nm_ip (atoi nm_port) (message_of (read path)) j s'
      → IsUsable P F
      → AllFree P t.locks
      → Keeps F path
      → AnsweredBySs ss (server s i) t (message_of (write path bytes sync))
      → handle_client_connection P F true (message_of (write path bytes sync)) t ≡ ran acked t'
      → AnsweredBySs ss' (server s' j) t' (message_of (read path))
      → (run atoi nm ss (nm_ip ∷ nm_port ∷ words (write path bytes sync)) ≡ wrote)
        × (run atoi nm' ss' (nm_ip ∷ nm_port ∷ words (read path)) ≡ shown bytes)
  written_shown atoi nm ss nm' ss' nm_ip nm_port path bytes sync i j s s' t t' fits no_zero d d'
        usable free keeps answers success answers' =
      let w = message_of (write path bytes sync) in
      let r = message_of (read path) in
      let (done, free', files) =
        served-effect P F (from_client w) acked t t' usable (omega (arith, fits.1)) free success in
      let read_back =
        write-read_effects P F w r t.files keeps refl refl refl (omega arith)
          (omega (arith, fits.1)) done in
      (
        write_wrote atoi nm ss nm_ip nm_port path bytes sync i s t fits d usable free answers done,
        read_contents atoi nm' ss' nm_ip nm_port path j s' t' bytes fits.0 d' usable free' answers'
              (ap (λ fs. (effect P F (from_client r) fs).0) (sym files)
                ∙ read_back
                ∙ ap (contents P F) (taken_whole bytes fits.1))
            ∙ ap shown no_zero,
      )
