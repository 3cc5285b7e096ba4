-- ===== src/StorageServer/Sequence.antt =====
-- storage_server.c: requests of clients and of the naming server, one after another.
use network_file_system.Base.{sym, subst, ◌≡◌, refl, true, List, [], ◌∷◌, ap, ◌∙◌, suc, length, All}
use network_file_system.Common.{Message}
use network_file_system.Sockets.{System}
use network_file_system.FileLocks.{RwLocks}
use network_file_system.FileLocks.Settled.{AllFree}
use network_file_system.FileOperations.{FileSystem}
use network_file_system.StorageServer.{
  StorageServer, Run, ran, waits, faults, handle_client_connection, handle_nm_connection,
}
use network_file_system.StorageServer.Service.{
  IsWithin, client_effect, nm_effect, Does, IsUsable, client-Does, nm-Does,
}

-- A request on the client port, or on the naming server's port with what that connection gets from
-- outside.
pub data Request : Type 0 where
  from_client : Message → Request
  from_nm : System → Message → Request

-- A WRITE_FILE of a client has no more bytes than a message holds.
abbrev pub IsServable : Request → Type 0
IsServable (from_client msg) = IsWithin msg.operation msg
IsServable (from_nm sys msg) = Unit {0}

module _ (P : RwLocks) (F : FileSystem) where
  abbrev pub serve : Request → StorageServer P F → Run P F Message
  serve (from_client msg) s = handle_client_connection P F true msg s
  serve (from_nm sys msg) s = handle_nm_connection P F true sys msg s

  pub prepend : Message → Run P F (List Message) → Run P F (List Message)
  prepend m (ran ms s) = ran (m ∷ ms) s
  prepend m (waits s) = waits s
  prepend m faults = faults

  pub serve_then :
      Run P F Message → (StorageServer P F → Run P F (List Message)) → Run P F (List Message)
  serve_then (ran m s) rest = prepend m (rest s)
  serve_then (waits s) rest = waits s
  serve_then faults rest = faults

  pub serve_all : List Request → StorageServer P F → Run P F (List Message)
  serve_all [] s = ran [] s
  serve_all (r ∷ rs) s = serve_then (serve r s) (serve_all rs)

  -- The same on the files alone.
  abbrev pub effect : Request → F.Files → Message × F.Files
  effect (from_client msg) fs = client_effect P F msg.operation msg fs
  effect (from_nm sys msg) fs = nm_effect P F msg.operation sys msg fs

  unfoldable pub effects : List Request → F.Files → List Message × F.Files
  effects [] fs = ([], fs)
  effects (r ∷ rs) fs =
      let (m, fs') = effect r fs in let (ms, fs'') = effects rs fs' in (m ∷ ms, fs'')

  pub serve-Does :
      (r : Request) (s : StorageServer P F)
      → IsUsable P F
      → IsServable r
      → AllFree P s.locks
      → Does P F (effect r s.files) (serve r s)
  unfolding handle_client_connection handle_nm_connection
  serve-Does (from_client msg) s u w free = client-Does P F msg.operation msg s u w free
  serve-Does (from_nm sys msg) s u w free = nm-Does P F msg.operation sys msg s u free

  abbrev reply_or : Message → Run P F Message → Message
  reply_or m (ran n s) = n
  reply_or m (waits s) = m
  reply_or m faults = m

  abbrev state_or : StorageServer P F → Run P F Message → StorageServer P F
  state_or d (ran n s) = s
  state_or d (waits s) = d
  state_or d faults = d

  -- A request that was served has had its effect.
  pub served-effect :
      (r : Request) (m : Message) (s s' : StorageServer P F)
      → IsUsable P F
      → IsServable r
      → AllFree P s.locks
      → serve r s ≡ ran m s'
      → ((effect r s.files).0 ≡ m) × AllFree P s'.locks × ((effect r s.files).1 ≡ s'.files)
  served-effect r m s s' u w free e =
      let (t, f, free') = serve-Does r s u w free in
      let same_run = sym f ∙ e in
      (
        ap (reply_or m) same_run,
        subst (AllFree P) (ap (λ o. (state_or s o).locks) same_run) free',
        ap (λ o. (state_or s o).files) same_run,
      )

  -- With no path locked, locks that can be used and memory for new ones, any sequence of requests in
  -- which no WRITE_FILE says that it has more than 8192 bytes is served to its end: none waits for ever
  -- or reads behind an array, each has a response, the responses and the files afterwards are those of
  -- the requests' effects on the files alone, and no path is locked at the end.
  pub requests_served :
      (rs : List Request) (s : StorageServer P F)
      → IsUsable P F
      → All IsServable rs
      → AllFree P s.locks
      → Does P F (effects rs s.files) (serve_all rs s) × (length (effects rs s.files).0 ≡ length rs)
  unfolding serve_all effects serve_then prepend
  requests_served [] s u ws free = ((s.locks, refl, free), refl)
  requests_served (r ∷ rs) s u (w, ws) free =
      let (t, e, free') = serve-Does r s u w free in
      let next : StorageServer P F = record { locks = t; files = (effect r s.files).1 } in
      let ((t', f, free''), n) = requests_served rs next u ws free' in
      (
        (t', ap (λ o. serve_then o (serve_all rs)) e ∙ ap (prepend (effect r s.files).0) f, free''),
        ap suc n,
      )
