-- ===== src/StorageServer/Locking.antt =====
-- storage_server.c: every request gives back the lock that it took.
use mathlib.Core.Option.{map}
use network_file_system.Base.{
  ◌≡◌, ◌<◌, ℕ, refl, Bool, Bool-cases, inl, inr, Option, none, some, List, Option-cases, arith, ltb,
}
use network_file_system.Common.{
  FilePath, Message, OperationType, register_ss, list_paths, read_file, write_file, create_file,
  delete_file, get_file_info, copy_file, ack, nack, stop, max_data_size, file_in_use,
}
use network_file_system.Sockets.{System}
use network_file_system.FileLocks.{Attempt, granted, refused, blocked, RwLocks, Table}
use network_file_system.FileLocks.Settled.{Undoes, Steady, settle, read-Steady, write-Steady}
use network_file_system.FileOperations.{FileSystem, write_opened, ss_write, data_array}
use network_file_system.StorageServer.{
  StorageServer, Run, ran, waits, faults, or_fault, write_body, coded, under_lock, reading, writing,
  after_run, client_request, handle_client_connection, nm_request, handle_nm_connection,
}

map-none : {A B : Type 0} (f : A → B) (o : Option A) → map f o ≡ none → o ≡ none
map-none f none e = refl
map-none f (some a) e = cc

module _ (P : RwLocks) (F : FileSystem) where
  -- The locks after a run are those before it; a run that faults has an excuse.
  abbrev pub KeepsLocks : {A : Type 0} → Type 0 → StorageServer P F → Run P F A → Type 0
  KeepsLocks E s (ran a s') = Steady P s.locks s'.locks
  KeepsLocks E s (waits s') = Steady P s.locks s'.locks
  KeepsLocks E s faults = E

  -- A WRITE_FILE that says it has more bytes than a message holds.
  abbrev pub IsOverlong : Message → Type 0
  IsOverlong msg = (msg.operation ≡ write_file) × (max_data_size < msg.data_size)

  -- What `unlock` undoes.
  pub record IsLawful : Type 0 where
    pub read_unlock : Undoes P P.rdlock
    pub write_unlock : Undoes P P.wrlock

  under_lock-KeepsLocks :
      {A : Type 0} (E : Type 0) (path : FilePath) (body : F.Files → A × F.Files) (busy : A)
      (r : Attempt (Unit {0}) × Table P) (s : StorageServer P F)
      → Steady P s.locks (settle P path r.1 r.0)
      → KeepsLocks E s (under_lock P F path body busy r s.files)
  unfolding under_lock
  under_lock-KeepsLocks E path body busy (granted _, t) s k = k
  under_lock-KeepsLocks E path body busy (refused, t) s k = k
  under_lock-KeepsLocks E path body busy (blocked, t) s k = k

  pub reading-KeepsLocks :
      {A : Type 0} (E : Type 0) (has_memory : Bool) (path : FilePath) (body : F.Files → A × F.Files)
      (busy : A) (s : StorageServer P F)
      → IsLawful
      → KeepsLocks E s (reading P F has_memory path body busy s)
  unfolding reading
  reading-KeepsLocks E has_memory path body busy s law =
      under_lock-KeepsLocks E path body busy _ s
        (read-Steady P has_memory path s.locks law.read_unlock)

  pub writing-KeepsLocks :
      {A : Type 0} (E : Type 0) (has_memory : Bool) (path : FilePath) (body : F.Files → A × F.Files)
      (busy : A) (s : StorageServer P F)
      → IsLawful
      → KeepsLocks E s (writing P F has_memory path body busy s)
  unfolding writing
  writing-KeepsLocks E has_memory path body busy s law =
      under_lock-KeepsLocks E path body busy _ s
        (write-Steady P has_memory path s.locks law.write_unlock)

  after_run-KeepsLocks :
      {A B : Type 0} (E : Type 0) (s : StorageServer P F) (r : Run P F A) (k : A → B)
      → KeepsLocks E s r
      → KeepsLocks E s (after_run P F r k)
  unfolding after_run
  after_run-KeepsLocks E s (ran a s') k h = h
  after_run-KeepsLocks E s (waits s') k h = h
  after_run-KeepsLocks E s faults k h = h

  -- What `ss_write` comes to without a code it says in `data_size`.
  write_opened-faults :
      (path : FilePath) (bytes : List ℕ) (n : ℕ) (fs : F.Files) (o : Option F.Files)
      → (write_opened F path bytes n fs o).0 ≡ none
      → max_data_size < n
  unfolding write_opened
  write_opened-faults path bytes n fs none e = cc
  write_opened-faults path bytes n fs (some opened) e = elim (Bool-cases (ltb max_data_size n)) [
    | inl beyond ↦ ground arith
    | inr within ↦ let e' = rw within at e in cc
  ]

  write_body-faults :
      (msg : Message) (fs : F.Files)
      → (write_body P F msg fs).0 ≡ none
      → max_data_size < msg.data_size
  unfolding write_body ss_write
  write_body-faults msg fs e =
      write_opened-faults msg.path (data_array msg.content) msg.data_size fs
        (F.truncate msg.path fs) (map-none (coded) _ e)

  or_fault-KeepsLocks :
      (msg : Message) (r : Attempt (Unit {0}) × Table P) (s : StorageServer P F)
      → msg.operation ≡ write_file
      → Steady P s.locks (settle P msg.path r.1 r.0)
      → KeepsLocks (IsOverlong msg) s (
          or_fault P F
            (under_lock P F msg.path (write_body P F msg) (some (coded file_in_use)) r s.files))
  unfolding or_fault under_lock
  or_fault-KeepsLocks msg (granted _, t) s e k =
      elim (Option-cases (write_body P F msg s.files).0) [
        | inl past ↦ rw past (e, write_body-faults msg s.files past)
        | inr (m, done) ↦ rw done k
      ]
  or_fault-KeepsLocks msg (refused, t) s e k = k
  or_fault-KeepsLocks msg (blocked, t) s e k = k

  client-KeepsLocks :
      (operation : OperationType) (has_memory : Bool) (msg : Message) (s : StorageServer P F)
      → msg.operation ≡ operation
      → IsLawful
      → KeepsLocks (IsOverlong msg) s (client_request P F operation has_memory msg s)
  unfolding client_request writing
  client-KeepsLocks read_file m msg s e law = reading-KeepsLocks _ m msg.path _ _ s law
  client-KeepsLocks write_file m msg s e law =
      or_fault-KeepsLocks msg _ s e (write-Steady P m msg.path s.locks law.write_unlock)
  client-KeepsLocks get_file_info m msg s e law = reading-KeepsLocks _ m msg.path _ _ s law
  client-KeepsLocks register_ss m msg s e law = λ q. refl
  client-KeepsLocks list_paths m msg s e law = λ q. refl
  client-KeepsLocks create_file m msg s e law = λ q. refl
  client-KeepsLocks delete_file m msg s e law = λ q. refl
  client-KeepsLocks copy_file m msg s e law = λ q. refl
  client-KeepsLocks ack m msg s e law = λ q. refl
  client-KeepsLocks nack m msg s e law = λ q. refl
  client-KeepsLocks stop m msg s e law = λ q. refl

  nm-KeepsLocks :
      (operation : OperationType) (has_memory : Bool) (sys : System) (msg : Message)
      (s : StorageServer P F)
      → IsLawful
      → KeepsLocks (IsOverlong msg) s (nm_request P F operation has_memory sys msg s)
  unfolding nm_request
  nm-KeepsLocks create_file m sys msg s law = writing-KeepsLocks _ m msg.path _ _ s law
  nm-KeepsLocks delete_file m sys msg s law = writing-KeepsLocks _ m msg.path _ _ s law
  nm-KeepsLocks copy_file m sys msg s law =
      after_run-KeepsLocks _ s _ _ (reading-KeepsLocks _ m msg.path _ _ s law)
  nm-KeepsLocks register_ss m sys msg s law = λ q. refl
  nm-KeepsLocks list_paths m sys msg s law = λ q. refl
  nm-KeepsLocks read_file m sys msg s law = λ q. refl
  nm-KeepsLocks write_file m sys msg s law = λ q. refl
  nm-KeepsLocks get_file_info m sys msg s law = λ q. refl
  nm-KeepsLocks ack m sys msg s law = λ q. refl
  nm-KeepsLocks nack m sys msg s law = λ q. refl
  nm-KeepsLocks stop m sys msg s law = λ q. refl

  -- Where an unlock undoes the lock before it, every request of a client and every request of the
  -- naming server leaves the locks of all paths as they were, on every branch: whether the lock is
  -- granted, refused or waited for, and whether there is memory for a new lock or not. The one request
  -- that is left out is a WRITE_FILE whose data_size is above the 8192 bytes of a message, which may
  -- read behind the array instead; no other request does.
  pub requests-KeepsLocks :
      (has_memory : Bool) (sys : System) (msg : Message) (s : StorageServer P F)
      → IsLawful
      → KeepsLocks (IsOverlong msg) s (handle_client_connection P F has_memory msg s)
        × KeepsLocks (IsOverlong msg) s (handle_nm_connection P F has_memory sys msg s)
  unfolding handle_client_connection handle_nm_connection
  requests-KeepsLocks m sys msg s law = (
    client-KeepsLocks msg.operation m msg s refl law,
    nm-KeepsLocks msg.operation m sys msg s law,
  )
