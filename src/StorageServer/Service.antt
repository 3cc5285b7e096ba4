-- ===== src/StorageServer/Service.antt =====
-- storage_server.c: with no lock held, a request is what its body does to the files.
use network_file_system.Base.{
  ℕ, ◌≤◌, ◌≡◌, refl, true, false, Option, none, some, List, [], ap, subst, ◌∙◌, arith, ltb,
}
use network_file_system.Common.{
  FilePath, Message, OperationType, register_ss, list_paths, read_file, write_file, create_file,
  delete_file, get_file_info, copy_file, ack, nack, stop, file_in_use, nacked, invalid_operation,
  max_data_size, async_write_failed,
}
use network_file_system.Sockets.{System}
use network_file_system.FileLocks.{
  Attempt, granted, refused, blocked, RwLocks, Table, acquire_read_lock, acquire_write_lock,
  release_lock,
}
use network_file_system.FileLocks.Settled.{
  AllFree, IsTakable, Steady-AllFree, read_granted, write_granted,
}
use network_file_system.FileOperations.{FileSystem, write_opened, ss_write, data_array}
use network_file_system.StorageServer.{
  StorageServer, Run, ran, coded, or_fault, under_lock, reading, writing, after_run, read_body,
  write_body, info_body, create_body, delete_body, copy_body, forward_copy, client_request,
  nm_request,
}
use network_file_system.StorageServer.Locking.{
  IsLawful, KeepsLocks, reading-KeepsLocks, writing-KeepsLocks,
}

-- A WRITE_FILE has no more bytes than a message holds.
abbrev pub IsWithin : OperationType → Message → Type 0
IsWithin write_file msg = msg.data_size ≤ max_data_size
IsWithin _ msg = Unit {0}

module _ (P : RwLocks) (F : FileSystem) where
  -- The result of a write that does not fault.
  abbrev pub coded_write : Option Message × F.Files → Message × F.Files
  coded_write (some m, fs) = (m, fs)
  coded_write (none, fs) = (coded async_write_failed, fs)

  -- What a request comes to on the files alone: a response, and the files afterwards.
  unfoldable pub client_effect : OperationType → Message → F.Files → Message × F.Files
  client_effect read_file msg fs = read_body P F msg fs
  client_effect write_file msg fs = coded_write (write_body P F msg fs)
  client_effect get_file_info msg fs = info_body P F msg fs
  client_effect _ msg fs = (nacked invalid_operation, fs)

  unfoldable pub nm_effect : OperationType → System → Message → F.Files → Message × F.Files
  nm_effect create_file sys msg fs = create_body P F msg fs
  nm_effect delete_file sys msg fs = delete_body P F msg fs
  nm_effect copy_file sys msg fs =
      (forward_copy P F sys msg (copy_body P F msg fs).0, (copy_body P F msg fs).1)
  nm_effect _ sys msg fs = (nacked invalid_operation, fs)

  -- The request has run, with that result and those files, and no path is locked after it.
  abbrev pub Does : {A : Type 0} → A × F.Files → Run P F A → Type 0
  Does r o = (t : Table P) × (o ≡ ran r.0 (record { locks = t; files = r.1 })) × AllFree P t

  -- The locks can be used: an unlock undoes a lock, and a fresh lock can be taken.
  pub record IsUsable : Type 0 where
    pub lawful : IsLawful P F
    pub takable : IsTakable P

  -- Under a lock that is granted the body runs.
  under_granted :
      {A : Type 0} (path : FilePath) (body : F.Files → A × F.Files) (busy : A)
      (r : Attempt (Unit {0}) × Table P) (fs : F.Files)
      → r.0 ≡ granted tt
      → under_lock P F path body busy r fs
        ≡ ran (body fs).0 (record { locks = release_lock P path r.1; files = (body fs).1 })
  unfolding under_lock
  under_granted path body busy (granted _, t) fs e = refl
  under_granted path body busy (refused, t) fs e = cc
  under_granted path body busy (blocked, t) fs e = cc

  reading-Does :
      {A : Type 0} (path : FilePath) (body : F.Files → A × F.Files) (busy : A)
      (s : StorageServer P F)
      → IsUsable
      → AllFree P s.locks
      → Does (body s.files) (reading P F true path body busy s)
  unfolding reading
  reading-Does path body busy s usable free =
      let r = acquire_read_lock P true path s.locks in
      let e =
        under_granted path body busy r s.files (read_granted P path s.locks usable.takable free) in
      (
        release_lock P path r.1,
        e,
        Steady-AllFree P s.locks (release_lock P path r.1)
            (subst (λ o. KeepsLocks P F (Unit {0}) s o) e
              (reading-KeepsLocks P F (Unit {0}) true path body busy s usable.lawful))
            free,
      )

  writing-Does :
      {A : Type 0} (path : FilePath) (body : F.Files → A × F.Files) (busy : A)
      (s : StorageServer P F)
      → IsUsable
      → AllFree P s.locks
      → Does (body s.files) (writing P F true path body busy s)
  unfolding writing
  writing-Does path body busy s usable free =
      let r = acquire_write_lock P true path s.locks in
      let e =
        under_granted path body busy r s.files (write_granted P path s.locks usable.takable free) in
      (
        release_lock P path r.1,
        e,
        Steady-AllFree P s.locks (release_lock P path r.1)
            (subst (λ o. KeepsLocks P F (Unit {0}) s o) e
              (writing-KeepsLocks P F (Unit {0}) true path body busy s usable.lawful))
            free,
      )

  unknown-Does :
      (s : StorageServer P F)
      → AllFree P s.locks
      → Does (nacked invalid_operation, s.files) (ran (nacked invalid_operation) s)
  unknown-Does s free = (s.locks, refl, free)

  write_opened-within :
      (path : FilePath) (bytes : List ℕ) (n : ℕ) (fs : F.Files) (o : Option F.Files)
      → n ≤ max_data_size
      → (code : ℕ) × ((write_opened F path bytes n fs o).0 ≡ some code)
  unfolding write_opened
  write_opened-within path bytes n fs none h = (_, refl)
  write_opened-within path bytes n fs (some opened) h =
      let inside : ltb max_data_size n ≡ false = ground arith in rw inside (_, refl)

  pub write_body-within :
      (msg : Message) (fs : F.Files)
      → msg.data_size ≤ max_data_size
      → write_body P F msg fs
        ≡ (some (coded_write (write_body P F msg fs)).0, (coded_write (write_body P F msg fs)).1)
  unfolding write_body ss_write
  write_body-within msg fs h =
      let (code, e) =
        write_opened-within msg.path (data_array msg.content) msg.data_size fs
          (F.truncate msg.path fs) h in
      rw e refl

  -- A request under a lock whose body has a result.
  or_fault-Does :
      (r : Message × F.Files) (b : Option Message × F.Files) (o : Run P F (Option Message))
      → b ≡ (some r.0, r.1)
      → Does b o
      → Does r (or_fault P F o)
  unfolding or_fault
  or_fault-Does r b o e (t, f, free) =
      let g : o ≡ ran (some r.0) (record { locks = t; files = r.1 }) =
        f ∙ (λ i. ran (e i).0 (record { locks = t; files = (e i).1 })) in
      (t, ap (or_fault P F) g, free)

  pub client-Does :
      (operation : OperationType) (msg : Message) (s : StorageServer P F)
      → IsUsable
      → IsWithin operation msg
      → AllFree P s.locks
      → Does (client_effect operation msg s.files) (client_request P F operation true msg s)
  unfolding client_request client_effect
  client-Does read_file msg s u w free = reading-Does msg.path _ _ s u free
  client-Does write_file msg s u w free =
      or_fault-Does (coded_write (write_body P F msg s.files)) (write_body P F msg s.files) _
        (write_body-within msg s.files w)
        (writing-Does msg.path (write_body P F msg) (some (coded file_in_use)) s u free)
  client-Does get_file_info msg s u w free = reading-Does msg.path _ _ s u free
  client-Does register_ss msg s u w free = unknown-Does s free
  client-Does list_paths msg s u w free = unknown-Does s free
  client-Does create_file msg s u w free = unknown-Does s free
  client-Does delete_file msg s u w free = unknown-Does s free
  client-Does copy_file msg s u w free = unknown-Does s free
  client-Does ack msg s u w free = unknown-Does s free
  client-Does nack msg s u w free = unknown-Does s free
  client-Does stop msg s u w free = unknown-Does s free

  after_run-Does :
      {A B : Type 0} (r : A × F.Files) (o : Run P F A) (k : A → B)
      → Does r o
      → Does (k r.0, r.1) (after_run P F o k)
  unfolding after_run
  after_run-Does r o k (t, e, free) = (t, ap (λ x. after_run P F x k) e, free)

  pub nm-Does :
      (operation : OperationType) (sys : System) (msg : Message) (s : StorageServer P F)
      → IsUsable
      → AllFree P s.locks
      → Does (nm_effect operation sys msg s.files) (nm_request P F operation true sys msg s)
  unfolding nm_request nm_effect
  nm-Does create_file sys msg s u free = writing-Does msg.path _ _ s u free
  nm-Does delete_file sys msg s u free = writing-Does msg.path _ _ s u free
  nm-Does copy_file sys msg s u free =
      after_run-Does (copy_body P F msg s.files) _ (forward_copy P F sys msg)
        (reading-Does msg.path (copy_body P F msg) (file_in_use, []) s u free)
  nm-Does register_ss sys msg s u free = unknown-Does s free
  nm-Does list_paths sys msg s u free = unknown-Does s free
  nm-Does read_file sys msg s u free = unknown-Does s free
  nm-Does write_file sys msg s u free = unknown-Does s free
  nm-Does get_file_info sys msg s u free = unknown-Does s free
  nm-Does ack sys msg s u free = unknown-Does s free
  nm-Does nack sys msg s u free = unknown-Does s free
  nm-Does stop sys msg s u free = unknown-Does s free
