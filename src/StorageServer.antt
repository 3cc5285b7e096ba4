-- ===== src/StorageServer.antt =====
-- storage_server.c: the requests of clients and of the naming server, one function for each case of
-- the two switches. The locks of files and the file system are parameters. A request that must wait
-- for a lock ends there; otherwise a request is handled from its lock to its release in one step.
pub mod Locking
pub mod Service
pub mod Sequence
pub mod Contents
pub mod Copied
pub mod Interleaved
pub mod Startup
pub mod Loop
pub mod Tests
use mathlib.Core.Option.{map}
use network_file_system.Base.{
  ℕ, Bool, true, false, Option, none, some, List, [], ◌==◌, if◌then◌else◌, length,
}
use network_file_system.Common.{
  FilePath, Message, OperationType, register_ss, list_paths, read_file, write_file, create_file,
  delete_file, get_file_info, copy_file, ack, nack, stop, write_mode_sync, zero_message, acked,
  nacked, is_success, success, file_in_use, invalid_operation,
}
use network_file_system.Sockets.{System, Contact, failed, answered, exchange}
use network_file_system.FileLocks.{
  Attempt, granted, refused, blocked, RwLocks, Table, acquire_read_lock, acquire_write_lock,
  release_lock,
}
use network_file_system.FileOperations.{
  FileSystem, ss_create, ss_delete, ss_read, ss_write, ss_get_info,
}

-- The response that carries an error code and is an ACK none the less.
abbrev pub coded : ℕ → Message
coded code = record acked { error_code = code }

module _ (P : RwLocks) (F : FileSystem) where
  -- `file_locks` and the files.
  pub record StorageServer : Type 0 where
    pub locks : Table P
    pub files : F.Files

  -- What runs under a lock comes to: a result, a wait for the lock, or a read behind an array.
  pub data Run (A : Type 0) : Type 0 where
    ran : A → StorageServer → Run A
    waits : StorageServer → Run A
    faults : Run A

  module _ {A : Type 0} where
    -- The branches of `if (acquire(path) == 0) { …; release(path); } else { … }`.
    pub under_lock :
        FilePath → (F.Files → A × F.Files) → A → Attempt (Unit {0}) × Table P → F.Files → Run A
    under_lock path body busy (granted _, t) fs =
        let (a, fs') = body fs in ran a (record { locks = release_lock P path t; files = fs' })
    under_lock path body busy (refused, t) fs = ran busy (record { locks = t; files = fs })
    under_lock path body busy (blocked, t) fs = waits (record { locks = t; files = fs })

    -- `has_memory` says whether the table gets memory for a new lock.
    pub reading : Bool → FilePath → (F.Files → A × F.Files) → A → StorageServer → Run A
    reading has_memory path body busy s =
        under_lock path body busy (acquire_read_lock P has_memory path s.locks) s.files

    pub writing : Bool → FilePath → (F.Files → A × F.Files) → A → StorageServer → Run A
    writing has_memory path body busy s =
        under_lock path body busy (acquire_write_lock P has_memory path s.locks) s.files

    pub after_run : {B : Type 0} → Run A → (A → B) → Run B
    after_run (ran a s) k = ran (k a) s
    after_run (waits s) k = waits s
    after_run faults k = faults

    -- A body without a result has read behind an array.
    pub or_fault : Run (Option A) → Run A
    or_fault (ran (some a) s) = ran a s
    or_fault (ran none s) = faults
    or_fault (waits s) = waits s
    or_fault faults = faults

  -- `case READ_FILE` of a client.
  unfoldable pub read_body : Message → F.Files → Message × F.Files
  read_body msg fs =
      let (code, bytes) = ss_read F msg.path fs in
      (record (coded code) { content = bytes; data_size = length bytes }, fs)

  -- `case WRITE_FILE` of a client.
  unfoldable pub write_body : Message → F.Files → Option Message × F.Files
  write_body msg fs =
      let (code, fs') = ss_write F msg.path msg.content msg.data_size fs in (map coded code, fs')

  -- `case GET_FILE_INFO` of a client.
  pub info_body : Message → F.Files → Message × F.Files
  info_body msg fs =
      let (code, response) = ss_get_info F msg.path acked fs in
      (record response { error_code = code }, fs)

  pub client_request : OperationType → Bool → Message → StorageServer → Run Message
  unfolding reading writing or_fault read_body write_body info_body
  client_request read_file has_memory msg s =
      reading has_memory msg.path (read_body msg) (coded file_in_use) s
  client_request write_file has_memory msg s =
      or_fault (writing has_memory msg.path (write_body msg) (some (coded file_in_use)) s)
  client_request get_file_info has_memory msg s =
      reading has_memory msg.path (info_body msg) (coded file_in_use) s
  client_request _ has_memory msg s = ran (nacked invalid_operation) s

  -- `handle_client_connection`, given the message that is received.
  pub handle_client_connection : Bool → Message → StorageServer → Run Message
  handle_client_connection has_memory msg s = client_request msg.operation has_memory msg s

  unfoldable pub create_body : Message → F.Files → Message × F.Files
  create_body msg fs = let (code, fs') = ss_create F msg.path msg.file_type fs in (coded code, fs')

  unfoldable pub delete_body : Message → F.Files → Message × F.Files
  delete_body msg fs = let (code, fs') = ss_delete F msg.path fs in (coded code, fs')

  -- The code and the bytes of the source of a copy.
  pub copy_body : Message → F.Files → (ℕ × List ℕ) × F.Files
  copy_body msg fs = (ss_read F msg.path fs, fs)

  -- The request to the destination's server.
  abbrev pub write_request : Message → List ℕ → Message
  write_request msg bytes = record zero_message {
    operation = write_file;
    path = msg.path2;
    content = bytes;
    data_size = length bytes;
    write_mode = write_mode_sync;
  }

  pub copy_reply : Contact → Message
  copy_reply (failed code) = nacked code
  copy_reply (answered r) = if is_success r then acked else nacked r.error_code

  -- What follows the reading of the source in `case COPY_FILE`.
  pub forward_copy : System → Message → ℕ × List ℕ → Message
  unfolding copy_reply
  forward_copy sys msg (code, bytes) =
      if code == success
      then copy_reply
          (exchange sys msg.dest_ss_ip msg.dest_ss_client_port (write_request msg bytes))
      else nacked code

  pub nm_request : OperationType → Bool → System → Message → StorageServer → Run Message
  unfolding writing reading create_body delete_body copy_body
  nm_request create_file has_memory sys msg s =
      writing has_memory msg.path (create_body msg) (coded file_in_use) s
  nm_request delete_file has_memory sys msg s =
      writing has_memory msg.path (delete_body msg) (coded file_in_use) s
  nm_request copy_file has_memory sys msg s =
      after_run (reading has_memory msg.path (copy_body msg) (file_in_use, []) s)
        (forward_copy sys msg)
  nm_request _ has_memory sys msg s = ran (nacked invalid_operation) s

  -- `handle_nm_connection`, given the message that is received.
  pub handle_nm_connection : Bool → System → Message → StorageServer → Run Message
  handle_nm_connection has_memory sys msg s = nm_request msg.operation has_memory sys msg s
