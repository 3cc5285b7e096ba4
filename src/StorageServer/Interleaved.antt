-- ===== src/StorageServer/Interleaved.antt =====
-- storage_server.c with ss_file_operations.c: READ_FILE, WRITE_FILE, CREATE_FILE and DELETE_FILE of
-- files in several threads, and the reading of COPY_FILE. A step is the request for the lock, the
-- opening of the file for writing, the writing, the creation, the removal, the reading, or the release:
-- `ss_write` is two steps. What a reader finds are the bytes of the file, of which `ss_read` takes the
-- first 8191.
pub mod Counts
pub mod Whole
pub mod Steps
mod Tests
use network_file_system.Base.{
  ℕ, ◌+◌, ◌≡◌, ◌≢◌, Bool, true, false, Option, some, List, [], ◌∷◌, if◌then◌else◌, same, Becomes,
  Ends,
}
use network_file_system.Common.{FilePath}
use network_file_system.FileLocks.{
  granted, RwLocks, Table, init_file_locks, acquire_read_lock, acquire_write_lock, release_lock,
}
use network_file_system.FileLocks.Threads.{Holder}
use network_file_system.FileOperations.{FileSystem}

-- What a thread that holds a lock does next: it reads; it opens the file, to write these bytes; it
-- writes them; it makes an empty file; it removes the file; or it gives the lock back, which it has for
-- writing or for reading.
pub data Work : Type 0 where
  to_read to_create to_remove : FilePath → Work
  to_open to_write : FilePath → List ℕ → Work
  to_release : FilePath → Bool → Work

-- What was done to a file: these bytes were written, of which so many were taken; it was made empty;
-- it was removed.
pub data Change : Type 0 where
  wrote : FilePath → List ℕ → ℕ → Change
  made removed : FilePath → Change

-- What a reader found.
pub record Found : Type 0 where
  pub path : FilePath
  pub bytes : Option (List ℕ)

-- The requests that change a file, with what they do first.
pub data ChangeRequest : Work → FilePath → Type 0 where
  a_write : (path : FilePath) (bytes : List ℕ) → ChangeRequest (to_open path bytes) path
  a_create : (path : FilePath) → ChangeRequest (to_create path) path
  a_delete : (path : FilePath) → ChangeRequest (to_remove path) path

module _ (P : RwLocks) (F : FileSystem) where
  -- The locks, the files and the threads that hold locks, with the changes that were made and what
  -- readers found.
  pub record Running : Type 0 where
    pub locks : Table P
    pub files : F.Files
    pub works : List Work
    pub changes : List Change
    pub found : List Found

  -- The server at its start, with its files.
  abbrev pub idle : F.Files → Running
  idle fs = record { locks = init_file_locks P; files = fs; works = []; changes = []; found = [] }

-- The requests are for the paths of `Names`.
module _ (P : RwLocks) (F : FileSystem) (Names : FilePath → Type 0) where
  pub data Step (s : Running P F) : Running P F → Type 0 where
    lock_read :
        (path : FilePath) (has_memory : Bool)
        → Names path
        → (acquire_read_lock P has_memory path s.locks).0 ≡ granted tt
        → Step s (record s {
          locks = (acquire_read_lock P has_memory path s.locks).1;
          works = to_read path ∷ s.works;
        })
    lock_write :
        (w : Work) (path : FilePath) (has_memory : Bool)
        → ChangeRequest w path
        → Names path
        → (acquire_write_lock P has_memory path s.locks).0 ≡ granted tt
        → Step s (record s {
          locks = (acquire_write_lock P has_memory path s.locks).1;
          works = w ∷ s.works;
        })
    miss_read :
        (path : FilePath) (has_memory : Bool)
        → (acquire_read_lock P has_memory path s.locks).0 ≢ granted tt
        → Step s (record s { locks = (acquire_read_lock P has_memory path s.locks).1 })
    miss_write :
        (path : FilePath) (has_memory : Bool)
        → (acquire_write_lock P has_memory path s.locks).0 ≢ granted tt
        → Step s (record s { locks = (acquire_write_lock P has_memory path s.locks).1 })
    reads :
        (path : FilePath) {ws : List Work}
        → Becomes (to_read path) (to_release path false) s.works ws
        → Step s (record s {
          works = ws;
          found = record { path = path; bytes = F.bytes_of path s.files } ∷ s.found;
        })
    opens :
        (path : FilePath) (bytes : List ℕ) {ws : List Work} {fs : F.Files}
        → Becomes (to_open path bytes) (to_write path bytes) s.works ws
        → F.truncate path s.files ≡ some fs
        → Step s (record s { files = fs; works = ws })
    writes :
        (path : FilePath) (bytes : List ℕ) (n : ℕ) {ws : List Work} {fs : F.Files}
        → Becomes (to_write path bytes) (to_release path true) s.works ws
        → F.fwrite path bytes s.files ≡ (n, fs)
        → Step s (record s { files = fs; works = ws; changes = wrote path bytes n ∷ s.changes })
    creates :
        (path : FilePath) {ws : List Work} {fs : F.Files}
        → Becomes (to_create path) (to_release path true) s.works ws
        → F.truncate path s.files ≡ some fs
        → Step s (record s { files = fs; works = ws; changes = made path ∷ s.changes })
    removes :
        (path : FilePath) {ws : List Work} {fs : F.Files}
        → Becomes (to_remove path) (to_release path true) s.works ws
        → F.remove path s.files ≡ some fs
        → Step s (record s { files = fs; works = ws; changes = removed path ∷ s.changes })
    gives_up :
        (w : Work) (path : FilePath) {ws : List Work}
        → ChangeRequest w path
        → Becomes w (to_release path true) s.works ws
        → Step s (record s { works = ws })
    releases :
        (path : FilePath) (for_writing : Bool) {ws : List Work}
        → Ends (to_release path for_writing) s.works ws
        → Step s (record s { locks = release_lock P path s.locks; works = ws })

  pub data Reachable (fs : F.Files) : Running P F → Type 0 where
    started : Reachable fs (idle P F fs)
    after : {s t : Running P F} → Reachable fs s → Step s t → Reachable fs t

-- The lock that a thread holds.
abbrev pub holder_of : Work → Holder
holder_of (to_read path) = record { path = path; for_writing = false }
holder_of (to_create path) = record { path = path; for_writing = true }
holder_of (to_remove path) = record { path = path; for_writing = true }
holder_of (to_open path bytes) = record { path = path; for_writing = true }
holder_of (to_write path bytes) = record { path = path; for_writing = true }
holder_of (to_release path for_writing) = record { path = path; for_writing = for_writing }

abbrev pub holders_of : List Work → List Holder
holders_of [] = []
holders_of (w ∷ ws) = holder_of w ∷ holders_of ws

-- How many threads have opened the path and not yet written.
abbrev pub half_of : FilePath → Work → ℕ
half_of q (to_read path) = 0
half_of q (to_create path) = 0
half_of q (to_remove path) = 0
half_of q (to_open path bytes) = 0
half_of q (to_write path bytes) = if same path q then 1 else 0
half_of q (to_release path for_writing) = 0

abbrev pub halves_of : FilePath → List Work → ℕ
halves_of q [] = 0
halves_of q (w ∷ ws) = halves_of q ws + half_of q w
