-- ===== src/StorageServer/Interleaved/Tests.antt =====
-- A storage server on which one thread writes a file and another reads it.
use network_file_system.Base.{
  ℕ, ◌≡◌, refl, ap, sym, ◌∙◌, true, false, Option, none, some, List, [], ◌∷◌, if◌then◌else◌, length,
  arith, same, same_refl, take_all, here, first, subst,
}
use network_file_system.Common.{FilePath}
use network_file_system.FileLocks.{
  granted, Table, acquire_read_lock, acquire_write_lock, release_lock,
}
use network_file_system.FileLocks.Settled.{
  AllFree, Steady, settle, Steady-AllFree, write-Steady, read_granted, write_granted,
}
use network_file_system.FileLocks.Tests.{
  counting, path_a, empty, write_undone, takable, empty-AllFree, counting-Excludes,
}
use network_file_system.FileOperations.{FileSystem, regular}
use network_file_system.StorageServer.Interleaved.{
  Running, to_open, to_release, wrote, a_write, lock_write, opens, writes, releases, lock_read,
  reads, started, after, Reachable,
}
use network_file_system.StorageServer.Interleaved.Whole.{IsOrdinary, AllWhole}
use network_file_system.StorageServer.Interleaved.Steps.{no_torn_read}

abbrev Disk : Type 0
Disk = FilePath → Option (List ℕ)

abbrev put : FilePath → List ℕ → Disk → Disk
put path b disk q = if same path q then some b else disk q

-- The bytes of every path, if it is there.
abbrev disk_files : FileSystem
disk_files = record {
  Files = Disk;
  truncate = λ path disk. some (put path [] disk);
  mkdir = λ path disk. none;
  stat = λ path disk. elim (disk path) [
    | none ↦ none
    | some bytes ↦ some (record { size = length bytes; kind = regular })
  ];
  entries = λ path disk. none;
  rmdir = λ path disk. none;
  remove = λ path disk. some (λ q. if same path q then none else disk q);
  bytes_of = λ path disk. disk path;
  fwrite = λ path b disk. (length b, put path b disk);
  decimal = λ n. 48 ∷ [];
}

abbrev disk_or : Disk → Option Disk → Disk
disk_or disk none = disk
disk_or disk (some d) = d

put_there : (path : FilePath) (b : List ℕ) (disk : Disk) → put path b disk path ≡ some b
put_there path b disk = rw (same_refl path) refl

put_apart :
    (path q : FilePath) (b : List ℕ) (disk : Disk)
    → same path q ≡ false
    → put path b disk q ≡ disk q
put_apart path q b disk e = rw e refl

-- Every path names a file of its own on this disk.
abbrev AnyPath : FilePath → Type 0
AnyPath path = Unit {0}

disk_files-IsOrdinary : IsOrdinary disk_files AnyPath
disk_files-IsOrdinary = record {
  emptied = λ path fs fs' e. ap (λ o. disk_or fs o path) (sym e) ∙ put_there path [] fs;
  written = λ path b n fs fs' was_empty e.
      ap (λ (r : ℕ × Disk). r.1 path) (sym e)
      ∙ put_there path b fs
      ∙ ap some (sym (take_all n b (ground (arith, ap (λ (r : ℕ × Disk). r.0) e))));
  gone = λ path fs fs' e. ap (λ o. disk_or fs o path) (sym e) ∙ rw (same_refl path) refl;
  emptied_apart =
      λ path q fs fs' e _ _ apart. ap (λ o. disk_or fs o q) (sym e) ∙ put_apart path q [] fs apart;
  written_apart = λ path q b n fs fs' e _ _ apart.
      ap (λ (r : ℕ × Disk). r.1 q) (sym e) ∙ put_apart path q b fs apart;
  gone_apart = λ path q fs fs' e _ _ apart. ap (λ o. disk_or fs o q) (sym e) ∙ rw apart refl;
}

abbrev one_entry : Disk
one_entry = put path_a (1 ∷ 2 ∷ []) (λ q. none)

-- One thread writes a file, and then another reads it.
abbrev written_locks : Table counting
written_locks = (acquire_write_lock counting true path_a empty).1

abbrev released_locks : Table counting
released_locks = release_lock counting path_a written_locks

write_lock_granted : (acquire_write_lock counting true path_a empty).0 ≡ granted tt
write_lock_granted = write_granted counting path_a empty takable empty-AllFree

released_locks-AllFree : AllFree counting released_locks
released_locks-AllFree =
    Steady-AllFree counting empty released_locks
      (subst (λ a. Steady counting empty (settle counting path_a written_locks a))
        write_lock_granted (write-Steady counting true path_a empty write_undone))
      empty-AllFree

read_lock_granted : (acquire_read_lock counting true path_a released_locks).0 ≡ granted tt
read_lock_granted = read_granted counting path_a released_locks takable released_locks-AllFree

abbrev new_bytes : List ℕ
new_bytes = 7 ∷ []

abbrev written_disk : Disk
written_disk = put path_a new_bytes (put path_a [] one_entry)

abbrev one_read : Running counting disk_files
one_read = record {
  locks = (acquire_read_lock counting true path_a released_locks).1;
  files = written_disk;
  works = to_release path_a false ∷ [];
  changes = wrote path_a new_bytes 1 ∷ [];
  found = record { path = path_a; bytes = written_disk path_a } ∷ [];
}

one_read-Reachable : Reachable counting disk_files AnyPath one_entry one_read
one_read-Reachable =
    after
      (after
        (after
          (after
            (after
              (after started (
                lock_write (to_open path_a new_bytes) path_a true (a_write path_a new_bytes) tt
                  write_lock_granted))
              (opens path_a new_bytes here refl))
            (writes path_a new_bytes 1 here refl))
          (releases path_a true first))
        (lock_read path_a true tt read_lock_granted))
      (reads path_a here)

no_torn_read_example : AllWhole counting disk_files one_entry one_read.changes one_read.found
no_torn_read_example =
    no_torn_read counting disk_files AnyPath one_entry one_read counting-Excludes
      disk_files-IsOrdinary one_read-Reachable
