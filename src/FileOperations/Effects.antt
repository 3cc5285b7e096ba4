-- ===== src/FileOperations/Effects.antt =====
-- ss_file_operations.c: what the operations leave of the files.
use network_file_system.Base.{
  ℕ, ◌-◌, ◌≡◌, ◌≢◌, ◌≤◌, refl, Bool, true, false, if◌then◌else◌, ◌⊎◌, inl, inr, Option, none, some,
  List, arith, Bool-cases, Option-cases, length, length-take, take, ltb, take-append, length-append,
  replicate,
}
use mathlib.Core.Option.{some-injective}
use network_file_system.Common.{
  FilePath, FileType, file_type_file, file_type_dir, max_data_size, success, permission_denied,
}
use network_file_system.FileOperations.{
  Kind, regular, directory, other, Stat, FileSystem, may_be_empty, result, delete_kind,
  delete_found, ss_create, ss_delete, ss_read, read_opened, ss_write, write_opened, data_array,
}

module _ (P : FileSystem) where
  -- The file is removed, or the directory, which was empty as far as could be seen.
  pub data Removed (path : FilePath) (fs fs' : P.Files) : Type 0 where
    file :
        (st : Stat)
        → P.stat path fs ≡ some st
        → st.kind ≡ regular
        → P.remove path fs ≡ some fs'
        → Removed path fs fs'
    empty_directory :
        (st : Stat)
        → P.stat path fs ≡ some st
        → st.kind ≡ directory
        → may_be_empty (P.entries path fs) ≡ true
        → P.rmdir path fs ≡ some fs'
        → Removed path fs fs'

  abbrev DeleteResult : FilePath → P.Files → ℕ × P.Files → Type 0
  DeleteResult path fs r = ((r.0 ≡ success) × Removed path fs r.1) ⊎ ((r.0 ≢ success) × (r.1 ≡ fs))

  delete_kind-DeleteResult :
      (path : FilePath) (fs : P.Files) (st : Stat) (k : Kind)
      → P.stat path fs ≡ some st
      → st.kind ≡ k
      → DeleteResult path fs (delete_kind P path fs k)
  unfolding delete_kind result
  delete_kind-DeleteResult path fs st regular e f = elim (Option-cases (P.remove path fs)) [
    | inl failed ↦ rw failed (inr (omega arith, refl))
    | inr (fs', done) ↦ rw done (inl (refl, file st e f done))
  ]
  delete_kind-DeleteResult path fs st other e f = inr (omega arith, refl)
  delete_kind-DeleteResult path fs st directory e f =
      elim (Bool-cases (may_be_empty (P.entries path fs))) [
        | inr full ↦ rw full (inr (omega arith, refl))
        | inl empty ↦ elim (Option-cases (P.rmdir path fs)) [
          | inl failed ↦ rw (empty, failed) (inr (omega arith, refl))
          | inr (fs', done) ↦ rw (empty, done) (inl (refl, empty_directory st e f empty done))
        ]
      ]

  pub deleted_or_kept :
      (path : FilePath) (fs : P.Files)
      → ((ss_delete P path fs).0 ≡ success × Removed path fs (ss_delete P path fs).1)
        ⊎ ((ss_delete P path fs).0 ≢ success × ((ss_delete P path fs).1 ≡ fs))
  unfolding ss_delete delete_found
  deleted_or_kept path fs = elim (Option-cases (P.stat path fs)) [
    | inl absent ↦ rw absent (inr (omega arith, refl))
    | inr (st, e) ↦ rw e (delete_kind-DeleteResult path fs st st.kind e refl)
  ]

  -- A file that was emptied keeps the bytes that were then written to it in full.
  abbrev pub Keeps : FilePath → Type 0
  Keeps path =
      (b : List ℕ) (fs opened fs' : P.Files)
      → P.truncate path fs ≡ some opened
      → P.fwrite path b opened ≡ (length b, fs')
      → P.bytes_of path fs' ≡ some b

  write_opened-read :
      (path : FilePath) (bytes : List ℕ) (n : ℕ) (fs : P.Files) (o : Option P.Files)
      → Keeps path
      → P.truncate path fs ≡ o
      → n ≤ length bytes
      → n ≤ max_data_size
      → (write_opened P path bytes n fs o).0 ≡ some success
      → P.bytes_of path (write_opened P path bytes n fs o).1 ≡ some (take n bytes)
  unfolding write_opened
  write_opened-read path bytes n fs none kept e fits within done =
      absurd (omega (arith, some-injective permission_denied success done))
  write_opened-read path bytes n fs (some opened) kept e fits within done =
      let r = P.fwrite path (take n bytes) opened in
      let inside : ltb max_data_size n ≡ false = ground arith in
      let code = some-injective _ _ (rw inside at done) in
      let all : r.0 ≡ length (take n bytes) = ground (arith, length-take n bytes, code) in
      rw inside (kept (take n bytes) fs opened r.1 e (λ i. (all i, r.1)))

  -- Where a file that was emptied keeps the bytes that were then written to it in full, a read after a write that succeeds
  -- gives the first 8191 of the bytes written.
  pub write-read :
      (path : FilePath) (bytes : List ℕ) (data_size : ℕ) (fs : P.Files)
      → Keeps path
      → data_size ≤ length bytes
      → data_size ≤ max_data_size
      → (ss_write P path bytes data_size fs).0 ≡ some success
      → ss_read P path (ss_write P path bytes data_size fs).1
        ≡ (success, take (max_data_size - 1) (take data_size bytes))
  unfolding ss_write ss_read read_opened
  write-read path bytes data_size fs kept fits within done =
      let enough : data_size ≤ length (data_array bytes) =
        omega (arith, length-append bytes (replicate max_data_size 0)) in
      rw
        (
          write_opened-read path (data_array bytes) data_size fs (P.truncate path fs) kept refl
              enough within done,
          take-append data_size bytes (replicate max_data_size 0) fits,
        )
        refl

  -- A read that succeeds gives the first 8191 bytes of the file.
  pub read_found :
      (path : FilePath) (fs : P.Files)
      → (ss_read P path fs).0 ≡ success
      → (b : List ℕ) × (P.bytes_of path fs ≡ some b)
        × ((ss_read P path fs).1 ≡ take (max_data_size - 1) b)
  unfolding ss_read read_opened
  read_found path fs done = elim (Option-cases (P.bytes_of path fs)) [
    | inl absent ↦ absurd (omega (arith, rw absent at done))
    | inr (b, found) ↦ (b, found, rw found refl)
  ]

  pub read_there :
      (path : FilePath) (fs : P.Files) (b : List ℕ)
      → P.bytes_of path fs ≡ some b
      → ss_read P path fs ≡ (success, take (max_data_size - 1) b)
  unfolding ss_read read_opened
  read_there path fs b there = rw there refl

-- The type of CREATE with its option.
abbrev pub type_of : Bool → FileType
type_of dir = if dir then file_type_dir else file_type_file

module _ (P : FileSystem) where
  -- The file is made or emptied, or the directory is made.
  abbrev pub Made : FilePath → Bool → P.Files → P.Files → Type 0
  Made path dir fs fs' = (if dir then P.mkdir path fs else P.truncate path fs) ≡ some fs'

  result-either :
      (fs : P.Files) (o : Option P.Files)
      → (((result P fs o).0 ≡ success) × (o ≡ some (result P fs o).1))
        ⊎ (((result P fs o).0 ≢ success) × ((result P fs o).1 ≡ fs))
  unfolding result
  result-either fs none = inr (omega arith, refl)
  result-either fs (some fs') = inl (refl, refl)

  -- `ss_create` makes the file or the directory, or it fails and changes nothing.
  pub created_or_kept :
      (path : FilePath) (dir : Bool) (fs : P.Files)
      → (((ss_create P path (type_of dir) fs).0 ≡ success)
          × Made path dir fs (ss_create P path (type_of dir) fs).1)
        ⊎ (((ss_create P path (type_of dir) fs).0 ≢ success)
            × ((ss_create P path (type_of dir) fs).1 ≡ fs))
  unfolding ss_create
  created_or_kept path true fs = result-either fs (P.mkdir path fs)
  created_or_kept path false fs = result-either fs (P.truncate path fs)
