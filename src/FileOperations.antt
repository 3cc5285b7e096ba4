-- ===== src/FileOperations.antt =====
-- ss_file_operations.c: what a storage server does to its files. The file system is a parameter. A
-- call that fails changes nothing, but for `fwrite`, which may write a part.
pub mod Effects
pub mod Tests
use network_file_system.Base.{
  ℕ, zero, suc, ◌-◌, Bool, true, false, ◌&&◌, ◌||◌, Option, none, some, List, [], ◌∷◌, ◌++◌, ◌==◌,
  if◌then◌else◌, same, not, length, take, ltb, replicate,
}
use network_file_system.Common.{
  FilePath, FileType, file_type_file, file_type_dir, file_type_unknown, Message, max_data_size,
  success, file_not_found, permission_denied, invalid_operation, async_write_failed,
}

-- What `stat` tells: the size, and the kind of the entry.
pub data Kind : Type 0 where
  regular directory other : Kind

pub record Stat : Type 0 where
  pub size : ℕ
  pub kind : Kind

-- `fopen` of a path for writing, which makes the file or empties it; `mkdir`; `stat`; the names that
-- `opendir` and `readdir` give; `rmdir`; `remove`; the bytes that `fread` finds behind `fopen` for
-- reading; `fwrite` to the opened file, with the number of bytes written;
-- the digits that `sprintf` prints for a size.
pub record FileSystem : Type 1 where
  pub Files : Type 0
  pub truncate : FilePath → Files → Option Files
  pub mkdir : FilePath → Files → Option Files
  pub stat : FilePath → Files → Option Stat
  pub entries : FilePath → Files → Option (List (List ℕ))
  pub rmdir : FilePath → Files → Option Files
  pub remove : FilePath → Files → Option Files
  pub bytes_of : FilePath → Files → Option (List ℕ)
  pub fwrite : FilePath → List ℕ → Files → ℕ × Files
  pub decimal : ℕ → List ℕ

-- "." and ".."
abbrev dot_names : List (List ℕ)
dot_names = (46 ∷ []) ∷ (46 ∷ 46 ∷ []) ∷ []

-- The loop over the entries: only "." and ".." are there.
pub is_empty_directory : List (List ℕ) → Bool
is_empty_directory [] = true
is_empty_directory (n ∷ ns) =
    if not (same n (46 ∷ [])) && not (same n (46 ∷ 46 ∷ [])) then false else is_empty_directory ns

-- A directory that cannot be opened is left to `rmdir`.
pub may_be_empty : Option (List (List ℕ)) → Bool
may_be_empty none = true
may_be_empty (some ns) = is_empty_directory ns

-- The array `data` of a message: the content, and zero bytes up to its end.
abbrev pub data_array : List ℕ → List ℕ
data_array content = content ++ replicate max_data_size 0

module _ (P : FileSystem) where
  -- The code, with the files of a call that succeeds.
  pub result : P.Files → Option P.Files → ℕ × P.Files
  result fs none = (permission_denied, fs)
  result fs (some fs') = (success, fs')

  unfoldable pub ss_create : FilePath → FileType → P.Files → ℕ × P.Files
  unfolding result
  ss_create path file_type_file fs = result fs (P.truncate path fs)
  ss_create path file_type_dir fs = result fs (P.mkdir path fs)
  ss_create path file_type_unknown fs = (invalid_operation, fs)

  pub delete_kind : FilePath → P.Files → Kind → ℕ × P.Files
  unfolding result
  delete_kind path fs directory =
      if may_be_empty (P.entries path fs)
      then result fs (P.rmdir path fs)
      else (permission_denied, fs)
  delete_kind path fs regular = result fs (P.remove path fs)
  delete_kind path fs other = (invalid_operation, fs)

  pub delete_found : FilePath → P.Files → Option Stat → ℕ × P.Files
  unfolding delete_kind
  delete_found path fs none = (file_not_found, fs)
  delete_found path fs (some st) = delete_kind path fs st.kind

  unfoldable pub ss_delete : FilePath → P.Files → ℕ × P.Files
  unfolding delete_found
  ss_delete path fs = delete_found path fs (P.stat path fs)

  -- The code and the bytes in the buffer, before the terminator that is added.
  unfoldable pub read_opened : Option (List ℕ) → ℕ × List ℕ
  read_opened none = (file_not_found, [])
  read_opened (some bytes) = (success, take (max_data_size - 1) bytes)

  unfoldable pub ss_read : FilePath → P.Files → ℕ × List ℕ
  ss_read path fs = read_opened (P.bytes_of path fs)

  -- After `fopen`. There is no code where `fwrite` would read behind the array of the message.
  unfoldable pub write_opened :
      FilePath → List ℕ → ℕ → P.Files → Option P.Files → Option ℕ × P.Files
  write_opened path bytes data_size fs none = (some permission_denied, fs)
  write_opened path bytes data_size fs (some opened) =
      if ltb max_data_size data_size
      then (none, opened)
      else (let (written, fs') = P.fwrite path (take data_size bytes) opened in
          (some (if written == data_size then success else async_write_failed), fs'))

  -- The mode shows in the log only.
  unfoldable pub ss_write : FilePath → List ℕ → ℕ → P.Files → Option ℕ × P.Files
  ss_write path content data_size fs =
      write_opened path (data_array content) data_size fs (P.truncate path fs)

  -- "Size: %ld bytes\n"
  pub size_line : ℕ → List ℕ
  size_line n =
      (83 ∷ 105 ∷ 122 ∷ 101 ∷ 58 ∷ 32 ∷ [])
      ++ P.decimal n
      ++ (32 ∷ 98 ∷ 121 ∷ 116 ∷ 101 ∷ 115 ∷ 10 ∷ [])

  -- "Type: File\n", "Type: Directory\n" and "Type: Other\n"
  pub type_line : Kind → List ℕ
  type_line regular = 84 ∷ 121 ∷ 112 ∷ 101 ∷ 58 ∷ 32 ∷ 70 ∷ 105 ∷ 108 ∷ 101 ∷ 10 ∷ []
  type_line directory =
      84 ∷ 121 ∷ 112 ∷ 101 ∷ 58 ∷ 32 ∷ 68 ∷ 105 ∷ 114 ∷ 101 ∷ 99 ∷ 116 ∷ 111 ∷ 114 ∷ 121 ∷ 10 ∷ []
  type_line other = 84 ∷ 121 ∷ 112 ∷ 101 ∷ 58 ∷ 32 ∷ 79 ∷ 116 ∷ 104 ∷ 101 ∷ 114 ∷ 10 ∷ []

  pub file_type_of : Kind → FileType
  file_type_of regular = file_type_file
  file_type_of directory = file_type_dir
  file_type_of other = file_type_unknown

  pub info_found : Message → Option Stat → ℕ × Message
  unfolding size_line type_line file_type_of
  info_found response none = (file_not_found, response)
  info_found response (some st) =
      let text = size_line st.size ++ type_line st.kind in
      (
        success,
        record response {
          content = text;
          data_size = length text;
          file_type = file_type_of st.kind;
        },
      )

  pub ss_get_info : FilePath → Message → P.Files → ℕ × Message
  ss_get_info path response fs = info_found response (P.stat path fs)
