-- ===== src/FileOperations/Tests.antt =====
-- A file system with one file, and the theorems there.
use network_file_system.Base.{
  arith, take, ◌-◌, ℕ, ◌≡◌, refl, ap, sym, Option, none, some, List, [], ◌∷◌, length,
}
use network_file_system.Common.{FilePath, success, max_data_size}
use network_file_system.FileOperations.{regular, FileSystem, ss_write, ss_read, write_opened}
use network_file_system.FileOperations.Effects.{Keeps, write-read}

-- The bytes of the file, if it is there; every path is that of the file.
abbrev pub one_file : FileSystem
one_file = record {
  Files = Option (List ℕ);
  truncate = λ path fs. some (some []);
  mkdir = λ path fs. none;
  stat = λ path fs. elim fs [
    | none ↦ none
    | some bytes ↦ some (record { size = length bytes; kind = regular })
  ];
  entries = λ path fs. none;
  rmdir = λ path fs. none;
  remove = λ path fs. some none;
  bytes_of = λ path fs. fs;
  fwrite = λ path bytes fs. (length bytes, some bytes);
  decimal = λ n. 48 ∷ [];
}

abbrev path_a : FilePath
path_a = 97 ∷ []

abbrev pub some_bytes : List ℕ
some_bytes = 1 ∷ 2 ∷ 3 ∷ []

pub one_file-Keeps : Keeps one_file path_a
one_file-Keeps b fs opened fs' opens e = ap (λ (r : ℕ × Option (List ℕ)). r.1) (sym e)

written : (ss_write one_file path_a some_bytes 2 none).0 ≡ some success
unfolding ss_write write_opened
written = refl

write-read_example :
    ss_read one_file path_a (ss_write one_file path_a some_bytes 2 none).1
    ≡ (success, take (max_data_size - 1) (take 2 some_bytes))
write-read_example =
    write-read one_file path_a some_bytes 2 none one_file-Keeps (omega arith) (omega arith) written
