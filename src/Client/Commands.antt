-- ===== src/Client/Commands.antt =====
-- client.c: the commands of the usage, as data, and the command lines that are accepted.
use network_file_system.Base.{
  ℕ, ◌<◌, ◌≡◌, refl, Bool, true, false, List, [], ◌∷◌, ltb, if◌then◌else◌, same, length, arith,
}
use network_file_system.Common.{
  FilePath, Message, list_paths, read_file, write_file, create_file, delete_file, get_file_info,
  copy_file, write_mode_sync, write_mode_async, file_type_file, file_type_dir, zero_message,
  max_path_len, max_data_size,
}
use network_file_system.Client.{
  Parsed, misused, request, parse, parse_read, parse_write, parse_create, parse_copy, list_word,
  read_word, write_word, create_word, delete_word, info_word, copy_word, sync_word, dir_word,
}

-- The lines of the usage; the flag is that of the option.
pub data Command : Type 0 where
  list : Command
  read delete info : FilePath → Command
  write : FilePath → List ℕ → Bool → Command
  create : FilePath → Bool → Command
  copy : FilePath → FilePath → Command

abbrev pub option_words : List ℕ → Bool → List (List ℕ)
option_words word given = if given then word ∷ [] else []

-- The command line, from the command on.
abbrev pub words : Command → List (List ℕ)
words list = list_word ∷ []
words (read path) = read_word ∷ path ∷ []
words (delete path) = delete_word ∷ path ∷ []
words (info path) = info_word ∷ path ∷ []
words (write path bytes sync) = write_word ∷ path ∷ bytes ∷ option_words sync_word sync
words (create path dir) = create_word ∷ path ∷ option_words dir_word dir
words (copy source dest) = copy_word ∷ source ∷ dest ∷ []

-- What is sent to the naming server.
abbrev pub message_of : Command → Message
message_of list = record zero_message { operation = list_paths }
message_of (read path) = record zero_message { operation = read_file; path = path }
message_of (delete path) = record zero_message { operation = delete_file; path = path }
message_of (info path) = record zero_message { operation = get_file_info; path = path }
message_of (write path bytes sync) = record zero_message {
  operation = write_file;
  path = path;
  content = bytes;
  data_size = length bytes;
  write_mode = if sync then write_mode_sync else write_mode_async;
}
message_of (create path dir) = record zero_message {
  operation = create_file;
  path = path;
  file_type = if dir then file_type_dir else file_type_file;
}
message_of (copy source dest) = record zero_message {
  operation = copy_file;
  path = source;
  path2 = dest;
}

-- The arguments fit in the arrays of the message, with their terminators.
abbrev pub Fits : Command → Type 0
Fits list = Unit {0}
Fits (read path) = length path < max_path_len
Fits (delete path) = length path < max_path_len
Fits (info path) = length path < max_path_len
Fits (write path bytes sync) = (length path < max_path_len) × (length bytes < max_data_size)
Fits (create path dir) = length path < max_path_len
Fits (copy source dest) = (length source < max_path_len) × (length dest < max_path_len)

abbrev pub parse_line : List (List ℕ) → Parsed
parse_line [] = misused
parse_line (command ∷ rest) = parse command rest

fits_path : (path : FilePath) → length path < max_path_len → ltb (length path) max_path_len ≡ true
fits_path path h = ground (arith, h)

-- Every command whose arguments fit is read from its own command line as the request that it stands
-- for.
pub parse-words : (c : Command) → Fits c → parse_line (words c) ≡ request (message_of c)
unfolding parse parse_read parse_write parse_create parse_copy same
parse-words list h = refl
parse-words (read path) h = rw (fits_path path h) refl
parse-words (delete path) h = rw (fits_path path h) refl
parse-words (info path) h = rw (fits_path path h) refl
parse-words (write path bytes true) (h, k) =
    let room : ltb (length bytes) max_data_size ≡ true = ground (arith, k) in
    rw (fits_path path h, room) refl
parse-words (write path bytes false) (h, k) =
    let room : ltb (length bytes) max_data_size ≡ true = ground (arith, k) in
    rw (fits_path path h, room) refl
parse-words (create path true) h = rw (fits_path path h) refl
parse-words (create path false) h = rw (fits_path path h) refl
parse-words (copy source dest) (h, k) = rw (fits_path source h, fits_path dest k) refl
