-- ===== src/Client.antt =====
-- client.c: one command, from its arguments to what is shown. The texts of the log lines are left
-- out, and the bytes that they show of files and paths are kept.
pub mod Commands
pub mod EndToEnd
pub mod Changes
pub mod Everywhere
mod Tests
use network_file_system.Base.{
  ℕ, Bool, true, false, Option, none, some, List, [], ◌∷◌, ltb, ◌==◌, if◌then◌else◌, same, length,
}
use network_file_system.Common.{
  FilePath, Message, OperationType, register_ss, list_paths, read_file, write_file, create_file,
  delete_file, get_file_info, copy_file, ack, nack, stop, WriteMode, write_mode_sync,
  write_mode_async, FileType, file_type_file, file_type_dir, zero_message, is_success, max_path_len,
  max_data_size,
}
use network_file_system.Sockets.{System, Contact, failed, answered, reaches, exchange}

-- "LIST"
abbrev pub list_word : List ℕ
list_word = 76 ∷ 73 ∷ 83 ∷ 84 ∷ []

-- "READ"
abbrev pub read_word : List ℕ
read_word = 82 ∷ 69 ∷ 65 ∷ 68 ∷ []

-- "WRITE"
abbrev pub write_word : List ℕ
write_word = 87 ∷ 82 ∷ 73 ∷ 84 ∷ 69 ∷ []

-- "CREATE"
abbrev pub create_word : List ℕ
create_word = 67 ∷ 82 ∷ 69 ∷ 65 ∷ 84 ∷ 69 ∷ []

-- "DELETE"
abbrev pub delete_word : List ℕ
delete_word = 68 ∷ 69 ∷ 76 ∷ 69 ∷ 84 ∷ 69 ∷ []

-- "INFO"
abbrev pub info_word : List ℕ
info_word = 73 ∷ 78 ∷ 70 ∷ 79 ∷ []

-- "COPY"
abbrev pub copy_word : List ℕ
copy_word = 67 ∷ 79 ∷ 80 ∷ 89 ∷ []

-- "--SYNC"
abbrev pub sync_word : List ℕ
sync_word = 45 ∷ 45 ∷ 83 ∷ 89 ∷ 78 ∷ 67 ∷ []

-- "--DIR"
abbrev pub dir_word : List ℕ
dir_word = 45 ∷ 45 ∷ 68 ∷ 73 ∷ 82 ∷ []

-- What the arguments come to: the usage is printed, `strcpy` has written past an array, or a request.
pub data Parsed : Type 0 where
  misused overrun : Parsed
  request : Message → Parsed

-- `strcpy` of an argument into `path` or `path2`, and what follows. The code has no test: an argument
-- that leaves no room for the terminator is written past the array, which is undefined, and that is
-- `overrun`.
abbrev pub after_strcpy : FilePath → Parsed → Parsed
after_strcpy path rest = if ltb (length path) max_path_len then rest else overrun

-- The branches on the command, given the arguments after it.
pub parse_read : OperationType → List (List ℕ) → Parsed
parse_read operation (path ∷ []) =
    after_strcpy path (request (record zero_message { operation = operation; path = path }))
parse_read operation _ = misused

abbrev pub write_mode_of : List (List ℕ) → WriteMode
write_mode_of (word ∷ []) = if same word sync_word then write_mode_sync else write_mode_async
write_mode_of _ = write_mode_async

pub parse_write : List (List ℕ) → Parsed
parse_write (path ∷ bytes ∷ rest) = after_strcpy path (
    if ltb (length bytes) max_data_size
    then request (record zero_message {
      operation = write_file;
      path = path;
      content = bytes;
      data_size = length bytes;
      write_mode = write_mode_of rest;
    })
    else overrun)
parse_write _ = misused

abbrev pub created_type_of : List (List ℕ) → FileType
created_type_of (word ∷ []) = if same word dir_word then file_type_dir else file_type_file
created_type_of _ = file_type_file

pub parse_create : List (List ℕ) → Parsed
parse_create (path ∷ rest) = after_strcpy path (
    request (record zero_message {
      operation = create_file;
      path = path;
      file_type = created_type_of rest;
    }))
parse_create _ = misused

pub parse_copy : List (List ℕ) → Parsed
parse_copy (source ∷ dest ∷ []) = after_strcpy source (
    after_strcpy dest
      (request (record zero_message { operation = copy_file; path = source; path2 = dest })))
parse_copy _ = misused

pub parse : List ℕ → List (List ℕ) → Parsed
unfolding parse_read parse_write parse_create parse_copy
parse command rest =
    if same command list_word
    then request (record zero_message { operation = list_paths })
    else if same command read_word
    then parse_read read_file rest
    else if same command write_word
    then parse_write rest
    else if same command create_word
    then parse_create rest
    else if same command delete_word
    then parse_read delete_file rest
    else if same command info_word
    then parse_read get_file_info rest
    else if same command copy_word
    then parse_copy rest
    else misused

-- How the program ends, with what it shows. All but the first three return EXIT_SUCCESS.
pub data Ended : Type 0 where
  usage_printed overflowed stopped acknowledged wrote completed : Ended
  listed shown info : List ℕ → Ended
  nm_refused ss_refused : ℕ → Ended
  unexpected : OperationType → ℕ → Ended

-- What `%s` prints of a buffer: the bytes before the terminator.
pub text : List ℕ → List ℕ
text [] = []
text (b ∷ bs) = if b == 0 then [] else b ∷ text bs

-- The response of a storage server to a request that succeeded there.
pub show_success : OperationType → Message → Ended
show_success read_file r = shown (text r.content)
show_success write_file r = wrote
show_success get_file_info r = info (text r.content)
show_success _ r = completed

pub after_ss : OperationType → Contact → Ended
unfolding show_success
after_ss operation (failed _) = stopped
after_ss operation (answered r) =
    if is_success r then show_success operation r else ss_refused r.error_code

-- What follows an acknowledgement of the naming server.
pub directed_to : System → OperationType → Message → Message → Ended
unfolding after_ss text
directed_to sys list_paths msg r = listed (text r.content)
directed_to sys create_file msg r = acknowledged
directed_to sys delete_file msg r = acknowledged
directed_to sys copy_file msg r = acknowledged
directed_to sys operation msg r = after_ss operation (exchange sys r.ss_ip r.ss_client_port msg)

abbrev pub not_acknowledged : OperationType → ℕ → Ended
not_acknowledged nack code = nm_refused code
not_acknowledged operation code = unexpected operation code

pub after_nm : System → Message → Contact → Ended
unfolding directed_to
after_nm ss msg (failed _) = stopped
after_nm ss msg (answered r) =
    if is_success r
    then directed_to ss msg.operation msg r
    else not_acknowledged r.operation r.error_code

-- The naming server's socket and, if it comes to that, the storage server's.
pub send_request : System → System → List ℕ → ℕ → Parsed → Ended
unfolding after_nm
send_request nm ss nm_ip nm_port misused = usage_printed
send_request nm ss nm_ip nm_port overrun = overflowed
send_request nm ss nm_ip nm_port (request msg) = after_nm ss msg (exchange nm nm_ip nm_port msg)

-- `main`, given `argv` from its second entry on; `atoi` reads the port.
pub run : (List ℕ → ℕ) → System → System → List (List ℕ) → Ended
unfolding send_request
run atoi nm ss (nm_ip ∷ nm_port ∷ command ∷ rest) =
    if reaches nm nm_ip (atoi nm_port)
    then send_request nm ss nm_ip (atoi nm_port) (parse command rest)
    else stopped
run atoi nm ss _ = usage_printed
