-- ===== src/StorageServer/Tests.antt =====
-- A storage server with one file, and the theorems there.
use network_file_system.Base.{
  ap, sym, ◌∙◌, arith, ℕ, ◌≤◌, ◌-◌, ◌≡◌, refl, true, some, List, [], ◌∷◌, length, take,
}
use network_file_system.Common.{
  Message, zero_message, read_file, write_file, copy_file, acked, max_data_size,
}
use network_file_system.Sockets.{
  answered, exchange, create_socket, connect_to_server, send_message, receive_message,
}
use network_file_system.FileLocks.Tests.{
  counting, path_a, empty, read_undone, write_undone, takable, empty-AllFree,
}
use network_file_system.FileOperations.{ss_read, ss_write, read_opened, write_opened}
use network_file_system.FileOperations.Tests.{one_file, some_bytes, one_file-Keeps}
use network_file_system.NamingServer.Tests.{working}
use network_file_system.StorageServer.{
  StorageServer, ran, handle_client_connection, handle_nm_connection, write_body, forward_copy,
  copy_reply, copy_body, write_request,
}
use network_file_system.StorageServer.Locking.{
  IsLawful, IsOverlong, KeepsLocks, requests-KeepsLocks,
}
use network_file_system.StorageServer.Service.{client_effect, nm_effect, IsUsable, Does}
use network_file_system.StorageServer.Sequence.{
  Request, from_client, from_nm, serve_all, effect, effects, serve-Does, served-effect,
  requests_served,
}
use network_file_system.StorageServer.Contents.{contents}
use network_file_system.StorageServer.Copied.{AnsweredByDest, copied_bytes, copy_then_read}

abbrev pub idle_server : StorageServer counting one_file
idle_server = record { locks = empty; files = some some_bytes }

lawful : IsLawful counting one_file
lawful = record { read_unlock = read_undone; write_unlock = write_undone }

pub usable : IsUsable counting one_file
usable = record { lawful = lawful; takable = takable }

abbrev pub reads_a : Message
reads_a = record zero_message { operation = read_file; path = path_a }

abbrev writes_a : Message
writes_a = record zero_message {
  operation = write_file;
  path = path_a;
  content = 7 ∷ 8 ∷ [];
  data_size = 2;
}

abbrev copies_a : Message
copies_a = record zero_message { operation = copy_file; path = path_a; path2 = path_a }

requests-KeepsLocks_example :
    KeepsLocks counting one_file
      (IsOverlong counting one_file reads_a)
      idle_server
      (handle_client_connection counting one_file true reads_a idle_server)
    × KeepsLocks counting one_file
        (IsOverlong counting one_file reads_a)
        idle_server
        (handle_nm_connection counting one_file true working reads_a idle_server)
requests-KeepsLocks_example =
    requests-KeepsLocks counting one_file true working reads_a idle_server lawful

abbrev two_requests : List Request
two_requests = from_client writes_a ∷ from_nm working copies_a ∷ []

requests_served_example :
    Does counting one_file
      (effects counting one_file two_requests idle_server.files)
      (serve_all counting one_file two_requests idle_server)
    × (length (effects counting one_file two_requests idle_server.files).0 ≡ 2)
requests_served_example =
    requests_served counting one_file two_requests idle_server usable (omega arith, (tt, tt))
      empty-AllFree

writes_a-acked : (effect counting one_file (from_client writes_a) idle_server.files).0 ≡ acked
unfolding client_effect write_body ss_write write_opened
writes_a-acked = refl

abbrev copied_server : StorageServer counting one_file
copied_server = record {
  locks =
      (serve-Does counting one_file (from_nm working copies_a) idle_server usable tt
        empty-AllFree).0;
  files = some some_bytes;
}

copy_served :
    handle_nm_connection counting one_file true working copies_a idle_server
    ≡ ran acked copied_server
unfolding nm_effect forward_copy copy_reply copy_body ss_read read_opened exchange create_socket
    connect_to_server send_message receive_message
copy_served =
    (serve-Does counting one_file (from_nm working copies_a) idle_server usable tt empty-AllFree).1

abbrev bytes_copied : List ℕ
bytes_copied = copied_bytes counting one_file counting one_file copies_a idle_server.files

abbrev copy_written : Message
copy_written = write_request counting one_file copies_a bytes_copied

copy_acked : (effect counting one_file (from_client copy_written) idle_server.files).0 ≡ acked
unfolding client_effect write_body ss_write write_opened copy_body ss_read read_opened
copy_acked = refl

copy_within : length bytes_copied ≤ max_data_size
unfolding copy_body ss_read read_opened
copy_within = omega arith

copy_link :
    AnsweredByDest counting one_file counting one_file working copies_a bytes_copied idle_server
unfolding exchange create_socket connect_to_server send_message receive_message
copy_link r to' e =
    let (same_reply, _, _) =
      served-effect counting one_file (from_client copy_written) r idle_server to' usable
        copy_within empty-AllFree e in
    ap answered (sym copy_acked ∙ same_reply)

copy_then_read_example :
    (b : List ℕ) × (idle_server.files ≡ some b)
    × ((s' : StorageServer counting one_file) × (serve_all counting one_file
            (from_client copy_written ∷ from_client reads_a ∷ [])
            idle_server
          ≡ ran (acked ∷ contents counting one_file (take (max_data_size - 1) b) ∷ []) s'))
copy_then_read_example =
    copy_then_read counting one_file counting one_file working copies_a reads_a idle_server
      copied_server idle_server usable empty-AllFree usable empty-AllFree one_file-Keeps refl refl
      refl copy_link copy_served
