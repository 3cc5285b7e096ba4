-- ===== src/StorageServer/Copied.antt =====
-- storage_server.c: COPY_FILE on the source's server, WRITE_FILE and READ_FILE on the destination's.
use network_file_system.Base.{
  true, ℕ, ◌-◌, ◌≤◌, ◌≡◌, refl, List, [], ◌∷◌, ap, ◌∙◌, sym, some, arith, length, length-take, take,
  take_all,
}
use network_file_system.Common.{Message, read_file, copy_file, acked, max_data_size}
use network_file_system.Sockets.{System, answered, exchange}
use network_file_system.FileLocks.{RwLocks}
use network_file_system.FileLocks.Settled.{AllFree}
use network_file_system.FileOperations.{FileSystem}
use network_file_system.FileOperations.Effects.{Keeps, read_found}
use network_file_system.StorageServer.{
  StorageServer, ran, write_request, forward_copy, copy_body, copy_reply, handle_client_connection,
  handle_nm_connection,
}
use network_file_system.StorageServer.Service.{nm_effect, IsUsable}
use network_file_system.StorageServer.Sequence.{
  from_client, from_nm, serve_all, serve-Does, served-effect, effect,
}
use network_file_system.StorageServer.Contents.{
  contents, write_success, copy_source, answered_acked, write_then_read,
}

-- The source's server with its files, and the destination's.
module _ (P : RwLocks) (F : FileSystem) (Q : RwLocks) (G : FileSystem) where
  take_again :
      (b : List ℕ)
      → let c = take (max_data_size - 1) b in take (max_data_size - 1) (take (length c) c) ≡ c
  take_again b =
      let c = take (max_data_size - 1) b in
      let short : length c ≤ max_data_size - 1 =
        ground (arith, length-take (max_data_size - 1) b) in
      ap (take (max_data_size - 1)) (take_all (length c) c (omega arith))
      ∙ take_all (max_data_size - 1) c short

  -- The bytes that the source's server reads.
  abbrev pub copied_bytes : Message → F.Files → List ℕ
  copied_bytes msg fs = (copy_body P F msg fs).0.1

  copy_effect :
      (sys : System) (msg : Message) (fs : F.Files)
      → msg.operation ≡ copy_file
      → (effect P F (from_nm sys msg) fs).0 ≡ forward_copy P F sys msg (copy_body P F msg fs).0
  unfolding nm_effect
  copy_effect sys msg fs e = ap (λ o. (nm_effect P F o sys msg fs).0) e

  -- The destination's server answers the source's.
  abbrev pub AnsweredByDest : System → Message → List ℕ → StorageServer Q G → Type 0
  AnsweredByDest sys msg bytes to =
      let w = write_request P F msg bytes in
      (r : Message) (to' : StorageServer Q G)
      → handle_client_connection Q G true w to ≡ ran r to'
      → exchange sys msg.dest_ss_ip msg.dest_ss_client_port w ≡ answered r

  -- A COPY_FILE that the source's server answers with success, where the destination's server gets
  -- its WRITE_FILE and answers it, leaves the destination such that READ_FILE of the new path, right
  -- after that WRITE_FILE, is answered with the first 8191 bytes of the source: what is longer is
  -- cut. No path is locked on either server before, the locks can be used, there is memory for new
  -- ones, and a file of the destination keeps what is written to it.
  pub copy_then_read :
      (sys : System) (msg r : Message) (from from' : StorageServer P F) (to : StorageServer Q G)
      → IsUsable P F
      → AllFree P from.locks
      → IsUsable Q G
      → AllFree Q to.locks
      → Keeps G msg.path2
      → msg.operation ≡ copy_file
      → r.operation ≡ read_file
      → r.path ≡ msg.path2
      → AnsweredByDest sys msg (copied_bytes msg from.files) to
      → handle_nm_connection P F true sys msg from ≡ ran acked from'
      → (b : List ℕ) × (F.bytes_of msg.path from.files ≡ some b)
        × ((to' : StorageServer Q G) × (serve_all Q G
                (from_client (write_request P F msg (copied_bytes msg from.files))
                  ∷ from_client r
                  ∷ [])
                to
              ≡ ran (acked ∷ contents Q G (take (max_data_size - 1) b) ∷ []) to'))
  unfolding copy_body
  copy_then_read sys msg r from from' to u free u' free' keeps is_copy is_read one link done =
      let w = write_request P F msg (copied_bytes msg from.files) in
      let (acked_copy, _, _) =
        served-effect P F (from_nm sys msg) acked from from' u tt free done in
      let (found, replied) =
        copy_source P F sys msg (copy_body P F msg from.files).0
          (sym (copy_effect sys msg from.files is_copy) ∙ acked_copy) in
      let (b, held, bytes) = read_found F msg.path from.files found in
      let within : length (copied_bytes msg from.files) ≤ max_data_size =
        rw bytes (omega (arith, length-take (max_data_size - 1) b)) in
      let (_, served_write, _) = serve-Does Q G (from_client w) to u' within free' in
      let answer = link _ _ served_write in
      let wrote =
        write_success Q G w to.files refl
          (answered_acked P F _ (sym (ap (copy_reply P F) answer) ∙ replied)) in
      let (to', e) =
        write_then_read Q G w r to u' free' keeps refl is_read one (omega arith) within wrote in
      let cut : take (max_data_size - 1) (take w.data_size w.content) ≡ take (max_data_size - 1) b =
        ap (λ (c : List ℕ). take (max_data_size - 1) (take (length c) c)) bytes ∙ take_again b in
      (b, held, (to', e ∙ (λ i. ran (acked ∷ contents Q G (cut i) ∷ []) to')))
