-- ===== src/StorageServer/Contents.antt =====
-- storage_server.c: what a client reads after a write, and what a copy holds.
use mathlib.Core.Option.{map, some-injective}
use network_file_system.Base.{
  ℕ, subst, All, Option, none, ◌-◌, ◌≤◌, ◌≡◌, ◌≢◌, refl, true, false, List, [], ◌∷◌, ap, some, ◌∙◌,
  sym, length, take, inl, inr, Bool-cases, ◌==◌, ==_iff,
}
use network_file_system.Common.{
  Message, write_file, read_file, acked, nacked, success, max_data_size, is_ack, is_success,
}
use network_file_system.Sockets.{System, answered, exchange}
use network_file_system.FileLocks.{RwLocks}
use network_file_system.FileLocks.Settled.{AllFree}
use network_file_system.FileOperations.{FileSystem, ss_write}
use network_file_system.FileOperations.Effects.{Keeps, write-read, read_there}
use network_file_system.StorageServer.{
  StorageServer, ran, coded, write_body, read_body, write_request, forward_copy, copy_reply,
}
use network_file_system.StorageServer.Service.{
  client_effect, IsUsable, IsWithin, coded_write, write_body-within,
}
use network_file_system.StorageServer.Sequence.{
  IsServable, from_client, serve_all, effect, effects, requests_served,
}

module _ (P : RwLocks) (F : FileSystem) where
  -- The response that carries the bytes of a file.
  abbrev pub contents : List ℕ → Message
  contents bytes = record acked { content = bytes; data_size = length bytes }

  success_code : (o : Option ℕ) → map coded o ≡ some acked → o ≡ some success
  success_code none e = cc
  success_code (some code) e =
      ap some (ap (λ (m : Message). m.error_code) (some-injective (coded code) acked e))

  -- What a read gives after a write that succeeded, on the files alone.
  write-read_bodies :
      (w r : Message) (fs : F.Files)
      → Keeps F w.path
      → r.path ≡ w.path
      → w.data_size ≤ length w.content
      → w.data_size ≤ max_data_size
      → (write_body P F w fs).0 ≡ some acked
      → (read_body P F r (write_body P F w fs).1).0
        ≡ contents (take (max_data_size - 1) (take w.data_size w.content))
  unfolding write_body read_body
  write-read_bodies w r fs keeps one fits within done =
      let code = success_code (ss_write F w.path w.content w.data_size fs).0 done in
      rw (one, write-read F w.path w.content w.data_size fs keeps fits within code) refl

  write_effect :
      (w : Message) (fs : F.Files)
      → w.operation ≡ write_file
      → effect P F (from_client w) fs ≡ coded_write P F (write_body P F w fs)
  unfolding client_effect
  write_effect w fs e = ap (λ o. client_effect P F o w fs) e

  read_effect :
      (r : Message) (fs : F.Files)
      → r.operation ≡ read_file
      → effect P F (from_client r) fs ≡ read_body P F r fs
  unfolding client_effect
  read_effect r fs e = ap (λ o. client_effect P F o r fs) e

  coded_write-coded :
      (x : Option ℕ × F.Files)
      → (code : ℕ) × ((coded_write P F (map coded x.0, x.1)).0 ≡ coded code)
  coded_write-coded (none, fs) = (_, refl)
  coded_write-coded (some code, fs) = (code, refl)

  pub write_success :
      (w : Message) (fs : F.Files)
      → w.operation ≡ write_file
      → is_success (effect P F (from_client w) fs).0 ≡ true
      → (effect P F (from_client w) fs).0 ≡ acked
  unfolding write_body
  write_success w fs e done =
      let r = ap (λ (x : Message × F.Files). x.0) (write_effect w fs e) in
      let (code, c) = coded_write-coded (ss_write F w.path w.content w.data_size fs) in
      let r' = r ∙ c in r' ∙ ap coded ((==_iff code success).0 (sym (ap is_success r') ∙ done))

  -- The same by the requests.
  pub write-read_effects :
      (w r : Message) (fs : F.Files)
      → Keeps F w.path
      → w.operation ≡ write_file
      → r.operation ≡ read_file
      → r.path ≡ w.path
      → w.data_size ≤ length w.content
      → w.data_size ≤ max_data_size
      → (effect P F (from_client w) fs).0 ≡ acked
      → (effect P F (from_client r) (effect P F (from_client w) fs).1).0
        ≡ contents (take (max_data_size - 1) (take w.data_size w.content))
  write-read_effects w r fs keeps is_write is_read one fits within done =
      let wrote = write_effect w fs is_write in
      let body = write_body-within P F w fs within in
      let first = ap (λ (x : Message × F.Files). x.0) wrote in
      let acked_write = ap (λ x. x.0) body ∙ ap some (sym first ∙ done) in
      ap (λ x. x.0) (read_effect r (effect P F (from_client w) fs).1 is_read)
      ∙ ap (λ (x : Message × F.Files). (read_body P F r x.1).0) wrote
      ∙ ap (λ (x : Option Message × F.Files). (read_body P F r x.1).0) (sym body)
      ∙ write-read_bodies w r fs keeps one fits within acked_write

  -- A read of a file that is there.
  pub contents_read :
      (r : Message) (fs : F.Files) (b : List ℕ)
      → r.operation ≡ read_file
      → F.bytes_of r.path fs ≡ some b
      → (effect P F (from_client r) fs).0 ≡ contents (take (max_data_size - 1) b)
  unfolding read_body
  contents_read r fs b e there =
      ap (λ x. x.0) (read_effect r fs e) ∙ rw (read_there F r.path fs b there) refl

  -- On a server with no path locked and memory for a lock, a client's WRITE_FILE that is answered with success is followed
  -- by a READ_FILE of the same path that is answered with the first 8191 of the bytes written, where
  -- a file keeps what is written to it and the message holds as many bytes as it says, at most 8192.
  pub write_then_read :
      (w r : Message) (s : StorageServer P F)
      → IsUsable P F
      → AllFree P s.locks
      → Keeps F w.path
      → w.operation ≡ write_file
      → r.operation ≡ read_file
      → r.path ≡ w.path
      → w.data_size ≤ length w.content
      → w.data_size ≤ max_data_size
      → (effect P F (from_client w) s.files).0 ≡ acked
      → (s' : StorageServer P F) × (serve_all P F (from_client w ∷ from_client r ∷ []) s
          ≡ ran (acked ∷ contents (take (max_data_size - 1) (take w.data_size w.content)) ∷ []) s')
  unfolding effects
  write_then_read w r s usable free keeps is_write is_read one fits within done =
      let requests = from_client w ∷ from_client r ∷ [] in
      let servable : All IsServable requests = (
        subst (λ o. IsWithin o w) (sym is_write) within,
        (subst (λ o. IsWithin o r) (sym is_read) tt, tt),
      ) in
      let ((t, e, _), _) = requests_served P F requests s usable servable free in
      let read = write-read_effects w r s.files keeps is_write is_read one fits within done in
      let next : StorageServer P F = record {
        locks = t;
        files = (effects P F requests s.files).1;
      } in
      (next, e ∙ (λ i. ran (done i ∷ read i ∷ []) next))

  nack_is_no_ack : (code : ℕ) → nacked code ≢ acked
  nack_is_no_ack code e =
      let clash : false ≡ true = ap (λ (m : Message). is_ack m.operation) e in absurd (cc)

  -- The source of a copy is there, and the destination's server has answered with success.
  pub copy_source :
      (sys : System) (msg : Message) (o : ℕ × List ℕ)
      → forward_copy P F sys msg o ≡ acked
      → (o.0 ≡ success)
        × (copy_reply P F
              (exchange sys msg.dest_ss_ip msg.dest_ss_client_port (write_request P F msg o.1))
            ≡ acked)
  unfolding forward_copy
  copy_source sys msg (code, bytes) e = elim (Bool-cases (code == success)) [
    | inl done ↦ ((==_iff code success).0 done, rw done at e)
    | inr refusal ↦ absurd (nack_is_no_ack code (rw refusal at e))
  ]

  pub answered_acked : (r : Message) → copy_reply P F (answered r) ≡ acked → is_success r ≡ true
  unfolding copy_reply
  answered_acked r e = elim (Bool-cases (is_success r)) [
    | inl done ↦ done
    | inr refusal ↦ absurd (nack_is_no_ack r.error_code (rw refusal at e))
  ]
