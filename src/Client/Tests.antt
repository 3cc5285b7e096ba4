-- ===== src/Client/Tests.antt =====
-- Clients of a naming server with two files and of a storage server with one, and the theorems there.
use network_file_system.Base.{ℕ, ◌≡◌, refl, ap, sym, ◌∙◌, true, some, List, [], ◌∷◌, arith}
use network_file_system.Common.{Message, acked}
use network_file_system.Sockets.{
  System, recv_got, answered, exchange, reaches, create_socket, connect_to_server, send_message,
  receive_message,
}
use network_file_system.FileLocks.Tests.{counting, path_a, empty-AllFree}
use network_file_system.FileLocks.Settled.{AllFree}
use network_file_system.FileOperations.{ss_write, write_opened}
use network_file_system.FileOperations.Tests.{one_file, one_file-Keeps}
use network_file_system.StorageServer.{
  StorageServer, Run, ran, waits, faults, write_body, handle_client_connection,
}
use network_file_system.StorageServer.Service.{client_effect, IsWithin}
use network_file_system.StorageServer.Sequence.{from_client, effect, serve-Does}
use network_file_system.StorageServer.Contents.{contents, contents_read}
use network_file_system.StorageServer.Tests.{idle_server, usable}
use network_file_system.Trie.{create_trie_node, trie_insert, trie_search}
use network_file_system.LruCache.Tests.{info_one, two_cells, two_slots}
use network_file_system.NamingServer.{dispatch, handle_connection, handle_locate, directed}
use network_file_system.NamingServer.State.{NamingServer, served, start, server}
use network_file_system.NamingServer.Location.{route_answer, located}
use network_file_system.NamingServer.EndToEnd.{response}
use network_file_system.NamingServer.Tests.{working, fine, two_files, ready}
use network_file_system.Client.{shown, wrote, text, run, request}
use network_file_system.Client.Commands.{
  read, write, create, words, message_of, parse_line, parse-words,
}
use network_file_system.Client.EndToEnd.{AnsweredBySs, Directs, written_shown}

parse-words_example :
    parse_line (words (create path_a true)) ≡ request (message_of (create path_a true))
parse-words_example = parse-words (create path_a true) (omega arith)

-- Connections on which the naming server and the storage server answer.
abbrev to_nm : System
to_nm = record working { recv = λ ip port m. recv_got (directed info_one) }

abbrev replies : Message → System
replies r = record working { recv = λ ip port m. recv_got r }

abbrev any_port : List ℕ → ℕ
any_port digits = 5000

abbrev reads_a : Message
reads_a = message_of (read path_a)

abbrev writes_a : Message
writes_a = message_of (write path_a (7 ∷ 8 ∷ []) true)

reached : reaches to_nm [] 5000 ≡ true
unfolding reaches create_socket connect_to_server
reached = refl

routed : trie_search two_files.path_trie_root path_a ≡ some 0
unfolding trie_search trie_insert create_trie_node start
routed = refl

-- What the naming server answers to a request that it looks up.
located_answer :
    (m r : Message) (s' : NamingServer)
    → m.path ≡ path_a
    → handle_locate fine m two_files ≡ served r s'
    → directed info_one ≡ r
unfolding start
located_answer m r s' same_path e =
    let (_, _, f, _, _) = located fine m two_cells two_slots two_files ready in
    let told : route_answer two_files (trie_search two_files.path_trie_root m.path)
        ≡ directed info_one =
      rw (same_path, routed) refl in
    sym told ∙ ap (λ o. response o acked) (sym f ∙ e)

to_nm_answers : (m r : Message) → directed info_one ≡ r → exchange to_nm [] 5000 m ≡ answered r
unfolding exchange create_socket connect_to_server send_message receive_message
to_nm_answers m r e = ap answered e

nm_for_read : Directs counting one_file to_nm [] 5000 reads_a 0 two_files
unfolding handle_connection dispatch
nm_for_read = record {
  out = fine;
  cells = two_cells;
  slots = two_slots;
  reached = reached;
  ready = ready;
  route = routed;
  answers = λ r s' e. to_nm_answers reads_a r (located_answer reads_a r s' refl e);
}

nm_for_write : Directs counting one_file to_nm [] 5000 writes_a 0 two_files
unfolding handle_connection dispatch
nm_for_write = record {
  out = fine;
  cells = two_cells;
  slots = two_slots;
  reached = reached;
  ready = ready;
  route = routed;
  answers = λ r s' e. to_nm_answers writes_a r (located_answer writes_a r s' refl e);
}

abbrev OneFile : Type 0
OneFile = StorageServer counting one_file

abbrev reply : Run counting one_file Message → Message
reply (ran m s) = m
reply (waits s) = acked
reply faults = acked

to_ss_answers : (m q r : Message) → q ≡ r → exchange (replies q) (49 ∷ []) 9001 m ≡ answered r
unfolding exchange create_socket connect_to_server send_message receive_message
to_ss_answers m q r e = ap answered e

-- A storage server without locks gives the request's effect on the files.
effect_answer :
    (m q r : Message) (t t' : OneFile)
    → IsWithin m.operation m
    → AllFree counting t.locks
    → (effect counting one_file (from_client m) t.files).0 ≡ q
    → handle_client_connection counting one_file true m t ≡ ran r t'
    → q ≡ r
effect_answer m q r t t' w free e f =
    let (_, g, _) = serve-Does counting one_file (from_client m) t usable w free in
    sym e ∙ ap reply (sym g ∙ f)

writes_acked : (effect counting one_file (from_client writes_a) idle_server.files).0 ≡ acked
unfolding client_effect write_body ss_write write_opened
writes_acked = refl

write_answers :
    AnsweredBySs counting one_file (replies acked) (server two_files 0) idle_server writes_a
unfolding start
write_answers r t' e =
    to_ss_answers writes_a acked r
      (effect_answer writes_a acked r idle_server t' (omega arith) empty-AllFree writes_acked e)

abbrev written_server : OneFile
written_server = record {
  locks =
      (serve-Does counting one_file (from_client writes_a) idle_server usable (omega arith)
        empty-AllFree).0;
  files = some (7 ∷ 8 ∷ []);
}

write_served :
    handle_client_connection counting one_file true writes_a idle_server ≡ ran acked written_server
unfolding client_effect write_body ss_write write_opened
write_served =
    (serve-Does counting one_file (from_client writes_a) idle_server usable (omega arith)
      empty-AllFree).1

read_back_answers :
    AnsweredBySs counting one_file
      (replies (contents counting one_file (7 ∷ 8 ∷ [])))
      (server two_files 0)
      written_server
      reads_a
unfolding start
read_back_answers r t'' f =
    let q = contents counting one_file (7 ∷ 8 ∷ []) in
    let free =
      (serve-Does counting one_file (from_client writes_a) idle_server usable (omega arith)
        empty-AllFree).2 in
    to_ss_answers reads_a q r (
      effect_answer reads_a q r written_server t'' tt free
        (contents_read counting one_file reads_a written_server.files (7 ∷ 8 ∷ []) refl refl) f)

no_zero_byte : text (7 ∷ 8 ∷ []) ≡ 7 ∷ 8 ∷ []
unfolding text
no_zero_byte = refl

written_shown_example :
    (run any_port to_nm (replies acked) ([] ∷ [] ∷ words (write path_a (7 ∷ 8 ∷ []) true)) ≡ wrote)
    × (run any_port to_nm
          (replies (contents counting one_file (7 ∷ 8 ∷ [])))
          ([] ∷ [] ∷ words (read path_a))
        ≡ shown (7 ∷ 8 ∷ []))
written_shown_example =
    written_shown counting one_file any_port to_nm (replies acked) to_nm
      (replies (contents counting one_file (7 ∷ 8 ∷ []))) [] [] path_a (7 ∷ 8 ∷ []) true 0 0
      two_files two_files idle_server written_server (omega arith, omega arith) no_zero_byte
      nm_for_write nm_for_read usable empty-AllFree one_file-Keeps write_answers write_served
      read_back_answers
