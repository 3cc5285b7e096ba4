-- ===== src/Client/Everywhere/Tests.antt =====
-- A client that deletes a file and creates another, through a naming server with two files and a
-- storage server with one.
use network_file_system.Base.{
  ℕ, ◌≡◌, ◌≢◌, ◌⊎◌, inl, inr, refl, ap, sym, ◌∙◌, true, false, some, none, List, [], ◌∷◌, arith,
}
use network_file_system.Common.{Message, acked, nacked, success}
use network_file_system.Sockets.{
  answered, exchange, reaches, create_socket, connect_to_server, send_message, receive_message,
}
use network_file_system.FileLocks.Tests.{counting, path_a, empty-AllFree}
use network_file_system.FileOperations.{ss_delete, ss_create}
use network_file_system.FileOperations.Effects.{Removed, Made}
use network_file_system.FileOperations.Tests.{one_file}
use network_file_system.StorageServer.{
  StorageServer, coded, Run, ran, waits, faults, create_body, delete_body,
}
use network_file_system.StorageServer.Service.{nm_effect}
use network_file_system.StorageServer.Sequence.{from_nm, effect, serve-Does}
use network_file_system.StorageServer.Tests.{idle_server, usable}
use network_file_system.Trie.{create_trie_node, trie_insert, trie_search}
use network_file_system.LruCache.Tests.{path_c, two_cells, two_slots}
use network_file_system.NamingServer.{handle_connection}
use network_file_system.NamingServer.State.{
  NamingServer, served, start, server, contact, get_available_ss_for_creation,
}
use network_file_system.NamingServer.EndToEnd.{response}
use network_file_system.NamingServer.Tests.{
  working, fine, two_files, two_files-IsRegistry, removable,
}
use network_file_system.Client.{acknowledged, nm_refused, run}
use network_file_system.Client.Commands.{delete, create, words, message_of}
use network_file_system.Client.EndToEnd.{AnsweredByNm}
use network_file_system.Client.Changes.{AnsweredByHolder, Handles, delete_answer, create_answer}
use network_file_system.Client.Everywhere.{Answers, deleted_everywhere, created_everywhere}

abbrev deletes_a : Message
deletes_a = message_of (delete path_a)

abbrev creates_c : Message
creates_c = message_of (create path_c false)

abbrev any_port : List ℕ → ℕ
any_port digits = 5000

reached : reaches working [] 5000 ≡ true
unfolding reaches create_socket connect_to_server
reached = refl

holder_acks :
    (m : Message) (i : ℕ) (s : NamingServer) → contact fine (server s i) m ≡ answered acked
unfolding contact exchange create_socket connect_to_server send_message receive_message
holder_acks m i s = refl

nm_acks : (m : Message) → exchange working [] 5000 m ≡ answered acked
unfolding exchange create_socket connect_to_server send_message receive_message
nm_acks m = refl

abbrev reply : Run counting one_file Message → Message
reply (ran m s) = m
reply (waits s) = acked
reply faults = acked

deleted_acked : (effect counting one_file (from_nm working deletes_a) idle_server.files).0 ≡ acked
unfolding nm_effect delete_body ss_delete
deleted_acked = refl

created_acked : (effect counting one_file (from_nm working creates_c) idle_server.files).0 ≡ acked
unfolding nm_effect create_body ss_create
created_acked = refl

-- The storage server's handler gives the request's effect.
holder_answers :
    (m : Message) (i : ℕ) (s : NamingServer)
    → (effect counting one_file (from_nm working m) idle_server.files).0 ≡ acked
    → AnsweredByHolder counting one_file fine working s i idle_server m
holder_answers m i s e r t' f =
    let (_, g, _) =
      serve-Does counting one_file (from_nm working m) idle_server usable tt empty-AllFree in
    holder_acks m i s ∙ ap answered (sym e ∙ ap reply (sym g ∙ f))

a_routed : trie_search two_files.path_trie_root path_a ≡ some 0
unfolding trie_search trie_insert create_trie_node start
a_routed = refl

c_new : trie_search two_files.path_trie_root path_c ≡ none
unfolding trie_search trie_insert create_trie_node start
c_new = refl

abbrev turned : NamingServer
turned = (get_available_ss_for_creation two_files).1

c_at_zero : get_available_ss_for_creation two_files ≡ (some 0, turned)
unfolding get_available_ss_for_creation
c_at_zero = refl

-- The naming server answers both with an acknowledgement.
told_by :
    (m : Message) (s' : NamingServer)
    → handle_connection fine (some m) two_files ≡ served acked s'
    → AnsweredByNm working [] 5000 fine two_files m
told_by m s' e r s'' f = nm_acks m ∙ ap answered (ap (λ o. response o acked) (sym e ∙ f))

delete_told : AnsweredByNm working [] 5000 fine two_files deletes_a
delete_told =
    elim (delete_answer path_a fine two_cells two_slots 0 0 two_files removable a_routed
      (holder_acks deletes_a 0 two_files)) [
        | inl (_, (s', e, _)) ↦ told_by deletes_a s' e
        | inr (failed, _) ↦ absurd (failed refl)
      ]

create_told : AnsweredByNm working [] 5000 fine two_files creates_c
create_told =
    elim (create_answer path_c false fine 0 0 two_files turned two_files-IsRegistry c_new c_at_zero
      (holder_acks creates_c 0 turned)) [
        | inl (_, (s', e, _)) ↦ told_by creates_c s' e
        | inr (failed, _) ↦ absurd (failed refl)
      ]

deleted_everywhere_example :
    ((run any_port working working ([] ∷ [] ∷ words (delete path_a)) ≡ acknowledged)
      × ((t' : StorageServer counting one_file) × Handles counting one_file working deletes_a
            idle_server
            (coded success)
            t'
          × Removed one_file path_a idle_server.files t'.files)
      × ((s' : NamingServer) × Answers fine two_files deletes_a acked s'
          × (trie_search s'.path_trie_root path_a ≡ none)))
    ⊎ ((code : ℕ) × (code ≢ success)
        × (run any_port working working ([] ∷ [] ∷ words (delete path_a)) ≡ nm_refused code)
        × ((t' : StorageServer counting one_file) × Handles counting one_file working deletes_a
              idle_server
              (coded code)
              t'
            × (t'.files ≡ idle_server.files))
        × Answers fine two_files deletes_a (nacked code) two_files)
deleted_everywhere_example =
    deleted_everywhere counting one_file any_port working working working [] [] path_a fine 0
      two_files idle_server two_cells two_slots (omega arith) reached delete_told
      (holder_answers deletes_a 0 two_files deleted_acked) usable empty-AllFree removable a_routed

created_everywhere_example :
    ((run any_port working working ([] ∷ [] ∷ words (create path_c false)) ≡ acknowledged)
      × ((t' : StorageServer counting one_file) × Handles counting one_file working creates_c
            idle_server
            (coded success)
            t'
          × Made one_file path_c false idle_server.files t'.files)
      × ((s' : NamingServer) × Answers fine two_files creates_c acked s'
          × (trie_search s'.path_trie_root path_c ≡ some 0)))
    ⊎ ((code : ℕ) × (code ≢ success)
        × (run any_port working working ([] ∷ [] ∷ words (create path_c false)) ≡ nm_refused code)
        × ((t' : StorageServer counting one_file) × Handles counting one_file working creates_c
              idle_server
              (coded code)
              t'
            × (t'.files ≡ idle_server.files))
        × Answers fine two_files creates_c (nacked code) turned)
created_everywhere_example =
    created_everywhere counting one_file any_port working working working [] [] path_c fine 0
      two_files idle_server false turned (omega arith) reached create_told
      (holder_answers creates_c 0 turned created_acked) usable empty-AllFree two_files-IsRegistry
      c_new c_at_zero
