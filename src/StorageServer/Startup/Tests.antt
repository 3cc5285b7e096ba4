-- ===== src/StorageServer/Startup/Tests.antt =====
-- A storage server that registers one path with a naming server that has just started.
use network_file_system.Base.{
  ℕ, ◌+◌, ◌≡◌, refl, ap, sym, ◌∙◌, true, some, List, [], ◌∷◌, arith, if◌then◌else◌, take,
}
use network_file_system.Common.{FilePath, Message, acked, max_accessible_paths}
use network_file_system.Sockets.{
  answered, exchange, open_port, create_socket, bind_socket, listen_socket, connect_to_server,
  send_message, receive_message,
}
use network_file_system.Trie.{trie_search}
use network_file_system.NamingServer.{handle_register}
use network_file_system.NamingServer.State.{NamingServer, start, served}
use network_file_system.NamingServer.Shape.{IsRegistry}
use network_file_system.NamingServer.Requests.{registered}
use network_file_system.NamingServer.Reachable.{start-IsRegistry}
use network_file_system.NamingServer.EndToEnd.{response}
use network_file_system.NamingServer.Tests.{working, few_servers}
use network_file_system.StorageServer.Startup.{
  Lookup, Arguments, arguments_of, serving, Sockets, start_up,
}
use network_file_system.StorageServer.Startup.Registration.{
  mentioned, first_ten, started_registered,
}

abbrev own_lookup : Lookup
own_lookup = record {
  socket = some 4;
  connect = λ sock. true;
  getsockname = λ sock. some (49 ∷ []);
}

abbrev sockets : Sockets
sockets = record { registering = working; for_nm = working; for_clients = working }

abbrev any_port : List ℕ → ℕ
any_port digits = 5000

abbrev arguments : Arguments
arguments = record {
  nm_ip = 49 ∷ [];
  nm_port = 53 ∷ [];
  client_port = 54 ∷ [];
  nm_service_port = 55 ∷ [];
  paths = (97 ∷ []) ∷ [];
}

abbrev argv : List (List ℕ)
argv = (49 ∷ []) ∷ (53 ∷ []) ∷ (54 ∷ []) ∷ (55 ∷ []) ∷ (97 ∷ []) ∷ []

answer_arrives :
    (r : Message) (s' : NamingServer)
    → handle_register (first_ten any_port own_lookup arguments) start ≡ served r s'
    → exchange working (49 ∷ []) 5000 (first_ten any_port own_lookup arguments) ≡ answered r
unfolding exchange create_socket connect_to_server send_message receive_message
answer_arrives r s' e =
    let (t, f, _, _, _) =
      registered (first_ten any_port own_lookup arguments) start start-IsRegistry few_servers
        (omega arith) in
    ap (λ o. answered (response o acked)) (sym f ∙ e)

opens : open_port working 5000 ≡ true
unfolding open_port create_socket bind_socket listen_socket
opens = refl

started_registered_example :
    (start_up any_port own_lookup sockets argv ≡ serving)
    × ((s' : NamingServer) × (handle_register (first_ten any_port own_lookup arguments) start
          ≡ served acked s')
        × IsRegistry s'
        × (s'.num_registered_ss ≡ start.num_registered_ss + 1)
        × ((q : FilePath)
            → trie_search s'.path_trie_root q ≡ (
                if mentioned q (take max_accessible_paths ((97 ∷ []) ∷ []))
                then some start.num_registered_ss
                else trie_search start.path_trie_root q)))
unfolding arguments_of
started_registered_example =
    started_registered any_port own_lookup sockets argv arguments start refl (omega arith, tt)
      start-IsRegistry few_servers answer_arrives opens opens
