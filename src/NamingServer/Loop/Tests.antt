-- ===== src/NamingServer/Loop/Tests.antt =====
-- The naming server's loop after one connection, and the theorems there.
use network_file_system.Base.{◌≡◌, refl, none, some, [], ◌∷◌}
use network_file_system.Connections.{
  pos, Arrival, Process, at_rest, called, accept_round, next_round, turns, started, later,
  Reachable,
}
use network_file_system.Connections.Ledger.{IsLedger, ArgumentsLive}
use network_file_system.NamingServer.Loop.{
  Handler, connection_handler, accept_turn, program, all_accounted,
}

abbrev one_arrival : Arrival
one_arrival = record { malloc = some 100; accept = some 7; pthread_create = pos 0 }

abbrev one_thread : Process Handler
one_thread = record {
  connections = 7 ∷ [];
  blocks = record { address = 100; descriptor = 7 } ∷ [];
  threads = called connection_handler 100 ∷ [];
}

one_turn : accept_turn one_arrival at_rest ≡ some one_thread
unfolding accept_turn accept_round next_round
one_turn = refl

-- EAGAIN is 11, and `pthread_create` gives it as it is.
no_turn : accept_turn (record one_arrival { pthread_create = pos 11 }) at_rest ≡ none
unfolding accept_turn accept_round next_round
no_turn = refl

one_thread-Reachable : Reachable program one_thread
one_thread-Reachable = later started (turns one_arrival one_turn)

all_accounted_example : IsLedger one_thread × ArgumentsLive one_thread
all_accounted_example = all_accounted one_thread one_thread-Reachable
