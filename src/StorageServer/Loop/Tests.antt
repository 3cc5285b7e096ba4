-- ===== src/StorageServer/Loop/Tests.antt =====
-- A storage server that has made one thread for a client, and the theorems there.
use network_file_system.Base.{◌≡◌, refl, true, false, none, some, [], ◌∷◌, here}
use network_file_system.Connections.{
  pos, Arrival, called, handling, Process, at_rest, accept_round, next_round, load_block,
  free_block, turns, begins, started, later, Reachable,
}
use network_file_system.Connections.Ledger.{IsLedger, ArgumentsLive}
use network_file_system.StorageServer.Loop.{
  Handler, client_handler, Activity, select_round, program, connections_accounted,
}

abbrev no_arrival : Arrival
no_arrival = record { malloc = none; accept = none; pthread_create = pos 0 }

abbrev client_arrival : Arrival
client_arrival = record { malloc = some 100; accept = some 7; pthread_create = pos 0 }

abbrev client_only : Activity
client_only = record {
  nm_ready = false;
  client_ready = true;
  nm_arrival = no_arrival;
  client_arrival = client_arrival;
}

abbrev one_called : Process Handler
one_called = record {
  connections = 7 ∷ [];
  blocks = record { address = 100; descriptor = 7 } ∷ [];
  threads = called client_handler 100 ∷ [];
}

client_round : select_round client_only at_rest ≡ some one_called
unfolding select_round accept_round next_round
client_round = refl

-- A failure in the naming server's part leaves clients for the next round.
both_ready : select_round (record client_only { nm_ready = true }) at_rest ≡ some at_rest
unfolding select_round accept_round next_round
both_ready = refl

abbrev one_running : Process Handler
one_running = record { connections = 7 ∷ []; blocks = []; threads = handling client_handler 7 ∷ [] }

one_running-Reachable : Reachable program one_running
unfolding load_block free_block
one_running-Reachable =
    later (later started (turns client_only client_round)) (begins client_handler 100 7 here refl)

connections_accounted_example : IsLedger one_running × ArgumentsLive one_running
connections_accounted_example = connections_accounted one_running one_running-Reachable
