-- ===== src/NamingServer/Loop.antt =====
-- naming_server.c: the loop of `main` that accepts connections, and the threads that it makes for
-- `handle_connection`.
mod Tests
use network_file_system.Base.{◌≡◌, some, Option}
use network_file_system.Connections.{Arrival, Process, accept_round, next_round, Program, Reachable}
use network_file_system.Connections.Ledger.{
  IsLedger, accept_round-KeepsLedger, next_round-IsLedger, Reachable-IsLedger, ArgumentsLive,
  IsLedger-ArgumentsLive,
}

-- The function that a thread runs.
pub data Handler : Type 0 where
  connection_handler : Handler

-- A round of `while (1)`.
pub accept_turn : Arrival → Process Handler → Option (Process Handler)
accept_turn arrival p = next_round (accept_round connection_handler arrival p)

abbrev pub program : Program
program = record { Handler = Handler; Turn = Arrival; turn = accept_turn }

accept_turn-IsLedger :
    (arrival : Arrival) (p p' : Process Handler)
    → accept_turn arrival p ≡ some p'
    → IsLedger p
    → IsLedger p'
unfolding accept_turn
accept_turn-IsLedger arrival p p' e v =
    next_round-IsLedger _ p' e (accept_round-KeepsLedger connection_handler arrival p v)

-- However the loop of the naming server and its threads take turns, every accepted connection that is
-- open is the descriptor of a running handler or stands in a block of memory, every such block is
-- the argument of a handler that has not begun, and no handler reads its argument from freed memory.
-- A round in which `pthread_create` gives a positive code has no next one here.
pub all_accounted : (p : Process Handler) → Reachable program p → IsLedger p × ArgumentsLive p
all_accounted p r =
    let v = Reachable-IsLedger program p accept_turn-IsLedger r in (v, IsLedger-ArgumentsLive p v)
