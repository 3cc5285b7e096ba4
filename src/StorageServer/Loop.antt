-- ===== src/StorageServer/Loop.antt =====
-- storage_server.c: the loop of `main` around `select`, and the threads that it makes for the two
-- handlers.
mod Tests
use network_file_system.Base.{◌≡◌, Bool, true, false, Option, none, some}
use network_file_system.Connections.{
  Arrival, Process, Round, goes_on, continues, undefined, accept_round, next_round, Program,
  Reachable,
}
use network_file_system.Connections.Ledger.{
  IsLedger, KeepsLedger, accept_round-KeepsLedger, next_round-IsLedger, Reachable-IsLedger,
  ArgumentsLive, IsLedger-ArgumentsLive,
}

-- The function that a thread runs.
pub data Handler : Type 0 where
  nm_handler client_handler : Handler

-- What `FD_ISSET` tells of the two listening sockets after `select`, and what each part of the round
-- gets.
pub record Activity : Type 0 where
  pub nm_ready : Bool
  pub client_ready : Bool
  pub nm_arrival : Arrival
  pub client_arrival : Arrival

accept_if_ready : Handler → Bool → Arrival → Process Handler → Round Handler
accept_if_ready h true arrival p = accept_round h arrival p
accept_if_ready h false arrival p = goes_on p

-- A `continue` for the naming server's socket leaves out the part for clients.
accept_clients : Activity → Round Handler → Round Handler
unfolding accept_if_ready
accept_clients activity (goes_on p) =
    accept_if_ready client_handler activity.client_ready activity.client_arrival p
accept_clients activity (continues p) = continues p
accept_clients activity undefined = undefined

-- A round of `while (1)`.
pub select_round : Activity → Process Handler → Option (Process Handler)
unfolding accept_clients
select_round activity p =
    next_round
      (accept_clients activity (accept_if_ready nm_handler activity.nm_ready activity.nm_arrival p))

abbrev pub program : Program
program = record { Handler = Handler; Turn = Activity; turn = select_round }

accept_if_ready-KeepsLedger :
    (h : Handler) (ready : Bool) (arrival : Arrival) (p : Process Handler)
    → IsLedger p
    → KeepsLedger (accept_if_ready h ready arrival p)
unfolding accept_if_ready
accept_if_ready-KeepsLedger h true arrival p v = accept_round-KeepsLedger h arrival p v
accept_if_ready-KeepsLedger h false arrival p v = v

accept_clients-KeepsLedger :
    (activity : Activity) (r : Round Handler)
    → KeepsLedger r
    → KeepsLedger (accept_clients activity r)
unfolding accept_clients
accept_clients-KeepsLedger activity (goes_on p) v =
    accept_if_ready-KeepsLedger client_handler activity.client_ready activity.client_arrival p v
accept_clients-KeepsLedger activity (continues p) v = v
accept_clients-KeepsLedger activity undefined v = v

select_round-IsLedger :
    (activity : Activity) (p p' : Process Handler)
    → select_round activity p ≡ some p'
    → IsLedger p
    → IsLedger p'
unfolding select_round
select_round-IsLedger activity p p' e v = next_round-IsLedger _ p' e (
    accept_clients-KeepsLedger activity _
      (accept_if_ready-KeepsLedger nm_handler activity.nm_ready activity.nm_arrival p v))

-- However the loop of a storage server and its threads take turns, every accepted connection that is
-- open is the descriptor of a running handler or stands in a block of memory, every such block is
-- the argument of a handler that has not begun, and no handler reads its argument from freed memory.
-- A round in which `pthread_create` gives a positive code has no next one here.
pub connections_accounted :
    (p : Process Handler) → Reachable program p → IsLedger p × ArgumentsLive p
connections_accounted p r =
    let v = Reachable-IsLedger program p select_round-IsLedger r in (v, IsLedger-ArgumentsLive p v)
