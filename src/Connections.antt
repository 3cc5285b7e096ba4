-- ===== src/Connections.antt =====
-- The loops of naming_server.c and storage_server.c that accept connections, `accept_connection` of
-- utils.c, and how their handlers begin and end: which descriptors are open, which blocks of memory
-- hold one for a thread, and the threads themselves.
pub mod Ledger
use network_file_system.Base.{
  ℕ, zero, suc, Bool, true, false, Option, none, some, List, [], ◌∷◌, ◌==◌, if◌then◌else◌, ◌≡◌,
  Becomes, Ends,
}
use network_file_system.Common.{Message}
use network_file_system.Sockets.{
  close_one, Received, Status, zero_status, receive_message, accept_connection,
}

-- What `pthread_create` returns: `negsuc n` is -(n + 1).
pub data ℤ : Type 0 where
  pos : ℕ → ℤ
  negsuc : ℕ → ℤ

abbrev pub is_negative : ℤ → Bool
is_negative (pos n) = false
is_negative (negsuc n) = true

-- What one round gets: the address that `malloc` gives, the descriptor that `accept` gives, and the
-- code of `pthread_create`, which has made a thread if it is 0.
pub record Arrival : Type 0 where
  pub malloc : Option ℕ
  pub accept : Option ℕ
  pub pthread_create : ℤ

-- A block of memory for an `int`, and the descriptor in it.
pub record Block : Type 0 where
  pub address : ℕ
  pub descriptor : ℕ

-- A thread has its argument, or has read the descriptor from it.
pub data Thread (H : Type 0) : Type 0 where
  called : H → ℕ → Thread H
  handling : H → ℕ → Thread H

pub record Process (H : Type 0) : Type 0 where
  pub connections : List ℕ
  pub blocks : List Block
  pub threads : List (Thread H)

abbrev pub at_rest : {H : Type 0} → Process H
at_rest = record { connections = []; blocks = []; threads = [] }

-- What a part of a round comes to: the code goes on behind it; it has met a `continue`; or it has
-- called `pthread_detach` with a `thread_id` that nothing has set, which is undefined.
pub data Round (H : Type 0) : Type 0 where
  goes_on : Process H → Round H
  continues : Process H → Round H
  undefined : Round H

-- `free`
unfoldable pub free_block : ℕ → List Block → List Block
free_block a [] = []
free_block a (b ∷ bs) = if b.address == a then bs else b ∷ free_block a bs

-- `*(int *)socket_desc`; there is none where no block lives.
unfoldable pub load_block : ℕ → List Block → Option ℕ
load_block a [] = none
load_block a (b ∷ bs) = if b.address == a then some b.descriptor else load_block a bs

module _ {H : Type 0} where
  -- Behind `if (pthread_create(…) < 0)`: `pthread_detach` of the thread, if there is one.
  pub thread_created : H → ℕ → ℤ → Process H → Round H
  thread_created h a (pos zero) p = goes_on (record p { threads = called h a ∷ p.threads })
  thread_created h a _ p = undefined

  -- From the block and the connection on.
  pub create_handler : H → ℕ → ℕ → ℤ → Process H → Round H
  unfolding thread_created close_one free_block
  create_handler h a d code p =
      let p' = record p {
        connections = d ∷ p.connections;
        blocks = record { address = a; descriptor = d } ∷ p.blocks;
      } in
      if is_negative code
      then continues
          (record p' { connections = close_one d p'.connections; blocks = free_block a p'.blocks })
      else thread_created h a code p'

  pub accept_into : H → ℕ → Option ℕ → ℤ → Process H → Round H
  unfolding create_handler
  accept_into h a none code p = continues p
  accept_into h a (some d) code p = create_handler h a d code p

  pub accept_if : H → Option ℕ → Arrival → Process H → Round H
  unfolding accept_into
  accept_if h none arrival p = continues p
  accept_if h (some a) arrival p =
      accept_into h a (accept_connection arrival.accept) arrival.pthread_create p

  -- A round of the naming server's loop, or one of the two parts of the storage server's: memory, the
  -- connection, the thread with handler `h`.
  unfoldable pub accept_round : H → Arrival → Process H → Round H
  unfolding accept_if accept_connection
  accept_round h arrival p = accept_if h arrival.malloc arrival p

  -- The process at the next round, if there is one.
  unfoldable pub next_round : Round H → Option (Process H)
  next_round (goes_on p) = some p
  next_round (continues p) = some p
  next_round undefined = none

-- The handlers that a loop makes threads for, what a round of it gets, and the round. What a handler
-- does between its message and its response is not here; the sockets that it opens itself are closed
-- before it goes on, as `exchange_open` says.
pub record Program : Type 1 where
  pub Handler : Type 0
  pub Turn : Type 0
  pub turn : Turn → Process Handler → Option (Process Handler)

module _ (G : Program) where
  -- A round of the loop; a handler reads its argument and frees it; it receives no message and
  -- closes the connection; or it receives one, responds and closes the connection.
  pub data Step (p : Process G.Handler) : Process G.Handler → Type 0 where
    turns : (t : G.Turn) {p' : Process G.Handler} → G.turn t p ≡ some p' → Step p p'
    begins :
        (h : G.Handler) (a d : ℕ) {ts : List (Thread G.Handler)}
        → Becomes (called h a) (handling h d) p.threads ts
        → load_block a p.blocks ≡ some d
        → Step p (record p { blocks = free_block a p.blocks; threads = ts })
    drops :
        (h : G.Handler) (d : ℕ) (r : Received) {ts : List (Thread G.Handler)}
        → Ends (handling h d) p.threads ts
        → (receive_message r).1 ≡ none
        → Step p (record p { connections = close_one d p.connections; threads = ts })
    responds :
        (h : G.Handler) (d : ℕ) (r : Received) (msg : Message) {ts : List (Thread G.Handler)}
        → Ends (handling h d) p.threads ts
        → receive_message r ≡ (zero_status, some msg)
        → Step p (record p { connections = close_one d p.connections; threads = ts })

  pub data Reachable : Process G.Handler → Type 0 where
    started : Reachable at_rest
    later : {p p' : Process G.Handler} → Reachable p → Step p p' → Reachable p'
