-- ===== src/Connections/Ledger.antt =====
-- The loops that accept connections: every accepted connection that is open and every block has one owner.
use mathlib.Core.Option.{some-injective}
use network_file_system.Base.{
  subst, ℕ, zero, suc, ◌+◌, ◌≤◌, ◌≡◌, refl, Option, none, some, List, [], ◌∷◌, ◌==◌, if◌then◌else◌,
  arith, Bool-cases, inl, inr, Becomes, here, there, Ends, first, later,
}
use network_file_system.Connections.{
  ℤ, pos, negsuc, Arrival, Block, Thread, called, handling, Process, at_rest, close_one, free_block,
  load_block, thread_created, create_handler, accept_into, accept_if, accept_round, Program, Round,
  goes_on, continues, undefined, next_round, Step, turns, begins, drops, responds, Reachable,
}
use network_file_system.Connections
use network_file_system.Sockets.{accept_connection, close_one}

abbrev pub count : ℕ → List ℕ → ℕ
count d [] = 0
count d (e ∷ es) = (if e == d then 1 else 0) + count d es

-- How many blocks have the address, and how many hold the descriptor.
abbrev pub blocks_at : ℕ → List Block → ℕ
blocks_at a [] = 0
blocks_at a (b ∷ bs) = (if b.address == a then 1 else 0) + blocks_at a bs

abbrev pub stored : ℕ → List Block → ℕ
stored d [] = 0
stored d (b ∷ bs) = (if b.descriptor == d then 1 else 0) + stored d bs

module _ {H : Type 0} where
  -- A thread's descriptor, and the address of its argument.
  abbrev pub holds : ℕ → Thread H → ℕ
  holds d (called h a) = 0
  holds d (handling h e) = if e == d then 1 else 0

  abbrev pub awaits : ℕ → Thread H → ℕ
  awaits a (called h b) = if b == a then 1 else 0
  awaits a (handling h e) = 0

  abbrev pub holders : ℕ → List (Thread H) → ℕ
  holders d [] = 0
  holders d (t ∷ ts) = holds d t + holders d ts

  abbrev pub awaiters : ℕ → List (Thread H) → ℕ
  awaiters a [] = 0
  awaiters a (t ∷ ts) = awaits a t + awaiters a ts

  -- A connection that was accepted and is open is the descriptor of a thread, or stands in a block; a
  -- block is the argument of a thread that has not begun.
  pub record IsLedger (p : Process H) : Type 0 where
    pub held : (d : ℕ) → count d p.connections ≡ holders d p.threads + stored d p.blocks
    pub owned : (a : ℕ) → blocks_at a p.blocks ≡ awaiters a p.threads

  at_rest-IsLedger : IsLedger at_rest
  at_rest-IsLedger = record { held = λ d. refl; owned = λ a. refl }

  Becomes-holders :
      {t u : Thread H} {ts us : List (Thread H)} (d : ℕ)
      → Becomes t u ts us
      → holders d ts + holds d u ≡ holders d us + holds d t
  Becomes-holders d here = omega arith
  Becomes-holders d (there x r) = omega (arith, Becomes-holders d r)

  Becomes-awaiters :
      {t u : Thread H} {ts us : List (Thread H)} (a : ℕ)
      → Becomes t u ts us
      → awaiters a ts + awaits a u ≡ awaiters a us + awaits a t
  Becomes-awaiters a here = omega arith
  Becomes-awaiters a (there x r) = omega (arith, Becomes-awaiters a r)

  Ends-holders :
      {t : Thread H} {ts us : List (Thread H)} (d : ℕ)
      → Ends t ts us
      → holders d ts ≡ holders d us + holds d t
  Ends-holders d first = omega arith
  Ends-holders d (later x r) = omega (arith, Ends-holders d r)

  Ends-awaiters :
      {t : Thread H} {ts us : List (Thread H)} (a : ℕ)
      → Ends t ts us
      → awaiters a ts ≡ awaiters a us + awaits a t
  Ends-awaiters a first = omega arith
  Ends-awaiters a (later x r) = omega (arith, Ends-awaiters a r)

count-close_one :
    (d e : ℕ) (es : List ℕ)
    → 1 ≤ count e es
    → count d (close_one e es) + (if e == d then 1 else 0) ≡ count d es
unfolding close_one
count-close_one d e [] h = absurd (omega arith)
count-close_one d e (x ∷ es) h = ground (arith, count-close_one d e es)

count-close_one_new : (d e : ℕ) (es : List ℕ) → count d (close_one e (e ∷ es)) ≡ count d es
unfolding close_one
count-close_one_new d e es = ground arith

blocks_at-free_block :
    (a b d : ℕ) (bs : List Block)
    → load_block b bs ≡ some d
    → blocks_at a (free_block b bs) + (if b == a then 1 else 0) ≡ blocks_at a bs
unfolding load_block free_block
blocks_at-free_block a b d [] h = cc
blocks_at-free_block a b d (x ∷ bs) h = ground (arith, blocks_at-free_block a b d bs)

stored-free_block :
    (c b d : ℕ) (bs : List Block)
    → load_block b bs ≡ some d
    → stored c (free_block b bs) + (if d == c then 1 else 0) ≡ stored c bs
unfolding load_block free_block
stored-free_block c b d [] h = cc
stored-free_block c b d (x ∷ bs) h = ground (arith, stored-free_block c b d bs)

-- A block that is counted can be read.
load_block-found :
    (a : ℕ) (bs : List Block) → 1 ≤ blocks_at a bs → (d : ℕ) × (load_block a bs ≡ some d)
unfolding load_block
load_block-found a [] h = absurd (omega arith)
load_block-found a (b ∷ bs) h = elim (Bool-cases (b.address == a)) [
  | inl found ↦ (b.descriptor, rw found refl)
  | inr other ↦ rw other (load_block-found a bs (ground (arith, h)))
]

module _ {H : Type 0} where
  abbrev pub KeepsLedger : Round H → Type 0
  KeepsLedger (goes_on p) = IsLedger p
  KeepsLedger (continues p) = IsLedger p
  KeepsLedger undefined = Unit {0}

  create_handler-KeepsLedger :
      (h : H) (a d : ℕ) (code : ℤ) (p : Process H)
      → IsLedger p
      → KeepsLedger (create_handler h a d code p)
  unfolding create_handler thread_created
  create_handler-KeepsLedger h a d (pos zero) p v = record {
    held = λ e. omega (arith, v.held e);
    owned = λ b. omega (arith, v.owned b);
  }
  create_handler-KeepsLedger h a d (pos (suc n)) p v = tt
  create_handler-KeepsLedger h a d (negsuc n) p v = record {
    held = λ e. ground (arith, v.held e);
    owned = λ b. ground (arith, v.owned b);
  }

  accept_into-KeepsLedger :
      (h : H) (a : ℕ) (accepted : Option ℕ) (code : ℤ) (p : Process H)
      → IsLedger p
      → KeepsLedger (accept_into h a accepted code p)
  unfolding accept_into
  accept_into-KeepsLedger h a none code p v = v
  accept_into-KeepsLedger h a (some d) code p v = create_handler-KeepsLedger h a d code p v

  accept_if-KeepsLedger :
      (h : H) (memory : Option ℕ) (arrival : Arrival) (p : Process H)
      → IsLedger p
      → KeepsLedger (accept_if h memory arrival p)
  unfolding accept_if
  accept_if-KeepsLedger h none arrival p v = v
  accept_if-KeepsLedger h (some a) arrival p v =
      accept_into-KeepsLedger h a (accept_connection arrival.accept) arrival.pthread_create p v

  -- A round keeps the accounts.
  pub accept_round-KeepsLedger :
      (h : H) (arrival : Arrival) (p : Process H)
      → IsLedger p
      → KeepsLedger (accept_round h arrival p)
  unfolding accept_round
  accept_round-KeepsLedger h arrival p v = accept_if-KeepsLedger h arrival.malloc arrival p v

  pub next_round-IsLedger :
      (r : Round H) (p : Process H) → next_round r ≡ some p → KeepsLedger r → IsLedger p
  unfolding next_round
  next_round-IsLedger (goes_on q) p e v = subst IsLedger (some-injective q p e) v
  next_round-IsLedger (continues q) p e v = subst IsLedger (some-injective q p e) v
  next_round-IsLedger undefined p e v = cc

  begins-IsLedger :
      (h : H) (a d : ℕ) (p : Process H) {ts : List (Thread H)}
      → Becomes (called h a) (handling h d) p.threads ts
      → load_block a p.blocks ≡ some d
      → IsLedger p
      → IsLedger (record p { blocks = free_block a p.blocks; threads = ts })
  begins-IsLedger h a d p r e v = record {
    held = λ c. omega (arith, v.held c, Becomes-holders c r, stored-free_block c a d p.blocks e);
    owned =
        λ b. omega (arith, v.owned b, Becomes-awaiters b r, blocks_at-free_block b a d p.blocks e);
  }

  ends-IsLedger :
      (h : H) (d : ℕ) (p : Process H) {ts : List (Thread H)}
      → Ends (handling h d) p.threads ts
      → IsLedger p
      → IsLedger (record p { connections = close_one d p.connections; threads = ts })
  ends-IsLedger h d p r v = record {
    held = λ c. omega (
      arith,
      v.held c,
      Ends-holders c r,
      count-close_one c d p.connections (ground (arith, v.held d, Ends-holders d r)),
    );
    owned = λ b. omega (arith, v.owned b, Ends-awaiters b r);
  }

module _ (G : Program) where
  -- A round of the program's loop keeps the accounts.
  abbrev pub TurnKeeps : Type 0
  TurnKeeps =
      (t : G.Turn) (p p' : Process G.Handler) → G.turn t p ≡ some p' → IsLedger p → IsLedger p'

  Step-IsLedger : {p p' : Process G.Handler} → TurnKeeps → Step G p p' → IsLedger p → IsLedger p'
  Step-IsLedger {p = p} keeps (turns t {p' = p'} e) v = keeps t p p' e v
  Step-IsLedger {p = p} keeps (begins h a d r e) v = begins-IsLedger h a d p r e v
  Step-IsLedger {p = p} keeps (drops h d m r e) v = ends-IsLedger h d p r v
  Step-IsLedger {p = p} keeps (responds h d m msg r e) v = ends-IsLedger h d p r v

  pub Reachable-IsLedger : (p : Process G.Handler) → TurnKeeps → Reachable G p → IsLedger p
  Reachable-IsLedger p keeps Connections.started = at_rest-IsLedger
  Reachable-IsLedger p' keeps (Connections.later {p = p} r step) =
      Step-IsLedger keeps step (Reachable-IsLedger p keeps r)

module _ {H : Type 0} where
  Becomes-awaits :
      {t u : Thread H} {ts us : List (Thread H)} (a : ℕ)
      → Becomes t u ts us
      → awaits a t ≤ awaiters a ts
  Becomes-awaits a here = omega arith
  Becomes-awaits a (there x r) = omega (arith, Becomes-awaits a r)

  -- The argument of every thread that has not begun can be read.
  abbrev pub ArgumentsLive : Process H → Type 0
  ArgumentsLive p =
      (h : H) (a : ℕ) (u : Thread H) (us : List (Thread H))
      → Becomes (called h a) u p.threads us
      → (d : ℕ) × (load_block a p.blocks ≡ some d)

  pub IsLedger-ArgumentsLive : (p : Process H) → IsLedger p → ArgumentsLive p
  IsLedger-ArgumentsLive p v h a u us r =
      load_block-found a p.blocks (ground (arith, v.owned a, Becomes-awaits a r))
