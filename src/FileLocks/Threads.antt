-- ===== src/FileLocks/Threads.antt =====
-- ss_file_operations.c: threads that acquire and release locks, in any order. A thread releases only
-- what it holds, as every request of the storage server does.
pub mod Calls
pub mod Agrees
pub mod Exclusion
use mathlib.Core.Option.{map}
use network_file_system.Base.{
  ℕ, suc, ◌+◌, ◌≡◌, ◌≢◌, refl, ap, ◌∙◌, sym, subst, ◌⊎◌, Bool, true, false, Option, none, some,
  List, [], ◌∷◌, inl, inr, arith, Bool-cases, Option-cases, if◌then◌else◌, same, same_refl,
  eq_of_same,
}
use network_file_system.Common.{FilePath}
use network_file_system.FileLocks.{
  Attempt, granted, refused, blocked, RwLocks, Table, init_file_locks, find_lock,
  get_or_create_file_lock_node, acquire, acquire_read_lock, acquire_write_lock, release_lock,
}
use network_file_system.FileLocks.Map.{lock_of, lock_or_init, answer_of, lock_after}
use network_file_system.FileLocks.Holders.{Took, acquire-Took, granted_of, released}
use network_file_system.FileLocks.Settled.{node_found, node_refused}

-- Who holds a lock: so many readers, or a writer.
pub data Holding : Type 0 where
  readers : ℕ → Holding
  writer : Holding

-- What POSIX says of read-write locks.
pub record Excludes (P : RwLocks) : Type 0 where
  pub holding : P.Lock → Holding
  pub fresh : holding P.rwlock_init ≡ readers 0
  pub reads :
      (l l' : P.Lock)
      → P.rdlock l ≡ granted l'
      → (n : ℕ) × (holding l ≡ readers n) × (holding l' ≡ readers (n + 1))
  pub writes :
      (l l' : P.Lock) → P.wrlock l ≡ granted l' → (holding l ≡ readers 0) × (holding l' ≡ writer)
  pub read_unlocks :
      (l : P.Lock) (n : ℕ) → holding l ≡ readers (n + 1) → holding (P.unlock l) ≡ readers n
  pub write_unlocks : (l : P.Lock) → holding l ≡ writer → holding (P.unlock l) ≡ readers 0

-- A thread that holds the lock of a path, for writing or for reading.
pub record Holder : Type 0 where
  pub path : FilePath
  pub for_writing : Bool

abbrev pub reading_of : FilePath → Holder → ℕ
reading_of q h = if same h.path q then (if h.for_writing then 0 else 1) else 0

abbrev pub writing_of : FilePath → Holder → ℕ
writing_of q h = if same h.path q then (if h.for_writing then 1 else 0) else 0

-- How many of the holders read the path, and how many write it.
abbrev pub readers_of : FilePath → List Holder → ℕ
readers_of q [] = 0
readers_of q (h ∷ hs) = readers_of q hs + reading_of q h

abbrev pub writers_of : FilePath → List Holder → ℕ
writers_of q [] = 0
writers_of q (h ∷ hs) = writers_of q hs + writing_of q h

-- One of the holders is taken out.
pub data Removes (h : Holder) : List Holder → List Holder → Type 0 where
  here : {hs : List Holder} → Removes h (h ∷ hs) hs
  there : {hs hs' : List Holder} (k : Holder) → Removes h hs hs' → Removes h (k ∷ hs) (k ∷ hs')

module _ (P : RwLocks) where
  -- The table of locks and the threads that hold one.
  pub record Threads : Type 0 where
    pub locks : Table P
    pub holders : List Holder

  -- A thread that is refused, or that waits and asks again, holds nothing.
  pub data Step (s : Threads) : Threads → Type 0 where
    take_read :
        (path : FilePath) (has_memory : Bool)
        → (acquire_read_lock P has_memory path s.locks).0 ≡ granted tt
        → Step s (record {
          locks = (acquire_read_lock P has_memory path s.locks).1;
          holders = record { path = path; for_writing = false } ∷ s.holders;
        })
    take_write :
        (path : FilePath) (has_memory : Bool)
        → (acquire_write_lock P has_memory path s.locks).0 ≡ granted tt
        → Step s (record {
          locks = (acquire_write_lock P has_memory path s.locks).1;
          holders = record { path = path; for_writing = true } ∷ s.holders;
        })
    miss_read :
        (path : FilePath) (has_memory : Bool)
        → (acquire_read_lock P has_memory path s.locks).0 ≢ granted tt
        → Step s (record s { locks = (acquire_read_lock P has_memory path s.locks).1 })
    miss_write :
        (path : FilePath) (has_memory : Bool)
        → (acquire_write_lock P has_memory path s.locks).0 ≢ granted tt
        → Step s (record s { locks = (acquire_write_lock P has_memory path s.locks).1 })
    give :
        (h : Holder) {rest : List Holder}
        → Removes h s.holders rest
        → Step s (record { locks = release_lock P h.path s.locks; holders = rest })

  abbrev pub idle : Threads
  idle = record { locks = init_file_locks P; holders = [] }

  pub data Reachable : Threads → Type 0 where
    started : Reachable idle
    later : {s t : Threads} → Reachable s → Step s t → Reachable t

  -- The lock of a path, a fresh one if it has none.
  abbrev pub lock_at : Table P → FilePath → P.Lock
  lock_at t q = lock_or_init P (lock_of P t q)
