-- ===== src/FileLocks/Tests.antt =====
-- Locks that count their readers, and the theorems about the table there.
use mathlib.Core.Option.{map}
use network_file_system.Base.{
  ℕ, ◌+◌, ◌-◌, ◌≡◌, refl, ap, sym, inl, inr, Bool-cases, ◌∙◌, true, false, arith, leb, ◌⊎◌, ==_iff,
  none, [], ◌∷◌, ◌==◌, same, if◌then◌else◌,
}
use network_file_system.Common.{FilePath}
use network_file_system.FileLocks.{
  granted, blocked, RwLocks, Table, init_file_locks, acquire_read_lock, acquire_write_lock,
  find_lock, release_lock,
}
use network_file_system.FileLocks.Map.{lock_of, lock_or_init, answer_of, lock_after}
use network_file_system.FileLocks.Settled.{Undoes, AllFree, IsTakable}
use network_file_system.FileLocks.Threads.{
  Holding, readers, writer, Excludes, Threads, take_write, later, started, writers_of, readers_of,
}
use network_file_system.FileLocks.Threads.Exclusion.{exclusive}
use network_file_system.FileLocks.Holders.{Took, acquired, released}

-- 0 is free, 1 is held for writing, and n + 1 is held by n readers.
abbrev pub counting : RwLocks
counting = record {
  Lock = ℕ;
  rwlock_init = 0;
  rdlock = λ l. if l == 1 then blocked else granted (if l == 0 then 2 else l + 1);
  wrlock = λ l. if l == 0 then granted 1 else blocked;
  unlock = λ l. if leb l 2 then 0 else l - 1;
}

abbrev pub path_a : FilePath
path_a = 97 ∷ []

abbrev path_b : FilePath
path_b = 98 ∷ []

abbrev pub empty : Table counting
empty = init_file_locks counting

acquired_example :
    Took counting counting.rdlock path_a empty (acquire_read_lock counting true path_a empty)
    × Took counting counting.wrlock path_a empty (acquire_write_lock counting true path_a empty)
acquired_example = acquired counting path_a empty

abbrev held : Table counting
held = (acquire_write_lock counting true path_a empty).1

refused_grant : (l : ℕ) → blocked ≡ granted l → ⊥
refused_grant l e = cc

none_yet : lock_of counting empty path_a ≡ none
unfolding find_lock init_file_locks
none_yet = refl

first_granted : (acquire_write_lock counting true path_a empty).0 ≡ granted tt
first_granted =
    (acquired counting path_a empty).1.0
    ∙ ap (λ o. answer_of counting (counting.wrlock (lock_or_init counting o))) none_yet

-- A release undoes what was granted.
pub read_undone : Undoes counting counting.rdlock
read_undone l l' e = elim (Bool-cases (l == 1)) [
  | inl written ↦ absurd (refused_grant l' (rw written at e))
  | inr unwritten ↦
      let next : (if l == 0 then 2 else l + 1) ≡ l' =
        ap (lock_after counting 0) (rw unwritten at e) in
      rw (sym next) (ground arith)
]

pub write_undone : Undoes counting counting.wrlock
write_undone l l' e = elim (Bool-cases (l == 0)) [
  | inl free ↦
      let one : 1 ≡ l' = ap (lock_after counting 0) (rw free at e) in rw (sym one) (ground arith)
  | inr busy ↦ absurd (refused_grant l' (rw busy at e))
]

pub takable : IsTakable counting
takable = record { reader = 2; writer = 1; can_read = refl; can_write = refl }

pub empty-AllFree : AllFree counting empty
unfolding find_lock init_file_locks
empty-AllFree q = refl

-- Who holds such a lock.
abbrev counted : ℕ → Holding
counted l = if l == 1 then writer else readers (l - 1)

counting_reads :
    (l l' : ℕ)
    → counting.rdlock l ≡ granted l'
    → (n : ℕ) × (counted l ≡ readers n) × (counted l' ≡ readers (n + 1))
counting_reads l l' e = elim (Bool-cases (l == 1)) [
  | inl written ↦ absurd (refused_grant l' (rw written at e))
  | inr unwritten ↦
      let next : (if l == 0 then 2 else l + 1) ≡ l' =
        ap (lock_after counting 0) (rw unwritten at e) in
      let other : (l' == 1) ≡ false = ground arith in
      let one_more : l' - 1 ≡ l - 1 + 1 = ground arith in
      (l - 1, rw unwritten refl, rw other (ap readers one_more))
]

counting_writes :
    (l l' : ℕ) → counting.wrlock l ≡ granted l' → (counted l ≡ readers 0) × (counted l' ≡ writer)
counting_writes l l' e = elim (Bool-cases (l == 0)) [
  | inl free ↦
      let one : 1 ≡ l' = ap (lock_after counting 0) (rw free at e) in
      let zero_lock : l ≡ 0 = (==_iff l 0).0 free in (rw zero_lock refl, rw (sym one) refl)
  | inr busy ↦ absurd (refused_grant l' (rw busy at e))
]

-- The number of readers, where the lock is not held for writing.
abbrev readers_in : Holding → ℕ
readers_in (readers n) = n
readers_in writer = 0

readers_not_writer : (n : ℕ) → readers n ≡ writer → ⊥
readers_not_writer n e = cc

counting_read_unlocks :
    (l n : ℕ) → counted l ≡ readers (n + 1) → counted (counting.unlock l) ≡ readers n
counting_read_unlocks l n e = elim (Bool-cases (l == 1)) [
  | inl written ↦ absurd (readers_not_writer (n + 1) (sym (rw written at e)))
  | inr unwritten ↦
      let held : l - 1 ≡ n + 1 = ap readers_in (rw unwritten at e) in
      let same_lock : l ≡ n + 2 = omega (arith, held) in
      let read_only : (counting.unlock l == 1) ≡ false = ground (arith, same_lock) in
      let count : counting.unlock l - 1 ≡ n = ground (arith, same_lock) in
      rw read_only (ap readers count)
]

counting_write_unlocks : (l : ℕ) → counted l ≡ writer → counted (counting.unlock l) ≡ readers 0
counting_write_unlocks l e = elim (Bool-cases (l == 1)) [
  | inl written ↦ rw ((==_iff l 1).0 written) refl
  | inr unwritten ↦ absurd (readers_not_writer (l - 1) (rw unwritten at e))
]

pub counting-Excludes : Excludes counting
counting-Excludes = record {
  holding = counted;
  fresh = refl;
  reads = counting_reads;
  writes = counting_writes;
  read_unlocks = counting_read_unlocks;
  write_unlocks = counting_write_unlocks;
}

abbrev one_writer : Threads counting
one_writer = record { locks = held; holders = record { path = path_a; for_writing = true } ∷ [] }

exclusive_example :
    (writers_of path_a one_writer.holders ≡ 0)
    ⊎ ((writers_of path_a one_writer.holders ≡ 1) × (readers_of path_a one_writer.holders ≡ 0))
exclusive_example =
    exclusive counting one_writer counting-Excludes
      (later started (take_write path_a true first_granted)) path_a

released_example : lock_of counting (release_lock counting path_a empty) path_a ≡ (
    if same path_a path_a
    then map counting.unlock (lock_of counting empty path_a)
    else lock_of counting empty path_a)
released_example = released counting path_a path_a empty
