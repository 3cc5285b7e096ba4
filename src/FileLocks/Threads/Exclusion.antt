-- ===== src/FileLocks/Threads/Exclusion.antt =====
-- ss_file_operations.c: a lock that is held for writing has one holder.
use mathlib.Core.Option.{map}
use network_file_system.Base.{
  ℕ, ◌+◌, ◌≡◌, refl, ap, ◌∙◌, sym, subst, ◌⊎◌, true, false, List, ◌∷◌, inl, inr, arith, Bool-cases,
  Option-cases, if◌then◌else◌, same, same_refl, eq_of_same,
}
use network_file_system.Common.{FilePath}
use network_file_system.FileLocks.{
  Attempt, granted, RwLocks, Table, init_file_locks, find_lock, acquire_read_lock,
  acquire_write_lock, release_lock,
}
use network_file_system.FileLocks.Map.{lock_of, lock_or_init}
use network_file_system.FileLocks.Holders.{released}
use network_file_system.FileLocks.Threads.{
  Holding, readers, writer, Excludes, Holder, readers_of, writers_of, Removes, Threads, Step,
  take_read, take_write, miss_read, miss_write, give, Reachable, started, later, lock_at,
}
use network_file_system.FileLocks.Threads.Calls.{acquire-Granted, acquire-Missed}
use network_file_system.FileLocks.Threads.Agrees.{
  Removes-counts, Agrees, read-Agrees, write-Agrees, Agrees-cast, unlock-Agrees, fresh_unheld,
}

module _ (P : RwLocks) where
  module _ (X : Excludes P) where
    -- The holders of every path are those that its lock counts.
    abbrev Counts : Threads P → Type 0
    Counts s =
        (q : FilePath)
        → Agrees (X.holding (lock_at P s.locks q)) (readers_of q s.holders) (writers_of q s.holders)

    -- A lock that is granted has one holder more.
    take-Counts :
        (call : P.Lock → Attempt P.Lock) (h : Holder) (s : Threads P) (t : Table P)
        → ((l l' : P.Lock)
            → call l ≡ granted l'
            → (r w : ℕ) → Agrees (X.holding l) r w
            → Agrees
                (X.holding l')
                (r + (if h.for_writing then 0 else 1))
                (w + (if h.for_writing then 1 else 0)))
        → (l' : P.Lock) → call (lock_at P s.locks h.path) ≡ granted l'
        → ((q : FilePath) → lock_at P t q ≡ (if same h.path q then l' else lock_at P s.locks q))
        → Counts s
        → Counts (record { locks = t; holders = h ∷ s.holders })
    take-Counts call h s t change l' e after c q = elim (Bool-cases (same h.path q)) [
      | inl one ↦
          let old : Agrees (X.holding (lock_at P s.locks h.path)) (readers_of q s.holders)
              (writers_of q s.holders) =
            subst
              (λ p.
                Agrees (X.holding (lock_at P s.locks p)) (readers_of q s.holders)
                  (writers_of q s.holders))
              (sym (eq_of_same h.path q one)) (c q) in
          rw (after q, one) (change _ l' e _ _ old)
      | inr other ↦
          rw (after q, other) (Agrees-cast P X _ _ _ _ _ (omega arith) (omega arith) (c q))
    ]

    -- A lock that is given back has one holder less.
    given_back :
        (h : Holder) (s : Threads P) (rest : List Holder)
        → Removes h s.holders rest
        → Counts s
        → Agrees
            (X.holding (lock_at P (release_lock P h.path s.locks) h.path))
            (readers_of h.path rest)
            (writers_of h.path rest)
    given_back h s rest removes c =
        let (e, f) = Removes-counts h.path removes in
        let self = same_refl h.path in
        elim (Option-cases (lock_of P s.locks h.path)) [
          | inl absent ↦ absurd (
              fresh_unheld P X h.for_writing _ _ _ _ (rw self at e) (rw self at f)
                (rw absent at (c h.path)))
          | inr (l, found) ↦
              let after : lock_at P (release_lock P h.path s.locks) h.path ≡ P.unlock l =
                ap (lock_or_init P)
                  (rw self at (released P h.path h.path s.locks) ∙ ap (map P.unlock) found) in
              rw after (
                unlock-Agrees P X h.for_writing l _ _ _ _ (rw self at e) (rw self at f)
                  (rw found at (c h.path)))
        ]

    give-Counts :
        (h : Holder) (s : Threads P) (rest : List Holder)
        → Removes h s.holders rest
        → Counts s
        → Counts (record { locks = release_lock P h.path s.locks; holders = rest })
    give-Counts h s rest removes c q =
        let (e, f) = Removes-counts q removes in
        elim (Bool-cases (same h.path q)) [
          | inl one ↦
              subst
                (λ p.
                  Agrees (X.holding (lock_at P (release_lock P h.path s.locks) p))
                    (readers_of p rest) (writers_of p rest))
                (eq_of_same h.path q one) (given_back h s rest removes c)
          | inr other ↦
              let after : lock_at P (release_lock P h.path s.locks) q ≡ lock_at P s.locks q =
                ap (lock_or_init P) (rw other at (released P h.path q s.locks)) in
              let (r, w) : (readers_of q s.holders ≡ readers_of q rest + 0)
                  × (writers_of q s.holders ≡ writers_of q rest + 0) =
                (rw other at e, rw other at f) in
              rw after (Agrees-cast P X _ _ _ _ _ (omega (arith, r)) (omega (arith, w)) (c q))
        ]

    Step-Counts : {s t : Threads P} → Step P s t → Counts s → Counts t
    unfolding acquire_read_lock acquire_write_lock
    Step-Counts {s = s} (take_read path has_memory e) c =
        let (l', f, after) = acquire-Granted P P.rdlock has_memory path s.locks e in
        take-Counts P.rdlock (record { path = path; for_writing = false }) s
          (acquire_read_lock P has_memory path s.locks).1
          (λ l k g r w a.
            Agrees-cast P X _ _ _ _ _ refl (omega arith) (read-Agrees P X l k r w g a))
          l' f after c
    Step-Counts {s = s} (take_write path has_memory e) c =
        let (l', f, after) = acquire-Granted P P.wrlock has_memory path s.locks e in
        take-Counts P.wrlock (record { path = path; for_writing = true }) s
          (acquire_write_lock P has_memory path s.locks).1
          (λ l k g r w a.
            Agrees-cast P X _ _ _ _ _ (omega arith) refl (write-Agrees P X l k r w g a))
          l' f after c
    Step-Counts {s = s} (miss_read path has_memory unmet) c =
        λ q. rw (acquire-Missed P P.rdlock has_memory path s.locks unmet q) (c q)
    Step-Counts {s = s} (miss_write path has_memory unmet) c =
        λ q. rw (acquire-Missed P P.wrlock has_memory path s.locks unmet q) (c q)
    Step-Counts {s = s} (give h {rest = rest} removes) c = give-Counts h s rest removes c

    Reachable-Counts : (s : Threads P) → Reachable P s → Counts s
    unfolding init_file_locks find_lock
    Reachable-Counts s started = λ q. rw X.fresh (refl, refl)
    Reachable-Counts t (later {s = s} r step) = Step-Counts step (Reachable-Counts s r)

  Agrees-exclusive : (k : Holding) (r w : ℕ) → Agrees k r w → (w ≡ 0) ⊎ ((w ≡ 1) × (r ≡ 0))
  Agrees-exclusive (readers n) r w (e, f) = inl f
  Agrees-exclusive writer r w (e, f) = inr (f, e)

  -- However threads acquire and release the locks of paths, whatever paths share a chain of the table
  -- and whether there is memory for new locks or not: a path that a thread holds for writing has no
  -- other holder, where the locks exclude as POSIX says and a thread releases only what it holds.
  pub exclusive :
      (s : Threads P)
      → Excludes P
      → Reachable P s
      → (q : FilePath)
      → (writers_of q s.holders ≡ 0) ⊎ ((writers_of q s.holders ≡ 1) × (readers_of q s.holders ≡ 0))
  exclusive s X r q =
      Agrees-exclusive (X.holding (lock_at P s.locks q)) _ _ (Reachable-Counts X s r q)
