-- ===== src/FileLocks/Threads/Agrees.antt =====
-- ss_file_operations.c: what one call does to the count of a lock.
use network_file_system.Base.{
  ℕ, ◌+◌, ◌≡◌, refl, ap, ◌∙◌, sym, ◌⊎◌, Bool, true, false, List, inl, inr, arith, if◌then◌else◌,
}
use network_file_system.Common.{FilePath}
use network_file_system.FileLocks.{granted, RwLocks}
use network_file_system.FileLocks.Threads.{
  Holding, readers, writer, Excludes, Holder, reading_of, writing_of, readers_of, writers_of,
  Removes, here, there,
}

pub Removes-counts :
    {h : Holder} {hs hs' : List Holder} (q : FilePath)
    → Removes h hs hs'
    → (readers_of q hs ≡ readers_of q hs' + reading_of q h)
      × (writers_of q hs ≡ writers_of q hs' + writing_of q h)
Removes-counts q here = (refl, refl)
Removes-counts q (there k r) =
    let (e, f) = Removes-counts q r in (omega (arith, e), omega (arith, f))

-- The count of a lock is that of its holders.
abbrev pub Agrees : Holding → ℕ → ℕ → Type 0
Agrees (readers n) r w = (n ≡ r) × (w ≡ 0)
Agrees writer r w = (r ≡ 0) × (w ≡ 1)

module _ (P : RwLocks) where
  module _ (X : Excludes P) where
    pub read-Agrees :
        (l l' : P.Lock) (r w : ℕ)
        → P.rdlock l ≡ granted l'
        → Agrees (X.holding l) r w
        → Agrees (X.holding l') (r + 1) w
    read-Agrees l l' r w e a =
        let (n, before, after) = X.reads l l' e in
        let (f, g) : (n ≡ r) × (w ≡ 0) = rw before at a in rw after (omega (arith, f), g)

    pub write-Agrees :
        (l l' : P.Lock) (r w : ℕ)
        → P.wrlock l ≡ granted l'
        → Agrees (X.holding l) r w
        → Agrees (X.holding l') r (w + 1)
    write-Agrees l l' r w e a =
        let (before, after) = X.writes l l' e in
        let (f, g) : (0 ≡ r) × (w ≡ 0) = rw before at a in rw after (sym f, omega (arith, g))

    Holding-cases : (k : Holding) → ((n : ℕ) × (k ≡ readers n)) ⊎ (k ≡ writer)
    Holding-cases (readers n) = inl (n, refl)
    Holding-cases writer = inr refl

    read_unlock-Agrees :
        (l : P.Lock) (r w : ℕ)
        → Agrees (X.holding l) (r + 1) w
        → Agrees (X.holding (P.unlock l)) r w
    read_unlock-Agrees l r w a = elim (Holding-cases (X.holding l)) [
      | inl (n, e) ↦
          let (f, g) : (n ≡ r + 1) × (w ≡ 0) = rw e at a in
          rw (X.read_unlocks l r (e ∙ ap readers f)) (refl, g)
      | inr e ↦ let (f, g) : (r + 1 ≡ 0) × (w ≡ 1) = rw e at a in absurd (omega (arith, f))
    ]

    write_unlock-Agrees :
        (l : P.Lock) (r w : ℕ)
        → Agrees (X.holding l) r (w + 1)
        → Agrees (X.holding (P.unlock l)) r w
    write_unlock-Agrees l r w a = elim (Holding-cases (X.holding l)) [
      | inl (n, e) ↦ let (f, g) : (n ≡ r) × (w + 1 ≡ 0) = rw e at a in absurd (omega (arith, g))
      | inr e ↦
          let (f, g) : (r ≡ 0) × (w + 1 ≡ 1) = rw e at a in
          rw (X.write_unlocks l e) (sym f, omega (arith, g))
    ]

    pub Agrees-cast :
        (k : Holding) (r w r' w' : ℕ) → r ≡ r' → w ≡ w' → Agrees k r w → Agrees k r' w'
    Agrees-cast (readers n) r w r' w' e f (a, b) = (a ∙ e, sym f ∙ b)
    Agrees-cast writer r w r' w' e f (a, b) = (sym e ∙ a, sym f ∙ b)

    pub unlock-Agrees :
        (for_writing : Bool) (l : P.Lock) (r w r' w' : ℕ)
        → r' ≡ r + (if for_writing then 0 else 1)
        → w' ≡ w + (if for_writing then 1 else 0)
        → Agrees (X.holding l) r' w'
        → Agrees (X.holding (P.unlock l)) r w
    unlock-Agrees true l r w r' w' e f a =
        write_unlock-Agrees l r w (Agrees-cast _ _ _ _ _ (omega (arith, e)) f a)
    unlock-Agrees false l r w r' w' e f a =
        read_unlock-Agrees l r w (Agrees-cast _ _ _ _ _ e (omega (arith, f)) a)

    -- A fresh lock has no holder.
    pub fresh_unheld :
        (for_writing : Bool) (r w r' w' : ℕ)
        → r' ≡ r + (if for_writing then 0 else 1)
        → w' ≡ w + (if for_writing then 1 else 0)
        → Agrees (X.holding P.rwlock_init) r' w'
        → ⊥
    fresh_unheld true r w r' w' e f a =
        let (_, g) : (0 ≡ r') × (w' ≡ 0) = rw X.fresh at a in omega (arith, f, g)
    fresh_unheld false r w r' w' e f a =
        let (g, _) : (0 ≡ r') × (w' ≡ 0) = rw X.fresh at a in omega (arith, e, g)
