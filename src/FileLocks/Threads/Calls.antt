-- ===== src/FileLocks/Threads/Calls.antt =====
-- ss_file_operations.c: what a call that is granted, and one that is not, does to the locks.
use network_file_system.Base.{
  ◌≡◌, ◌≢◌, some, refl, ap, ◌∙◌, sym, subst, Bool, true, false, Option, inl, inr, Bool-cases,
  eq_of_same, Option-cases, if◌then◌else◌, same,
}
use network_file_system.Common.{FilePath}
use network_file_system.FileLocks.{
  Attempt, granted, RwLocks, Table, get_or_create_file_lock_node, acquire,
}
use network_file_system.FileLocks.Map.{answer_of, lock_of, lock_or_init, lock_after}
use network_file_system.FileLocks.Holders.{acquire-Took, granted_of}
use network_file_system.FileLocks.Settled.{Attempt-cases, node_found, node_refused}
use network_file_system.FileLocks.Threads.{lock_at}

module _ (P : RwLocks) where
  -- What a call that is granted does to the locks.
  abbrev pub Granted :
      (P.Lock → Attempt P.Lock) → FilePath → Table P → Option P.Lock × Table P → Type 0
  Granted call path t node =
      (acquire P call path node).0 ≡ granted tt
      → (l' : P.Lock) × (call (lock_at P t path) ≡ granted l')
        × ((q : FilePath)
            → lock_at P (acquire P call path node).1 q
              ≡ (if same path q then l' else lock_at P t q))

  took :
      (call : P.Lock → Attempt P.Lock) (path : FilePath) (t : Table P)
      → Granted call path t (get_or_create_file_lock_node P true path t)
  took call path t e =
      let l = lock_at P t path in
      let r = acquire-Took P call path t in
      let (l', f) = granted_of P (call l) (sym r.0 ∙ e) in
      (
        l',
        f,
        λ q. elim (Bool-cases (same path q)) [
          | inl one ↦ rw one (ap (lock_or_init P) (rw one at (r.1 q)) ∙ ap (lock_after P l) f)
          | inr other ↦ rw other (ap (lock_or_init P) (rw other at (r.1 q)))
        ],
      )

  pub acquire-Granted :
      (call : P.Lock → Attempt P.Lock) (has_memory : Bool) (path : FilePath) (t : Table P)
      → Granted call path t (get_or_create_file_lock_node P has_memory path t)
  unfolding acquire
  acquire-Granted call true path t = took call path t
  acquire-Granted call false path t = elim (Option-cases (lock_of P t path)) [
    | inl absent ↦
        subst (Granted call path t) (sym (node_refused P path t absent)) (λ e. absurd (cc))
    | inr (l, found) ↦
        subst (Granted call path t)
          (node_found P true path t l found ∙ sym (node_found P false path t l found))
          (took call path t)
  ]

  -- A call that is not granted leaves the locks.
  abbrev pub Missed :
      (P.Lock → Attempt P.Lock) → FilePath → Table P → Option P.Lock × Table P → Type 0
  Missed call path t node =
      (acquire P call path node).0 ≢ granted tt
      → (q : FilePath) → lock_at P (acquire P call path node).1 q ≡ lock_at P t q

  kept :
      (path q : FilePath) (t t' : Table P) (l l' : P.Lock)
      → lock_at P t path ≡ l
      → l' ≡ l
      → lock_of P t' q ≡ (if same path q then some l' else lock_of P t q)
      → lock_at P t' q ≡ lock_at P t q
  kept path q t t' l l' e f after = elim (Bool-cases (same path q)) [
    | inl one ↦
        ap (lock_or_init P) (rw one at after) ∙ f ∙ sym e ∙ ap (lock_at P t) (eq_of_same path q one)
    | inr other ↦ ap (lock_or_init P) (rw other at after)
  ]

  missed :
      (call : P.Lock → Attempt P.Lock) (path : FilePath) (t : Table P)
      → Missed call path t (get_or_create_file_lock_node P true path t)
  missed call path t unmet q =
      let l = lock_at P t path in
      let r = acquire-Took P call path t in
      let t' = (acquire P call path (get_or_create_file_lock_node P true path t)).1 in
      elim (Attempt-cases (call l)) [
        | inl (l', e) ↦ absurd (unmet (r.0 ∙ ap (answer_of P) e))
        | inr (inl e) ↦ kept path q t t' l _ refl (ap (lock_after P l) e) (r.1 q)
        | inr (inr e) ↦ kept path q t t' l _ refl (ap (lock_after P l) e) (r.1 q)
      ]

  pub acquire-Missed :
      (call : P.Lock → Attempt P.Lock) (has_memory : Bool) (path : FilePath) (t : Table P)
      → Missed call path t (get_or_create_file_lock_node P has_memory path t)
  unfolding acquire
  acquire-Missed call true path t = missed call path t
  acquire-Missed call false path t = elim (Option-cases (lock_of P t path)) [
    | inl absent ↦ subst (Missed call path t) (sym (node_refused P path t absent)) (λ unmet q. refl)
    | inr (l, found) ↦
        subst (Missed call path t)
          (node_found P true path t l found ∙ sym (node_found P false path t l found))
          (missed call path t)
  ]
