-- ===== src/FileLocks/Holders.antt =====
-- ss_file_operations.c: what acquiring and releasing a lock does to the locks of all paths.
use mathlib.Core.Option.{map}
use network_file_system.Base.{
  ◌≡◌, refl, ap, ◌∙◌, sym, true, Option, none, some, inl, inr, arith, Bool-cases, Option-cases,
  if◌then◌else◌, same, same_refl, eq_of_same,
}
use network_file_system.Common.{FilePath}
use network_file_system.FileLocks.{
  Attempt, granted, refused, blocked, RwLocks, hash_path_for_lock, Table, change_lock,
  get_or_create_file_lock_node, attempted, acquire, acquire_read_lock, acquire_write_lock,
  unlock_found, release_lock,
}
use network_file_system.FileLocks.Map.{
  lock_of, lock_or_init, answer_of, lock_after, get_or_create_lem, attempted_lem, find-change,
  changed-lock_of,
}

module _ (P : RwLocks) where
  -- The answer to a request and the map of locks after it, given the call on the path's lock.
  abbrev pub Took :
      (P.Lock → Attempt P.Lock) → FilePath → Table P → Attempt (Unit {0}) × Table P → Type 0
  Took call path t r =
      let l = lock_or_init P (lock_of P t path) in
      (r.0 ≡ answer_of P (call l))
      × ((q : FilePath)
          → lock_of P r.1 q
            ≡ (if same path q then some (lock_after P l (call l)) else lock_of P t q))

  acquire_found :
      (call : P.Lock → Attempt P.Lock) (path : FilePath) (o : Option P.Lock) (t : Table P)
      (l : P.Lock)
      → o ≡ some l
      → acquire P call path (o, t) ≡ attempted P path t (call l)
  unfolding acquire
  acquire_found call path none t l e = cc
  acquire_found call path (some k) t l e = ap (λ x. attempted P path t (call x)) (ground arith)

  -- Of two changes at one path the second one counts.
  twice :
      (path q : FilePath) (x y z o : Option P.Lock)
      → o ≡ (if same path q then y else z)
      → (if same path q then x else o) ≡ (if same path q then x else z)
  twice path q x y z o e = elim (Bool-cases (same path q)) [
    | inl one ↦ rw one refl
    | inr other ↦ rw other (rw other at e)
  ]

  pub acquire-Took :
      (call : P.Lock → Attempt P.Lock) (path : FilePath) (t : Table P)
      → Took call path t (acquire P call path (get_or_create_file_lock_node P true path t))
  acquire-Took call path t =
      let p = get_or_create_file_lock_node P true path t in
      let l = lock_or_init P (lock_of P t path) in
      let made = get_or_create_lem P path path t in
      let found : lock_of P p.1 path ≡ some l = rw (same_refl path) at made.1 in
      rw (acquire_found call path p.0 p.1 l made.0) (
        (attempted_lem P path path p.1 l (call l) found).0,
        λ q.
            (attempted_lem P path q p.1 l (call l) found).1
            ∙ twice path q _ _ _ _ (get_or_create_lem P path q t).1,
      )

  -- Where malloc succeeds, a request for a read lock or a write lock gets what the call on the
  -- path's lock comes to, a lock being made if the path had none, and it changes the path's lock as
  -- the call does and no other path's, whatever paths share a chain.
  pub acquired :
      (path : FilePath) (t : Table P)
      → Took P.rdlock path t (acquire_read_lock P true path t)
        × Took P.wrlock path t (acquire_write_lock P true path t)
  unfolding acquire_read_lock acquire_write_lock
  acquired path t = (acquire-Took P.rdlock path t, acquire-Took P.wrlock path t)

  -- To release gives the path's lock back, if there is one, and leaves those of all other paths.
  pub released :
      (path q : FilePath) (t : Table P)
      → lock_of P (release_lock P path t) q
        ≡ (if same path q then map P.unlock (lock_of P t path) else lock_of P t q)
  unfolding release_lock unlock_found
  released path q t = elim (Option-cases (lock_of P t path)) [
    | inl absent ↦ elim (Bool-cases (same path q)) [
      | inl one ↦ rw (absent, one) (ap (lock_of P t) (sym (eq_of_same path q one)) ∙ absent)
      | inr other ↦ rw (absent, other) refl
    ]
    | inr (l, found) ↦ rw found (
        changed-lock_of P path q (P.unlock l)
          (change_lock P path (P.unlock l) (t (hash_path_for_lock path))) t
          (λ r. find-change P path r (P.unlock l) (t (hash_path_for_lock path)) l found))
  ]

  pub granted_of :
      (a : Attempt P.Lock) → answer_of P a ≡ granted tt → (l : P.Lock) × (a ≡ granted l)
  granted_of (granted l) e = (l, refl)
  granted_of refused e = cc
  granted_of blocked e = cc

  -- Where no two threads can hold a lock for writing, a thread that is granted the write lock of a
  -- path keeps every other from it: the next request for it, with nothing in between, is made to
  -- wait.
  pub write-write :
      (path : FilePath) (t : Table P)
      → ((l l' : P.Lock) → P.wrlock l ≡ granted l' → P.wrlock l' ≡ blocked)
      → (acquire_write_lock P true path t).0 ≡ granted tt
      → (acquire_write_lock P true path (acquire_write_lock P true path t).1).0 ≡ blocked
  write-write path t excludes first =
      let l = lock_or_init P (lock_of P t path) in
      let after = (acquire_write_lock P true path t).1 in
      let took = (acquired path t).1 in
      let (l', held) = granted_of (P.wrlock l) (sym took.0 ∙ first) in
      let now : lock_of P after path ≡ some (lock_after P l (P.wrlock l)) =
        rw (same_refl path) at (took.1 path) in
      let busy : lock_or_init P (lock_of P after path) ≡ l' =
        ap (lock_or_init P) now ∙ ap (lock_after P l) held in
      (acquired path after).1.0
      ∙ ap (λ k. answer_of P (P.wrlock k)) busy
      ∙ ap (answer_of P) (excludes l l' held)
