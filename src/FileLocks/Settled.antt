-- ===== src/FileLocks/Settled.antt =====
-- ss_file_operations.c: a lock that is acquired and released is what it was before.
use mathlib.Core.Option.{map}
use network_file_system.Base.{
  ◌≡◌, refl, ap, ◌∙◌, sym, subst, Bool, true, false, ◌⊎◌, Option, none, some, inl, inr, Bool-cases,
  Option-cases, if◌then◌else◌, same, same_refl, eq_of_same,
}
use network_file_system.Common.{FilePath}
use network_file_system.FileLocks.{
  Attempt, granted, refused, blocked, RwLocks, Table, init_file_locks, find_lock,
  get_or_create_file_lock_node, acquire, acquire_read_lock, acquire_write_lock, release_lock,
}
use network_file_system.FileLocks.Map.{lock_of, lock_or_init, answer_of}
use network_file_system.FileLocks.Holders.{Took, acquire-Took, acquired, released}

pub Attempt-cases :
    {A : Type 0} (a : Attempt A) → ((l : A) × (a ≡ granted l)) ⊎ ((a ≡ refused) ⊎ (a ≡ blocked))
Attempt-cases (granted l) = inl (l, refl)
Attempt-cases refused = inr (inl refl)
Attempt-cases blocked = inr (inr refl)

module _ (P : RwLocks) where
  -- The unlock undoes the call that was granted.
  abbrev pub Undoes : (P.Lock → Attempt P.Lock) → Type 0
  Undoes call = (l l' : P.Lock) → call l ≡ granted l' → P.unlock l' ≡ l

  -- The locks of all paths are alike, where a path without one has a fresh one.
  abbrev pub Steady : Table P → Table P → Type 0
  Steady t t' = (q : FilePath) → lock_or_init P (lock_of P t' q) ≡ lock_or_init P (lock_of P t q)

  -- The table once the holder, if there is one, has released.
  abbrev pub settle : FilePath → Table P → Attempt (Unit {0}) → Table P
  settle path t (granted _) = release_lock P path t
  settle path t refused = t
  settle path t blocked = t

  steady_if_same :
      (path q : FilePath) (t t' : Table P) (l : P.Lock)
      → lock_or_init P (lock_of P t path) ≡ l
      → lock_of P t' q ≡ (if same path q then some l else lock_of P t q)
      → lock_or_init P (lock_of P t' q) ≡ lock_or_init P (lock_of P t q)
  steady_if_same path q t t' l old e = elim (Bool-cases (same path q)) [
    | inr other ↦ ap (lock_or_init P) (rw other at e)
    | inl one ↦
        ap (lock_or_init P) (rw one at e)
        ∙ sym old
        ∙ ap (λ p. lock_or_init P (lock_of P t p)) (eq_of_same path q one)
  ]

  Took-Steady :
      (call : P.Lock → Attempt P.Lock) (path : FilePath) (t : Table P)
      (r : Attempt (Unit {0}) × Table P)
      → Undoes call
      → Took P call path t r
      → Steady t (settle path r.1 r.0)
  Took-Steady call path t r undoes took q =
      let l = lock_or_init P (lock_of P t path) in
      elim (Attempt-cases (call l)) [
        | inl (l', e) ↦
            let now : lock_of P r.1 path ≡ some l' = rw (same_refl path, e) at (took.1 path) in
            let rest : lock_of P r.1 q ≡ (if same path q then some l' else lock_of P t q) =
              rw e at (took.1 q) in
            let answer : r.0 ≡ granted tt = took.0 ∙ ap (answer_of P) e in
            rw answer (
              steady_if_same path q t (release_lock P path r.1) l refl
                (elim (Bool-cases (same path q)) [
                  | inl one ↦ rw one (
                      rw one at (released P path q r.1)
                      ∙ ap (map P.unlock) now
                      ∙ ap some (undoes l l' e))
                  | inr other ↦ rw other (rw other at (released P path q r.1) ∙ rw other at rest)
                ]))
        | inr (inl e) ↦
            let answer : r.0 ≡ refused = took.0 ∙ ap (answer_of P) e in
            rw answer (steady_if_same path q t r.1 l refl (rw e at (took.1 q)))
        | inr (inr e) ↦
            let answer : r.0 ≡ blocked = took.0 ∙ ap (answer_of P) e in
            rw answer (steady_if_same path q t r.1 l refl (rw e at (took.1 q)))
      ]

  pub node_found :
      (has_memory : Bool) (path : FilePath) (t : Table P) (l : P.Lock)
      → lock_of P t path ≡ some l
      → get_or_create_file_lock_node P has_memory path t ≡ (some l, t)
  unfolding get_or_create_file_lock_node
  node_found has_memory path t l found = rw found refl

  pub node_refused :
      (path : FilePath) (t : Table P)
      → lock_of P t path ≡ none
      → get_or_create_file_lock_node P false path t ≡ (none, t)
  unfolding get_or_create_file_lock_node
  node_refused path t absent = rw absent refl

  -- The table that a request for a lock, and the release if it is granted, leave behind.
  abbrev pub SettlesTo :
      (P.Lock → Attempt P.Lock) → FilePath → Table P → Option P.Lock × Table P → Type 0
  SettlesTo call path t node =
      Steady t (settle path (acquire P call path node).1 (acquire P call path node).0)

  -- With memory for a new node or without, all locks are as before.
  acquire-Steady :
      (call : P.Lock → Attempt P.Lock) (has_memory : Bool) (path : FilePath) (t : Table P)
      → Undoes call
      → SettlesTo call path t (get_or_create_file_lock_node P has_memory path t)
  unfolding acquire
  acquire-Steady call true path t undoes =
      Took-Steady call path t _ undoes (acquire-Took P call path t)
  acquire-Steady call false path t undoes = elim (Option-cases (lock_of P t path)) [
    | inl absent ↦ subst (SettlesTo call path t) (sym (node_refused path t absent)) (λ q. refl)
    | inr (l, found) ↦
        subst (SettlesTo call path t)
          (node_found true path t l found ∙ sym (node_found false path t l found))
          (Took-Steady call path t _ undoes (acquire-Took P call path t))
  ]

  pub read-Steady :
      (has_memory : Bool) (path : FilePath) (t : Table P)
      → Undoes P.rdlock
      → let r = acquire_read_lock P has_memory path t in Steady t (settle path r.1 r.0)
  unfolding acquire_read_lock
  read-Steady has_memory path t undoes = acquire-Steady P.rdlock has_memory path t undoes

  pub write-Steady :
      (has_memory : Bool) (path : FilePath) (t : Table P)
      → Undoes P.wrlock
      → let r = acquire_write_lock P has_memory path t in Steady t (settle path r.1 r.0)
  unfolding acquire_write_lock
  write-Steady has_memory path t undoes = acquire-Steady P.wrlock has_memory path t undoes

  -- No path is locked.
  abbrev pub AllFree : Table P → Type 0
  AllFree t = (q : FilePath) → lock_or_init P (lock_of P t q) ≡ P.rwlock_init

  pub Steady-AllFree : (t t' : Table P) → Steady t t' → AllFree t → AllFree t'
  Steady-AllFree t t' same_locks free q = same_locks q ∙ free q

  pub init_file_locks-AllFree : AllFree (init_file_locks P)
  unfolding init_file_locks find_lock
  init_file_locks-AllFree q = refl

  -- A fresh lock can be taken for reading and for writing.
  pub record IsTakable : Type 0 where
    pub reader : P.Lock
    pub writer : P.Lock
    pub can_read : P.rdlock P.rwlock_init ≡ granted reader
    pub can_write : P.wrlock P.rwlock_init ≡ granted writer

  pub read_granted :
      (path : FilePath) (t : Table P)
      → IsTakable
      → AllFree t
      → (acquire_read_lock P true path t).0 ≡ granted tt
  read_granted path t takable free =
      (acquired P path t).0.0
      ∙ ap (λ l. answer_of P (P.rdlock l)) (free path)
      ∙ ap (answer_of P) takable.can_read

  pub write_granted :
      (path : FilePath) (t : Table P)
      → IsTakable
      → AllFree t
      → (acquire_write_lock P true path t).0 ≡ granted tt
  write_granted path t takable free =
      (acquired P path t).1.0
      ∙ ap (λ l. answer_of P (P.wrlock l)) (free path)
      ∙ ap (answer_of P) takable.can_write
