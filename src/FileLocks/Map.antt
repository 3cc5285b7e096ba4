-- ===== src/FileLocks/Map.antt =====
-- ss_file_operations.c: the table of locks as a map from paths to locks.
use network_file_system.Base.{
  ◌≡◌, refl, ap, ◌∙◌, sym, true, false, Option, none, some, List, [], ◌∷◌, inl, inr, arith,
  Bool-cases, Option-cases, ==_iff, ◌==◌, if◌then◌else◌, same, eq_of_same, same_comm,
}
use network_file_system.Common.{FilePath}
use network_file_system.FileLocks.{
  Attempt, granted, refused, blocked, RwLocks, hash_path_for_lock, FileLock, Table, find_lock,
  change_lock, set_chain, get_or_create_file_lock_node, attempted,
}

-- Of three strings of which the first is the second and not the third, the second is not the third.
same_cut : (a b c : FilePath) → same a b ≡ true → same a c ≡ same b c
same_cut a b c e = ap (λ x. same x c) (eq_of_same a b e)

module _ (P : RwLocks) where
  -- The lock of a path, if the table has one.
  abbrev pub lock_of : Table P → FilePath → Option P.Lock
  lock_of t q = find_lock P q (t (hash_path_for_lock q))

  -- A lock that is asked for exists, if need be from now on.
  abbrev pub lock_or_init : Option P.Lock → P.Lock
  lock_or_init none = P.rwlock_init
  lock_or_init (some l) = l

  pub find-change :
      (path q : FilePath) (l : P.Lock) (ns : List (FileLock P)) (old : P.Lock)
      → find_lock P path ns ≡ some old
      → find_lock P q (change_lock P path l ns) ≡ (if same path q then some l else find_lock P q ns)
  unfolding find_lock change_lock
  find-change path q l [] old e = cc
  find-change path q l (n ∷ ns) old e = elim (Bool-cases (same n.path path)) [
    | inl here ↦ let same_tests = same_cut n.path path q here in rw here (ground arith)
    | inr there ↦
        let rest = find-change path q l ns old (rw there at e) in
        elim (Bool-cases (same n.path q)) [
          | inl first ↦
              let other : same path q ≡ false =
                same_comm path q ∙ sym (same_cut n.path q path first) ∙ there in
              rw (there, first, other) refl
          | inr later ↦ rw (there, later) rest
        ]
  ]

  -- A chain that changed at one path changes the map at that path.
  pub changed-lock_of :
      (path q : FilePath) (l : P.Lock) (ns : List (FileLock P)) (t : Table P)
      → ((r : FilePath)
          → find_lock P r ns
            ≡ (if same path r then some l else find_lock P r (t (hash_path_for_lock path))))
      → lock_of (set_chain P (hash_path_for_lock path) ns t) q
        ≡ (if same path q then some l else lock_of t q)
  changed-lock_of path q l ns t h =
      let k = hash_path_for_lock path in
      elim (Bool-cases (hash_path_for_lock q == k)) [
        | inl here ↦
            let same_hash : hash_path_for_lock q ≡ k = (==_iff (hash_path_for_lock q) k).0 here in
            rw here
              (h q ∙ ap (λ i. if same path q then some l else find_lock P q (t i)) (sym same_hash))
        | inr there ↦ elim (Bool-cases (same path q)) [
          | inl one ↦
              let same_hash = ap hash_path_for_lock (sym (eq_of_same path q one)) in
              absurd (ground (arith, same_hash))
          | inr other ↦ rw (there, other) refl
        ]
      ]

  -- A node that is found, and one that is made.
  found_node :
      (path q : FilePath) (t : Table P) (l : P.Lock)
      → lock_of t path ≡ some l
      → lock_of t q ≡ (if same path q then some l else lock_of t q)
  found_node path q t l found = elim (Bool-cases (same path q)) [
    | inl one ↦ rw one (ap (lock_of t) (sym (eq_of_same path q one)) ∙ found)
    | inr other ↦ rw other refl
  ]

  created_node :
      (path q : FilePath) (t : Table P)
      → lock_of
          (set_chain P
            (hash_path_for_lock path)
            (record { path = path; rwlock = P.rwlock_init } ∷ t (hash_path_for_lock path))
            t)
          q
        ≡ (if same path q then some P.rwlock_init else lock_of t q)
  unfolding find_lock
  created_node path q t =
      changed-lock_of path q P.rwlock_init
        (record { path = path; rwlock = P.rwlock_init } ∷ t (hash_path_for_lock path)) t (λ r. refl)

  -- The node that a request for a lock gets: its lock, and the map afterwards.
  pub get_or_create_lem :
      (path q : FilePath) (t : Table P)
      → ((get_or_create_file_lock_node P true path t).0 ≡ some (lock_or_init (lock_of t path)))
        × (lock_of (get_or_create_file_lock_node P true path t).1 q
            ≡ (if same path q then some (lock_or_init (lock_of t path)) else lock_of t q))
  unfolding get_or_create_file_lock_node
  get_or_create_lem path q t = elim (Option-cases (lock_of t path)) [
    | inl absent ↦ rw absent (refl, created_node path q t)
    | inr (l, found) ↦ rw found (refl, found_node path q t l found)
  ]

  -- What the thread gets, and the lock afterwards.
  abbrev pub answer_of : Attempt P.Lock → Attempt (Unit {0})
  answer_of (granted l) = granted tt
  answer_of refused = refused
  answer_of blocked = blocked

  abbrev pub lock_after : P.Lock → Attempt P.Lock → P.Lock
  lock_after l (granted l') = l'
  lock_after l refused = l
  lock_after l blocked = l

  pub attempted_lem :
      (path q : FilePath) (t : Table P) (l : P.Lock) (a : Attempt P.Lock)
      → lock_of t path ≡ some l
      → ((attempted P path t a).0 ≡ answer_of a)
        × (lock_of (attempted P path t a).1 q
            ≡ (if same path q then some (lock_after l a) else lock_of t q))
  unfolding attempted
  attempted_lem path q t l (granted l') found = (
    refl,
    changed-lock_of path q l' (change_lock P path l' (t (hash_path_for_lock path))) t
        (λ r. find-change path r l' (t (hash_path_for_lock path)) l found),
  )
  attempted_lem path q t l refused found = (refl, found_node path q t l found)
  attempted_lem path q t l blocked found = (refl, found_node path q t l found)
