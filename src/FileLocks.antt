-- ===== src/FileLocks.antt =====
-- ss_file_operations.c: the table of file locks. The read-write locks are those of pthreads, a
-- parameter. A chain of the table is a list of its nodes, which nothing frees before
-- `destroy_file_locks`. The mutex is held for every change of a chain, which is one step here, and
-- so is the call that takes or gives back a lock.
pub mod Map
pub mod Holders
pub mod Settled
pub mod Threads
pub mod Tests
use network_file_system.Base.{
  ℕ, ◌%◌, Bool, true, false, Option, none, some, List, [], ◌∷◌, ltb, ◌==◌, if◌then◌else◌, same,
}
use network_file_system.Common.{FilePath}
use network_file_system.Hash.{hash_loop}

-- What a call of `pthread_rwlock_rdlock` or `pthread_rwlock_wrlock` comes to.
pub data Attempt (A : Type 0) : Type 0 where
  granted : A → Attempt A
  refused : Attempt A
  blocked : Attempt A

-- The state of a `pthread_rwlock_t` and the calls on it.
pub record RwLocks : Type 1 where
  pub Lock : Type 0
  pub rwlock_init : Lock
  pub rdlock : Lock → Attempt Lock
  pub wrlock : Lock → Attempt Lock
  pub unlock : Lock → Lock

abbrev pub max_file_locks : ℕ
max_file_locks = 1024

unfoldable pub hash_path_for_lock : FilePath → ℕ
hash_path_for_lock path = hash_loop 0 path % max_file_locks

module _ (P : RwLocks) where
  -- A node less its `next`.
  pub record FileLock : Type 0 where
    pub path : FilePath
    pub rwlock : P.Lock

  -- `file_locks`
  abbrev pub Table : Type 0
  Table = ℕ → List FileLock

  pub init_file_locks : Table
  init_file_locks i = []

  -- The loop along a chain.
  pub find_lock : FilePath → List FileLock → Option P.Lock
  find_lock path [] = none
  find_lock path (n ∷ ns) = if same n.path path then some n.rwlock else find_lock path ns

  -- A call on the lock of the first node with the path.
  pub change_lock : FilePath → P.Lock → List FileLock → List FileLock
  change_lock path l [] = []
  change_lock path l (n ∷ ns) =
      if same n.path path then record n { rwlock = l } ∷ ns else n ∷ change_lock path l ns

  abbrev pub set_chain : ℕ → List FileLock → Table → Table
  set_chain k ns t i = if i == k then ns else t i

  pub create_unless_found : Bool → FilePath → Table → Option P.Lock → Option P.Lock × Table
  create_unless_found has_memory path t (some l) = (some l, t)
  create_unless_found has_memory path t none =
      if has_memory
      then (let k = hash_path_for_lock path in
          (
            some P.rwlock_init,
            set_chain k (record { path = path; rwlock = P.rwlock_init } ∷ t k) t,
          ))
      else (none, t)

  -- `has_memory` says whether `malloc` succeeds.
  pub get_or_create_file_lock_node : Bool → FilePath → Table → Option P.Lock × Table
  unfolding create_unless_found
  get_or_create_file_lock_node has_memory path t =
      create_unless_found has_memory path t (find_lock path (t (hash_path_for_lock path)))

  -- What the call comes to for the thread that asks, and the table afterwards. The functions return
  -- 0 where it is granted and -1 where it is refused.
  pub attempted : FilePath → Table → Attempt P.Lock → Attempt (Unit {0}) × Table
  attempted path t (granted l) = (
    granted tt,
    set_chain (hash_path_for_lock path) (change_lock path l (t (hash_path_for_lock path))) t,
  )
  attempted path t refused = (refused, t)
  attempted path t blocked = (blocked, t)

  -- The two functions that acquire differ in the call only.
  pub acquire :
      (P.Lock → Attempt P.Lock) → FilePath → Option P.Lock × Table → Attempt (Unit {0}) × Table
  unfolding attempted
  acquire call path (none, t) = (refused, t)
  acquire call path (some l, t) = attempted path t (call l)

  pub acquire_read_lock : Bool → FilePath → Table → Attempt (Unit {0}) × Table
  acquire_read_lock has_memory path t =
      acquire P.rdlock path (get_or_create_file_lock_node has_memory path t)

  pub acquire_write_lock : Bool → FilePath → Table → Attempt (Unit {0}) × Table
  acquire_write_lock has_memory path t =
      acquire P.wrlock path (get_or_create_file_lock_node has_memory path t)

  pub unlock_found : FilePath → Table → Option P.Lock → Table
  unlock_found path t none = t
  unlock_found path t (some l) =
      set_chain (hash_path_for_lock path)
        (change_lock path (P.unlock l) (t (hash_path_for_lock path))) t

  -- `release_read_lock`, and `release_write_lock`, which has the same body.
  pub release_lock : FilePath → Table → Table
  unfolding unlock_found
  release_lock path t = unlock_found path t (find_lock path (t (hash_path_for_lock path)))

  pub destroy_file_locks : Table → Table
  destroy_file_locks t i = if ltb i max_file_locks then [] else t i
