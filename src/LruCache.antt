-- ===== src/LruCache.antt =====
-- lru_cache.c and lru_cache.h: the doubly linked list of cached lookups, with the table `map` of
-- pointers into it. The nodes live on an explicit heap: an address is a number, 0 is NULL, and an
-- address that `malloc` has not given, or that `free` took back, holds nothing. To read or write
-- there is a fault. The mutex is held for the whole of each operation, which is one command here.
pub mod State
pub mod Shape
pub mod Memory
pub mod Relink
pub mod Spec
pub mod Steps
pub mod Move
pub mod Walk
pub mod Get
pub mod Remove
pub mod Evict
pub mod Put
pub mod Invariant
pub mod Session
pub mod Dangling
pub mod Pointer
pub mod Answers
pub mod Destroy
pub mod Tests
use network_file_system.Base.{
  ℕ, zero, suc, ◌+◌, ◌-◌, ◌%◌, ◌≡◌, Bool, true, false, Option, none, some, ◌==◌, if◌then◌else◌,
  same,
}
use network_file_system.Common.{FilePath}
use network_file_system.Hash.{hash_loop}
use network_file_system.ServerInfo.{StorageServerInfo}
use State.{
  Ptr, null, LruCacheNode, LruCache, Run, ok, fault, out_of_fuel, Cmd, pure, and_then, ◌>>=◌, ◌>>◌,
  load, store, free, set_next, set_prev, set_info, set_head, set_tail, set_map, set_count,
  with_cache, unless_null,
}

abbrev pub lru_cache_size : ℕ
lru_cache_size = 100

unfoldable pub hash_path : FilePath → ℕ
hash_path path = hash_loop 0 path % lru_cache_size

pub lru_init : LruCache
lru_init = record { heap = λ _. none; head = null; tail = null; map = λ _. null; count = 0 }

-- `if (node == tail) { tail = node->prev; if (tail) tail->next = NULL; }`
pub leave_tail : Ptr → Cmd (Unit {0})
leave_tail p = with_cache λ c.
    if p == c.tail
    then (do n ← load p; set_tail n.prev; unless_null n.prev (set_next n.prev null))
    else pure tt

-- `if (node->prev) node->prev->next = node->next; if (node->next) node->next->prev = node->prev;`
pub unlink : Ptr → Cmd (Unit {0})
unlink p = do
  n ← load p
  unless_null n.prev (set_next n.prev n.next)
  m ← load p
  unless_null m.next (set_prev m.next m.prev)

-- `node->prev = NULL; node->next = head; if (head) head->prev = node; head = node;
-- if (!tail) tail = node;`
pub push_front : Ptr → Cmd (Unit {0})
push_front p = with_cache λ c. do
  set_prev p null
  set_next p c.head
  unless_null c.head (set_prev c.head p)
  set_head p
  if c.tail == null then set_tail p else pure tt

pub move_to_front : Ptr → Cmd (Unit {0})
unfolding leave_tail unlink push_front
move_to_front p =
    with_cache λ c. if p == c.head then pure tt else do leave_tail p; unlink p; push_front p

-- The loops `while (node != NULL && strcmp(node->path, path) != 0)`. They keep the node before,
-- as `lru_remove` does; the other two operations do not use it.
pub walk : ℕ → FilePath → (prev_node node : Ptr) → Cmd (Ptr × Ptr)
walk zero path prev_node p = λ _. out_of_fuel
walk (suc fuel) path prev_node p =
    if p == null
    then pure (prev_node, p)
    else do n ← load p; if same n.path path then pure (prev_node, p) else walk fuel path p n.next

-- The list has `count` nodes at most, so `count + 1` rounds are enough.
pub lookup : FilePath → Cmd (Ptr × Ptr)
unfolding walk hash_path
lookup path = with_cache λ c. walk (c.count + 1) path null (c.map (hash_path path))

-- The C function returns the address of the info inside the node; here it is that of the node.
pub lru_get_pointer : FilePath → Cmd Ptr
lru_get_pointer path = do
  (_, p) ← lookup path
  if p == null then pure null else do move_to_front p; pure p

-- The call with the read that its callers make of the info behind the address, at once.
pub lru_get : FilePath → Cmd (Option StorageServerInfo)
lru_get path = do
  p ← lru_get_pointer path
  if p == null then pure none else do n ← load p; pure (some n.ss_info)

-- The body of `if (temp)`, with `temp` the tail.
pub evict_tail : Ptr → Cmd (Unit {0})
evict_tail p = do
  n ← load p
  with_cache
      (λ c. if c.map (hash_path n.path) == p then set_map (hash_path n.path) null else pure tt)
  set_tail n.prev
  unless_null n.prev (set_next n.prev null)
  free p
  with_cache (λ c. set_count (c.count - 1))

-- `if (count == LRU_CACHE_SIZE)` and its body.
pub evict : Cmd (Unit {0})
evict =
    with_cache
      λ c. if c.count == lru_cache_size then unless_null c.tail (evict_tail c.tail) else pure tt

-- `fresh` is what `malloc` returns.
pub add_entry : (fresh : Ptr) → FilePath → StorageServerInfo → Cmd (Unit {0})
unfolding push_front
add_entry fresh path info = if fresh == null then pure tt else do
  store fresh (some (record { path = path; ss_info = info; prev = null; next = null }))
  push_front fresh
  with_cache (λ c. set_count (c.count + 1))
  set_map (hash_path path) fresh

pub lru_put : (fresh : Ptr) → FilePath → StorageServerInfo → Cmd (Unit {0})
lru_put fresh path info = do
  (_, p) ← lookup path
  if p == null then (do evict; add_entry fresh path info) else (do set_info p info; move_to_front p)

-- The two ends of the list give way to the neighbours of a node that leaves.
pub leave_ends : Ptr → Cmd (Unit {0})
leave_ends p = do
  n ← load p
  with_cache (λ c. if p == c.head then set_head n.next else pure tt)
  with_cache (λ c. if p == c.tail then set_tail n.prev else pure tt)

pub lru_remove : FilePath → Cmd (Unit {0})
lru_remove path = do
  (before, p) ← lookup path
  if p == null then pure tt else do
    n ← load p
    if before == null then set_map (hash_path path) n.next else set_next before n.next
    unlink p
    leave_ends p
    free p
    with_cache (λ c. set_count (c.count - 1))

unfoldable pub destroy_loop : ℕ → Ptr → Cmd (Unit {0})
destroy_loop zero p = λ _. out_of_fuel
destroy_loop (suc fuel) p =
    if p == null then pure tt else do n ← load p; free p; destroy_loop fuel n.next

unfoldable pub lru_destroy : Cmd (Unit {0})
lru_destroy = with_cache λ c. do
  destroy_loop (c.count + 1) c.head
  λ d. ok tt (record d { head = null; tail = null; map = λ _. null; count = 0 })
