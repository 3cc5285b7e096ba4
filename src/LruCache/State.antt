-- ===== src/LruCache/State.antt =====
-- lru_cache.h: the nodes, the cache, and the statements that read and write them.
use network_file_system.Base.{ℕ, Option, none, some, ◌==◌, if◌then◌else◌}
use network_file_system.Common.{FilePath}
use network_file_system.ServerInfo.{StorageServerInfo}

abbrev pub Ptr : Type 0
Ptr = ℕ

abbrev pub null : Ptr
null = 0

pub record LruCacheNode : Type 0 where
  pub path : FilePath
  pub ss_info : StorageServerInfo
  pub prev : Ptr
  pub next : Ptr

-- The struct `LRUCache` with the memory of its nodes.
pub record LruCache : Type 0 where
  pub heap : Ptr → Option LruCacheNode
  pub head : Ptr
  pub tail : Ptr
  pub map : ℕ → Ptr
  pub count : ℕ

pub data Run (A : Type 0) : Type 0 where
  ok : A → LruCache → Run A
  fault : Run A
  out_of_fuel : Run A

abbrev pub Cmd : Type 0 → Type 0
Cmd A = LruCache → Run A

abbrev pub pure : {A : Type 0} → A → Cmd A
pure = ok

module _ {A B : Type 0} where
  abbrev pub and_then : Run A → (A → Cmd B) → Run B
  and_then (ok a c) k = k a c
  and_then fault k = fault
  and_then out_of_fuel k = out_of_fuel

  infixl 5 ◌>>=◌ ◌>>◌
  abbrev pub ◌>>=◌ : Cmd A → (A → Cmd B) → Cmd B
  m >>= k = λ c. and_then (m c) k

  abbrev pub ◌>>◌ : Cmd A → Cmd B → Cmd B
  m >> n = m >>= λ _. n

-- A statement that reads the fields of the cache.
abbrev pub with_cache : {A : Type 0} → (LruCache → Cmd A) → Cmd A
with_cache f c = f c c

abbrev pub write :
    (Ptr → Option LruCacheNode) → Ptr → Option LruCacheNode → Ptr → Option LruCacheNode
write h p n a = if a == p then n else h a

-- The raw write of a cell: `some n` fills it, `none` gives it back.
abbrev pub store : Ptr → Option LruCacheNode → Cmd (Unit {0})
store p n c = ok tt (record c { heap = write c.heap p n })

-- `*p`, a fault at NULL and at an address that holds no node.
unfoldable pub load : Ptr → Cmd LruCacheNode
load p c = if p == null then fault else elim (c.heap p) [ none ↦ fault | some n ↦ ok n c ]

unfoldable pub set_next : Ptr → Ptr → Cmd (Unit {0})
set_next p q = do n ← load p; store p (some (record n { next = q }))

unfoldable pub set_prev : Ptr → Ptr → Cmd (Unit {0})
set_prev p q = do n ← load p; store p (some (record n { prev = q }))

unfoldable pub set_info : Ptr → StorageServerInfo → Cmd (Unit {0})
set_info p info = do n ← load p; store p (some (record n { ss_info = info }))

unfoldable pub free : Ptr → Cmd (Unit {0})
free p = load p >> store p none

abbrev pub set_head : Ptr → Cmd (Unit {0})
set_head p c = ok tt (record c { head = p })

abbrev pub set_tail : Ptr → Cmd (Unit {0})
set_tail p c = ok tt (record c { tail = p })

abbrev pub set_map : ℕ → Ptr → Cmd (Unit {0})
set_map k p c = ok tt (record c { map = λ i. if i == k then p else c.map i })

abbrev pub set_count : ℕ → Cmd (Unit {0})
set_count n c = ok tt (record c { count = n })

-- `if (p) m`
abbrev pub unless_null : Ptr → Cmd (Unit {0}) → Cmd (Unit {0})
unless_null p m = if p == null then pure tt else m
