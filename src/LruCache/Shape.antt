-- ===== src/LruCache/Shape.antt =====
-- The doubly linked list as a value: its cells in order, and the memory that they stand for.
use network_file_system.Base.{
  ◌≡◌, ◌≢◌, refl, Bool, true, false, ◌||◌, ◌⊎◌, inl, inr, Option, none, some, List, [], ◌∷◌, ◌++◌,
  arith, ◌==◌, if◌then◌else◌,
}
use network_file_system.Common.{FilePath}
use network_file_system.ServerInfo.{StorageServerInfo}
use network_file_system.LruCache.State.{Ptr, null, LruCacheNode}

pub record Cell : Type 0 where
  pub ptr : Ptr
  pub path : FilePath
  pub ss_info : StorageServerInfo

abbrev pub Cells : Type 0
Cells = List Cell

-- The node of a cell between two neighbours.
abbrev pub node_of : Cell → Ptr → Ptr → LruCacheNode
node_of c p q = record { path = c.path; ss_info = c.ss_info; prev = p; next = q }

-- The first address, or `q` if there is none; the last address, or `p` if there is none.
abbrev pub first : Cells → Ptr → Ptr
first [] q = q
first (c ∷ cs) q = c.ptr

abbrev pub last : Ptr → Cells → Ptr
last p [] = p
last p (c ∷ cs) = last c.ptr cs

abbrev pub has : Ptr → Cells → Bool
has a [] = false
has a (c ∷ cs) = (a == c.ptr) || has a cs

-- The memory that holds the cells, linked in order between `p` and `q`, and nothing else.
abbrev pub layout : Ptr → Cells → Ptr → Ptr → Option LruCacheNode
layout p [] q a = none
layout p (c ∷ cs) q a = if a == c.ptr then some (node_of c p (first cs q)) else layout c.ptr cs q a

-- The addresses are not NULL, and no two cells share one.
abbrev pub Distinct : Cells → Type 0
Distinct [] = Unit {0}
Distinct (c ∷ cs) = (c.ptr ≢ null) × (has c.ptr cs ≡ false) × Distinct cs

pub has-append : (a : Ptr) (xs ys : Cells) → has a (xs ++ ys) ≡ (has a xs || has a ys)
has-append a [] ys = refl
has-append a (x ∷ xs) ys = ground (arith, has-append a xs ys)

pub not-has-null : (cs : Cells) → Distinct cs → has null cs ≡ false
not-has-null [] d = refl
not-has-null (c ∷ cs) d = ground (arith, not-has-null cs d.2)

pub has-first : (cs : Cells) (q : Ptr) → (cs ≡ []) ⊎ (has (first cs q) cs ≡ true)
has-first [] q = inl refl
has-first (c ∷ cs) q = inr (ground arith)

pub has-last : (p : Ptr) (cs : Cells) → (cs ≡ []) ⊎ (has (last p cs) cs ≡ true)
has-last p [] = inl refl
has-last p (c ∷ []) = inr (ground arith)
has-last p (c ∷ d ∷ cs) = ground (arith, has-last d.ptr (d ∷ cs))

pub last-append : (p : Ptr) (xs ys : Cells) → last p (xs ++ ys) ≡ last (last p xs) ys
last-append p [] ys = refl
last-append p (x ∷ xs) ys = last-append x.ptr xs ys

pub Distinct-append :
    (xs ys : Cells)
    → Distinct (xs ++ ys)
    → Distinct xs × Distinct ys × ((a : Ptr) → has a xs ≡ true → has a ys ≡ false)
Distinct-append [] ys d = (tt, d, λ a h. cc)
Distinct-append (x ∷ xs) ys d =
    let (dx, dy, apart) = Distinct-append xs ys d.2 in
    (
      (d.0, ground (arith, has-append x.ptr xs ys), dx),
      dy,
      λ a h. ground (arith, apart a, has-append x.ptr xs ys),
    )

pub layout-none : (p : Ptr) (cs : Cells) (q a : Ptr) → has a cs ≡ false → layout p cs q a ≡ none
layout-none p [] q a h = refl
layout-none p (c ∷ cs) q a h = ground (arith, layout-none c.ptr cs q a)

pub layout-append :
    (p : Ptr) (xs ys : Cells) (q a : Ptr)
    → layout p (xs ++ ys) q a
      ≡ (if has a xs then layout p xs (first ys q) a else layout (last p xs) ys q a)
layout-append p [] ys q a = refl
layout-append p (x ∷ []) ys q a = ground arith
layout-append p (x ∷ z ∷ xs) ys q a = ground (arith, layout-append x.ptr (z ∷ xs) ys q a)

-- To change the `next` of a cell, and its `prev`.
abbrev pub with_next : Ptr → Option LruCacheNode → Option LruCacheNode
with_next q none = none
with_next q (some n) = some (record n { next = q })

abbrev pub with_prev : Ptr → Option LruCacheNode → Option LruCacheNode
with_prev p none = none
with_prev p (some n) = some (record n { prev = p })

-- What follows the cells shows in the last of them only.
pub layout_next :
    (p : Ptr) (cs : Cells) (q r a : Ptr)
    → Distinct cs
    → layout p cs r a ≡ (if a == last p cs then with_next r (layout p cs q a) else layout p cs q a)
layout_next p [] q r a d = ground arith
layout_next p (c ∷ []) q r a d = ground arith
layout_next p (c ∷ e ∷ cs) q r a d =
    ground (arith, layout_next c.ptr (e ∷ cs) q r a d.2, has-last c.ptr (e ∷ cs))

-- What stands before the cells shows in the first of them only.
pub layout_prev :
    (p r : Ptr) (cs : Cells) (q a : Ptr)
    → layout r cs q a ≡ (if a == first cs q then with_prev r (layout p cs q a) else layout p cs q a)
layout_prev p r [] q a = ground arith
layout_prev p r (c ∷ cs) q a = ground arith
