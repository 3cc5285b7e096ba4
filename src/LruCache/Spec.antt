-- ===== src/LruCache/Spec.antt =====
-- The cache without pointers to neighbours: the cells, the most recently used first, and the table.
use network_file_system.Base.{
  ℕ, suc, ◌≤◌, ◌≢◌, Bool-cases, inl, inr, ◌≡◌, refl, Bool, true, false, ◌||◌, ◌&&◌, Option, none,
  some, [], ◌∷◌, ◌++◌, ap, arith, ◌==◌, if◌then◌else◌, same, length,
}
use network_file_system.Common.{FilePath}
use network_file_system.LruCache.State.{Ptr, null, LruCache}
use network_file_system.LruCache.Shape.{Cell, Cells, first, last, has, layout, Distinct, has-append}

-- The table `map` of the cache.
abbrev pub Slots : Type 0
Slots = ℕ → Ptr

-- The cache that holds the cells, linked in order.
abbrev pub repr : Cells → Slots → LruCache
repr cs m = record {
  heap = layout null cs null;
  head = first cs null;
  tail = last null cs;
  map = m;
  count = length cs;
}

-- The cells from the one at `p` on, which are those that a walk along `next` visits.
abbrev pub suffix_from : Ptr → Cells → Cells
suffix_from p [] = []
suffix_from p (c ∷ cs) = if c.ptr == p then c ∷ cs else suffix_from p cs

abbrev pub find : FilePath → Cells → Option Cell
find path [] = none
find path (c ∷ cs) = if same c.path path then some c else find path cs

-- The list less the cell at `p`.
abbrev pub without : Ptr → Cells → Cells
without p [] = []
without p (c ∷ cs) = if c.ptr == p then cs else c ∷ without p cs

-- The slot `k` is empty, or it points to a cell whose path has the hash `k`.
abbrev pub holds : (FilePath → ℕ) → Ptr → ℕ → Cells → Bool
holds hash p k [] = false
holds hash p k (c ∷ cs) = ((p == c.ptr) && (hash c.path == k)) || holds hash p k cs

abbrev pub slot_fits : (FilePath → ℕ) → Cells → Slots → ℕ → Bool
slot_fits hash cs m k = (m k == null) || holds hash (m k) k cs

-- The invariant of the cache: its addresses are distinct, it has at most 100 cells, and every slot
-- of the table is empty or points to a cell whose path has that slot's hash.
pub record IsValid (hash : FilePath → ℕ) (cs : Cells) (m : Slots) : Type 0 where
  pub distinct : Distinct cs
  pub bounded : length cs ≤ 100
  pub fits : (k : ℕ) → slot_fits hash cs m k ≡ true

-- The part of it that concerns memory: a slot is empty or points into the list.
abbrev pub is_live : Cells → Slots → ℕ → Bool
is_live cs m k = (m k == null) || has (m k) cs

pub has-holds :
    (hash : FilePath → ℕ) (p : Ptr) (k : ℕ) (cs : Cells)
    → holds hash p k cs ≡ true
    → has p cs ≡ true
has-holds hash p k [] h = cc
has-holds hash p k (c ∷ cs) h = ground (arith, has-holds hash p k cs)

pub live_of_fits :
    (hash : FilePath → ℕ) (cs : Cells) (m : Slots) (k : ℕ)
    → slot_fits hash cs m k ≡ true
    → is_live cs m k ≡ true
live_of_fits hash cs m k h = ground (arith, has-holds hash (m k) k cs)

pub holds-append :
    (hash : FilePath → ℕ) (p : Ptr) (k : ℕ) (xs ys : Cells)
    → holds hash p k (xs ++ ys) ≡ (holds hash p k xs || holds hash p k ys)
holds-append hash p k [] ys = refl
holds-append hash p k (x ∷ xs) ys = ground (arith, holds-append hash p k xs ys)

pub holds-front :
    (hash : FilePath → ℕ) (p : Ptr) (k : ℕ) (xs : Cells) (x : Cell) (ys : Cells)
    → holds hash p k (x ∷ xs ++ ys) ≡ holds hash p k (xs ++ x ∷ ys)
holds-front hash p k xs x ys =
    ground (arith, holds-append hash p k xs ys, holds-append hash p k xs (x ∷ ys))

pub without-middle :
    (xs : Cells) (x : Cell) (ys : Cells)
    → Distinct (xs ++ x ∷ ys)
    → without x.ptr (xs ++ x ∷ ys) ≡ xs ++ ys
without-middle [] x ys d = ground arith
without-middle (z ∷ xs) x ys d =
    let other : (z.ptr == x.ptr) ≡ false = ground (arith, has-append z.ptr xs (x ∷ ys)) in
    rw other (ap (◌∷◌ z) (without-middle xs x ys d.2))

pub not-has-without : (a p : Ptr) (cs : Cells) → has a cs ≡ false → has a (without p cs) ≡ false
not-has-without a p [] h = refl
not-has-without a p (c ∷ cs) h = ground (arith, not-has-without a p cs)

pub Distinct-without : (p : Ptr) (cs : Cells) → Distinct cs → Distinct (without p cs)
Distinct-without p [] d = d
Distinct-without p (c ∷ cs) d = elim (Bool-cases (c.ptr == p)) [
  | inl hit ↦ rw hit d.2
  | inr miss ↦ rw miss (d.0, not-has-without c.ptr p cs d.1, Distinct-without p cs d.2)
]

-- A distinct list less the cell at `p` holds nothing at `p`.
pub not-has-without_self : (p : Ptr) (cs : Cells) → Distinct cs → has p (without p cs) ≡ false
not-has-without_self p [] d = refl
not-has-without_self p (c ∷ cs) d = ground (arith, not-has-without_self p cs d.2)

pub length-without : (p : Ptr) (cs : Cells) → length (without p cs) ≤ length cs
length-without p [] = omega arith
length-without p (c ∷ cs) = ground (arith, length-without p cs)

pub suc-length-without :
    (p : Ptr) (cs : Cells) → has p cs ≡ true → length cs ≡ suc (length (without p cs))
suc-length-without p [] h = cc
suc-length-without p (c ∷ cs) h = ground (arith, suc-length-without p cs)

pub has-without : (a p : Ptr) (cs : Cells) → has a cs ≡ true → a ≢ p → has a (without p cs) ≡ true
has-without a p [] h ne = cc
has-without a p (c ∷ cs) h ne = ground (arith, has-without a p cs)

pub holds-without :
    (hash : FilePath → ℕ) (q p : Ptr) (k : ℕ) (cs : Cells)
    → holds hash q k cs ≡ true
    → q ≢ p
    → holds hash q k (without p cs) ≡ true
holds-without hash q p k [] h ne = cc
holds-without hash q p k (c ∷ cs) h ne = ground (arith, holds-without hash q p k cs)

-- In a distinct list the slots that fit a cell are those of its own hash.
pub hash_of_holds :
    (hash : FilePath → ℕ) (k : ℕ) (xs : Cells) (x : Cell) (ys : Cells)
    → Distinct (xs ++ x ∷ ys)
    → holds hash x.ptr k (xs ++ x ∷ ys) ≡ true
    → hash x.path ≡ k
hash_of_holds hash k [] x ys d h = ground (arith, has-holds hash x.ptr k ys)
hash_of_holds hash k (z ∷ xs) x ys d h =
    ground (arith, hash_of_holds hash k xs x ys d.2, has-append z.ptr xs (x ∷ ys))
