-- ===== src/LruCache/Memory.antt =====
-- The statements of lru_cache.c on a memory where their pointers are good.
use mathlib.Core.Path.{fun_ext}
use network_file_system.Base.{
  ◌≡◌, ◌≢◌, ap, refl, Bool, true, false, ◌||◌, Bool-cases, inl, inr, Option, none, some, [], ◌∷◌,
  ◌++◌, arith, ◌==◌,
}
use network_file_system.LruCache.State.{
  Ptr, null, LruCacheNode, LruCache, ok, write, load, set_next, set_prev, free, unless_null,
}
use network_file_system.LruCache.Shape.{
  Cell, Cells, node_of, first, last, has, layout, Distinct, Distinct-append, has-first, has-last,
  layout-append,
}
use network_file_system.LruCache.Relink.{Memory, patch_next, patch_prev}

abbrev pub is_some : Option LruCacheNode → Bool
is_some none = false
is_some (some n) = true

-- A pointer that is NULL or holds a node.
abbrev pub good : Memory → Ptr → Bool
good h p = (p == null) || is_some (h p)

abbrev pub with_heap : LruCache → Memory → LruCache
with_heap c h = record c { heap = h }

pub load_lem :
    (p : Ptr) (c : LruCache) (n : LruCacheNode) → c.heap p ≡ some n → p ≢ null → load p c ≡ ok n c
unfolding load
load_lem p c n e h = ground arith

-- Two runs end alike if their memories agree at every address.
pub same_memory :
    (c : LruCache) (h g : Memory)
    → ((a : Ptr) → h a ≡ g a)
    → ok tt (with_heap c h) ≡ ok tt (with_heap c g)
same_memory c h g e = ap (λ m. ok tt (with_heap c m)) (fun_ext e)

some_of_is_some : (o : Option LruCacheNode) → is_some o ≡ true → (n : LruCacheNode) × (o ≡ some n)
some_of_is_some none h = cc
some_of_is_some (some n) h = (n, refl)

module _ (p q : Ptr) (c : LruCache) where
  pub next_lem :
      is_some (c.heap p) ≡ true
      → p ≢ null
      → set_next p q c ≡ ok tt (with_heap c (patch_next p q c.heap))
  unfolding set_next
  next_lem g ne =
      let (n, e) = some_of_is_some (c.heap p) g in
      rw (load_lem p c n e ne) (same_memory c _ (patch_next p q c.heap) (λ a. ground arith))

  pub prev_lem :
      is_some (c.heap p) ≡ true
      → p ≢ null
      → set_prev p q c ≡ ok tt (with_heap c (patch_prev p q c.heap))
  unfolding set_prev
  prev_lem g ne =
      let (n, e) = some_of_is_some (c.heap p) g in
      rw (load_lem p c n e ne) (same_memory c _ (patch_prev p q c.heap) (λ a. ground arith))

  -- A guarded write at NULL does nothing, and so does the patch, since NULL holds no node.
  pub guarded_next :
      good c.heap p ≡ true
      → c.heap null ≡ none
      → unless_null p (set_next p q) c ≡ ok tt (with_heap c (patch_next p q c.heap))
  guarded_next g e = elim (Bool-cases (p == null)) [
    | inl z ↦ rw z (same_memory c c.heap (patch_next p q c.heap) (λ a. ground arith))
    | inr nz ↦ rw nz (next_lem (ground arith) (ground arith))
  ]

  pub guarded_prev :
      good c.heap p ≡ true
      → c.heap null ≡ none
      → unless_null p (set_prev p q) c ≡ ok tt (with_heap c (patch_prev p q c.heap))
  guarded_prev g e = elim (Bool-cases (p == null)) [
    | inl z ↦ rw z (same_memory c c.heap (patch_prev p q c.heap) (λ a. ground arith))
    | inr nz ↦ rw nz (prev_lem (ground arith) (ground arith))
  ]

pub free_lem :
    (p : Ptr) (c : LruCache)
    → is_some (c.heap p) ≡ true
    → p ≢ null
    → free p c ≡ ok tt (with_heap c (write c.heap p none))
unfolding free
free_lem p c g ne = let (n, e) = some_of_is_some (c.heap p) g in rw (load_lem p c n e ne)

-- The nodes of a list are there, and its ends are good pointers.
pub is_some-layout :
    (p : Ptr) (cs : Cells) (q a : Ptr) → has a cs ≡ true → is_some (layout p cs q a) ≡ true
is_some-layout p [] q a h = cc
is_some-layout p (c ∷ cs) q a h = ground (arith, is_some-layout c.ptr cs q a)

pub first-good : (p : Ptr) (cs : Cells) (q : Ptr) → good (layout p cs q) (first cs null) ≡ true
first-good p cs q = ground (arith, has-first cs null, is_some-layout p cs q (first cs null))

pub last-good : (p : Ptr) (cs : Cells) (q : Ptr) → good (layout p cs q) (last null cs) ≡ true
last-good p cs q = ground (arith, has-last null cs, is_some-layout p cs q (last null cs))

-- A cell in the middle is where its address says, between its neighbours.
pub layout-middle :
    (xs : Cells) (x : Cell) (ys : Cells)
    → Distinct (xs ++ x ∷ ys)
    → layout null (xs ++ x ∷ ys) null x.ptr ≡ some (node_of x (last null xs) (first ys null))
layout-middle xs x ys d =
    let (dx, dxy, apart) = Distinct-append xs (x ∷ ys) d in
    rw (layout-append null xs (x ∷ ys) null x.ptr) (ground (arith, apart x.ptr))
