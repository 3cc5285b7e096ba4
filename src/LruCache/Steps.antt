-- ===== src/LruCache/Steps.antt =====
-- The helpers of lru_cache.c on a well-linked list.
use network_file_system.Base.{
  ℕ, ◌≡◌, ◌≢◌, refl, ap, ◌∙◌, true, none, some, [], ◌∷◌, ◌++◌, arith, ◌==◌, if◌then◌else◌,
}
use network_file_system.LruCache.{unlink, push_front}
use network_file_system.LruCache.State.{Ptr, null, LruCache, ok, pure, set_tail}
use network_file_system.LruCache.Shape.{
  Cell, Cells, node_of, first, last, layout, Distinct, Distinct-append, has-append, has-first,
  has-last, layout-none, not-has-null,
}
use network_file_system.LruCache.Relink.{
  patch_next, patch_prev, beside, patch_next_twice, relink, link_first,
}
use network_file_system.LruCache.Memory.{
  good, with_heap, load_lem, next_lem, prev_lem, guarded_next, guarded_prev, is_some-layout,
  first-good, layout-middle,
}
use network_file_system.LruCache.Spec.{Slots, repr}

-- `unlink` makes its two writes, given that the links of the node lead to nodes or to NULL.
pub unlink_lem :
    (x : Cell) (w v : Ptr) (c : LruCache)
    → c.heap x.ptr ≡ some (node_of x w v)
    → x.ptr ≢ null
    → w ≢ x.ptr
    → c.heap null ≡ none
    → good c.heap w ≡ true
    → good c.heap v ≡ true
    → unlink x.ptr c ≡ ok tt (with_heap c (patch_prev v w (patch_next w v c.heap)))
unfolding unlink
unlink_lem x w v c e ne apart z gw gv = rw (
  load_lem x.ptr c (node_of x w v) e ne,
  guarded_next w v c gw z,
  load_lem x.ptr (with_heap c (patch_next w v c.heap)) (node_of x w v) (ground arith) ne,
  guarded_prev v w (with_heap c (patch_next w v c.heap)) (ground arith) (ground arith),
)

-- `if (!tail) tail = node`, where `tail` is the last cell's address.
set_empty_tail :
    (cs : Cells) (p : Ptr) (c : LruCache)
    → Distinct cs
    → (if last null cs == null then set_tail p else pure tt) (record c { tail = last null cs })
      ≡ ok tt (record c { tail = last p cs })
set_empty_tail [] p c d = refl
set_empty_tail (x ∷ cs) p c d = ground (arith, has-last null (x ∷ cs), not-has-null (x ∷ cs) d)

-- `push_front` links a node that is beside the list in front of it.
pub push_front_lem :
    (x : Cell) (cs : Cells) (p q : Ptr) (m : Slots) (n : ℕ)
    → Distinct (x ∷ cs)
    → push_front x.ptr (record {
      heap = beside x p q (layout null cs null);
      head = first cs null;
      tail = last null cs;
      map = m;
      count = n;
    })
      ≡ ok tt (record (repr (x ∷ cs) m) { count = n })
unfolding push_front
push_front_lem x cs p q m n d =
    let c0 : LruCache = record {
      heap = beside x p q (layout null cs null);
      head = first cs null;
      tail = last null cs;
      map = m;
      count = n;
    } in
    let c1 = with_heap c0 (patch_prev x.ptr null c0.heap) in
    let c2 = with_heap c1 (patch_next x.ptr (first cs null) c1.heap) in
    rw
      (
        prev_lem x.ptr null c0 (ground arith) d.0,
        next_lem x.ptr (first cs null) c1 (ground arith) d.0,
        guarded_prev (first cs null) x.ptr c2 (ground (arith, first-good null cs null))
            (ground (arith, layout-none null cs null null, not-has-null cs d.2)),
      )
      (set_empty_tail cs x.ptr
          (record c2 { heap = patch_prev (first cs null) x.ptr c2.heap; head = x.ptr }) d.2
        ∙ ap (λ h. ok tt (with_heap (record (repr (x ∷ cs) m) { count = n }) h))
            (link_first x cs d p q))

-- The facts about a cell `x` that stands in the list.
module _ (xs : Cells) (x : Cell) (ys : Cells) (d : Distinct (xs ++ x ∷ ys)) where
  pub ne_null : x.ptr ≢ null
  ne_null = (Distinct-append xs (x ∷ ys) d).1.0

  pub before_ne : last null xs ≢ x.ptr
  before_ne =
      let (_, _, apart) = Distinct-append xs (x ∷ ys) d in
      ground (arith, apart (last null xs), has-last null xs)

  pub null_free : layout null (xs ++ x ∷ ys) null null ≡ none
  null_free = layout-none null (xs ++ x ∷ ys) null null (not-has-null (xs ++ x ∷ ys) d)

  pub before_good : good (layout null (xs ++ x ∷ ys) null) (last null xs) ≡ true
  before_good = ground (
    arith,
    has-append (last null xs) xs (x ∷ ys),
    has-last null xs,
    is_some-layout null (xs ++ x ∷ ys) null (last null xs),
  )

  pub after_good : good (layout null (xs ++ x ∷ ys) null) (first ys null) ≡ true
  after_good = ground (
    arith,
    has-append (first ys null) xs (x ∷ ys),
    has-first ys null,
    is_some-layout null (xs ++ x ∷ ys) null (first ys null),
  )

  -- `unlink` takes `x` out of the list that it stands in.
  pub unlink_middle :
      (c : LruCache)
      → c.heap ≡ layout null (xs ++ x ∷ ys) null
      → unlink x.ptr c
        ≡ ok tt
            (with_heap c (beside x (last null xs) (first ys null) (layout null (xs ++ ys) null)))
  unlink_middle c e =
      unlink_lem x (last null xs) (first ys null) c (rw e (layout-middle xs x ys d)) ne_null
        before_ne (rw e null_free) (rw e before_good) (rw e after_good)
      ∙ ap (λ h. ok tt (with_heap c h)) (rw e (relink xs x ys d))

  -- So it does after the node before has already been linked to the node behind.
  pub unlink_patched :
      (c : LruCache)
      → c.heap ≡ patch_next (last null xs) (first ys null) (layout null (xs ++ x ∷ ys) null)
      → unlink x.ptr c
        ≡ ok tt
            (with_heap c (beside x (last null xs) (first ys null) (layout null (xs ++ ys) null)))
  unlink_patched c e =
      unlink_lem x (last null xs) (first ys null) c
        (rw e (ground (arith, layout-middle xs x ys d, before_ne))) ne_null before_ne
        (rw e (ground (arith, null_free))) (rw e (ground (arith, before_good)))
        (rw e (ground (arith, after_good)))
      ∙ ap (λ h. ok tt (with_heap c h))
          (rw e (
            rw (patch_next_twice (last null xs) (first ys null) (layout null (xs ++ x ∷ ys) null))
              (relink xs x ys d)))
