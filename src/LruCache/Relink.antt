-- ===== src/LruCache/Relink.antt =====
-- What a few writes of `prev` and `next` make of the memory of a list.
use mathlib.Core.Path.{fun_ext}
use network_file_system.Base.{◌≡◌, Option, none, some, ◌∷◌, ◌++◌, arith, ◌==◌, if◌then◌else◌}
use network_file_system.LruCache.State.{Ptr, null, LruCacheNode, write}
use network_file_system.LruCache.Shape.{
  Cell, Cells, node_of, first, last, layout, Distinct, not-has-null, has-first, has-last,
  Distinct-append, layout-none, layout-append, with_next, with_prev, layout_next, layout_prev,
}

abbrev pub Memory : Type 0
Memory = Ptr → Option LruCacheNode

abbrev pub patch_next : Ptr → Ptr → Memory → Memory
patch_next p q h a = if a == p then with_next q (h a) else h a

abbrev pub patch_prev : Ptr → Ptr → Memory → Memory
patch_prev p q h a = if a == p then with_prev q (h a) else h a

-- The memory of the list, and the cell that is out of it.
abbrev pub beside : Cell → Ptr → Ptr → Memory → Memory
beside x p q h a = if a == x.ptr then some (node_of x p q) else h a

pub patch_next_twice :
    (p q : Ptr) (h : Memory) → patch_next p q (patch_next p q h) ≡ patch_next p q h
patch_next_twice p q h = fun_ext λ a. ground arith

module _ (xs : Cells) (x : Cell) (ys : Cells) (d : Distinct (xs ++ x ∷ ys)) where
  relink_at :
      (a : Ptr)
      → patch_prev
          (first ys null)
          (last null xs)
          (patch_next (last null xs) (first ys null) (layout null (xs ++ x ∷ ys) null))
          a
        ≡ beside x (last null xs) (first ys null) (layout null (xs ++ ys) null) a
  relink_at a =
      let (dx, dxy, apart) = Distinct-append xs (x ∷ ys) d in
      rw (layout-append null xs (x ∷ ys) null a, layout-append null xs ys null a)
        (ground (
          arith,
          apart a,
          apart (first ys null),
          apart (last null xs),
          layout-none x.ptr ys null a,
          layout_next null xs x.ptr (first ys null) a dx,
          layout_prev x.ptr (last null xs) ys null a,
          has-last null xs,
          has-first ys null,
          not-has-null xs dx,
          not-has-null ys dxy.2,
        ))

  -- To link the neighbours of `x` to one another takes `x` out of the list.
  pub relink :
      patch_prev
        (first ys null)
        (last null xs)
        (patch_next (last null xs) (first ys null) (layout null (xs ++ x ∷ ys) null))
      ≡ beside x (last null xs) (first ys null) (layout null (xs ++ ys) null)
  relink = fun_ext relink_at

pub patch_prev-null : (p : Ptr) (h : Memory) → h null ≡ none → patch_prev null p h ≡ h
patch_prev-null p h e = fun_ext λ a. ground (arith)

module _ (x : Cell) (cs : Cells) (d : Distinct (x ∷ cs)) where
  link_first_at :
      (p q a : Ptr)
      → patch_prev
          (first cs null)
          x.ptr
          (patch_next x.ptr
            (first cs null)
            (patch_prev x.ptr null (beside x p q (layout null cs null))))
          a
        ≡ layout null (x ∷ cs) null a
  link_first_at p q a = ground (
    arith,
    layout-none null cs null a,
    layout_prev null x.ptr cs null a,
    not-has-null cs d.2,
    has-first cs null,
  )

  -- To link `x` before the first cell, whatever its own links were, puts it at the front.
  pub link_first :
      (p q : Ptr)
      → patch_prev (first cs null) x.ptr (
          patch_next x.ptr
            (first cs null)
            (patch_prev x.ptr null (beside x p q (layout null cs null))))
        ≡ layout null (x ∷ cs) null
  link_first p q = fun_ext (link_first_at p q)

  -- To give the cell beside the list back leaves the list.
  pub give_back :
      (p q : Ptr) → write (beside x p q (layout null cs null)) x.ptr none ≡ layout null cs null
  give_back p q = fun_ext λ a. ground (arith, layout-none null cs null a)
