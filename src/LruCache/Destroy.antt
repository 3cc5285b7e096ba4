-- ===== src/LruCache/Destroy.antt =====
-- `lru_destroy` against the list of cells.
use mathlib.Core.Path.{fun_ext}
use native.Mathlib.Numerals.{add-one}
use network_file_system.Base.{◌≡◌, refl, false, none, some, [], ◌∷◌, arith, suc, ◌==◌, length}
use network_file_system.LruCache.{destroy_loop, lru_destroy}
use network_file_system.LruCache.State.{Ptr, null, LruCache, ok, write}
use network_file_system.LruCache.Shape.{
  Cell, Cells, node_of, first, has, layout, Distinct, layout-none,
}
use network_file_system.LruCache.Memory.{with_heap, load_lem, free_lem}
use network_file_system.LruCache.Spec.{Slots, repr}

-- A list less its first node is the memory of the rest.
layout-free :
    (p : Ptr) (c : Cell) (cs : Cells)
    → has c.ptr cs ≡ false
    → write (layout p (c ∷ cs) null) c.ptr none ≡ layout c.ptr cs null
layout-free p c cs apart = fun_ext (λ a. ground (arith, layout-none c.ptr cs null c.ptr apart))

-- The loop frees the nodes of a list, in order, and ends with no node left.
destroy_loop-layout :
    (p : Ptr) (cs : Cells) (d : LruCache)
    → Distinct cs
    → destroy_loop (suc (length cs)) (first cs null) (with_heap d (layout p cs null))
      ≡ ok tt (with_heap d (λ _. none))
unfolding destroy_loop
destroy_loop-layout p [] d v = refl
destroy_loop-layout p (c ∷ cs) d v =
    let h = layout p (c ∷ cs) null in
    let there : (c.ptr == null) ≡ false = ground arith in
    let held : h c.ptr ≡ some (node_of c p (first cs null)) = ground arith in
    rw
      (
        there,
        load_lem c.ptr (with_heap d h) (node_of c p (first cs null)) held v.0,
        free_lem c.ptr (with_heap d h) (ground arith) v.0,
        layout-free p c cs v.1,
      )
      (destroy_loop-layout c.ptr cs d v.2)

-- `lru_destroy` frees every node of a well-linked cache, each once, and leaves the empty cache with
-- an empty table; its loop ends.
pub destroy_refines :
    (cs : Cells) (m : Slots) → Distinct cs → lru_destroy (repr cs m) ≡ ok tt (repr [] (λ _. null))
unfolding lru_destroy
destroy_refines cs m d = rw add-one (rw (destroy_loop-layout null cs (repr cs m) d) refl)
