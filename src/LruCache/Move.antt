-- ===== src/LruCache/Move.antt =====
-- `move_to_front` of lru_cache.c on a well-linked list.
use mathlib.Core.List.{append-nil}
use network_file_system.Base.{
  ℕ, suc, ◌≡◌, refl, sym, ap, subst, ◌∙◌, true, false, [], ◌∷◌, ◌++◌, arith, ◌==◌, length,
  length-append,
}
use network_file_system.LruCache.{leave_tail, push_front, move_to_front}
use network_file_system.LruCache.State.{Ptr, null, LruCache, ok}
use network_file_system.LruCache.Shape.{
  Cell, Cells, node_of, first, last, layout, Distinct, Distinct-append, has-append, has-last,
  last-append,
}
use network_file_system.LruCache.Relink.{patch_next, beside}
use network_file_system.LruCache.Memory.{load_lem, guarded_next, layout-middle}
use network_file_system.LruCache.Spec.{Slots, repr, without, without-middle}
use network_file_system.LruCache.Steps.{
  push_front_lem, ne_null, null_free, before_good, unlink_middle, unlink_patched,
}

pub Distinct-middle :
    (xs : Cells) (x : Cell) (ys : Cells) → Distinct (xs ++ x ∷ ys) → Distinct (x ∷ xs ++ ys)
Distinct-middle [] x ys d = d
Distinct-middle (z ∷ xs) x ys d =
    let (ne, out, rest) = Distinct-middle xs x ys d.2 in
    let away = has-append z.ptr xs (x ∷ ys) in
    (ne, ground (arith, away), (d.0, ground (arith, away, has-append z.ptr xs ys), rest))

pub length-middle :
    (xs : Cells) (x : Cell) (ys : Cells) → length (xs ++ x ∷ ys) ≡ suc (length (xs ++ ys))
length-middle xs x ys = omega (arith, length-append xs (x ∷ ys), length-append xs ys)

-- `push_front` puts a node that is beside the list into it, where the other fields are right.
pub push_front_at :
    (x : Cell) (cs : Cells) (p q : Ptr) (c : LruCache)
    → Distinct (x ∷ cs)
    → c.heap ≡ beside x p q (layout null cs null)
    → c.head ≡ first cs null
    → c.tail ≡ last null cs
    → push_front x.ptr c ≡ ok tt (record (repr (x ∷ cs) c.map) { count = c.count })
push_front_at x cs p q c d e h t =
    ap (push_front x.ptr)
      (λ i. record { heap = e i; head = h i; tail = t i; map = c.map; count = c.count })
    ∙ push_front_lem x cs p q c.map c.count d

with_count :
    (cs : Cells) (m : Slots) (n : ℕ)
    → n ≡ length cs
    → ok tt (record (repr cs m) { count = n }) ≡ ok tt (repr cs m)
with_count cs m n e = ap (λ k. ok tt (record (repr cs m) { count = k })) e

module _ (z : Cell) (zs : Cells) (x : Cell) (m : Slots) where
  leave_tail-last :
      (d : Distinct ((z ∷ zs) ++ x ∷ []))
      → leave_tail x.ptr (repr ((z ∷ zs) ++ x ∷ []) m)
        ≡ ok tt (record (repr ((z ∷ zs) ++ x ∷ []) m) {
          heap = patch_next (last null (z ∷ zs)) null (layout null ((z ∷ zs) ++ x ∷ []) null);
          tail = last null (z ∷ zs);
        })
  unfolding leave_tail
  leave_tail-last d =
      let c0 = repr ((z ∷ zs) ++ x ∷ []) m in
      let w = last null (z ∷ zs) in
      let at_end : (x.ptr == c0.tail) ≡ true = ground (arith, last-append null (z ∷ zs) (x ∷ [])) in
      rw (
        at_end,
        load_lem x.ptr c0 (node_of x w null) (layout-middle (z ∷ zs) x [] d)
            (ne_null (z ∷ zs) x [] d),
        guarded_next w null (record c0 { tail = w }) (before_good (z ∷ zs) x [] d)
            (null_free (z ∷ zs) x [] d),
      )

  leave_tail_inner :
      (v : Cell) (vs : Cells)
      → Distinct ((z ∷ zs) ++ x ∷ v ∷ vs)
      → leave_tail x.ptr (repr ((z ∷ zs) ++ x ∷ v ∷ vs) m) ≡ ok tt (repr ((z ∷ zs) ++ x ∷ v ∷ vs) m)
  unfolding leave_tail
  leave_tail_inner v vs d = ground (
    arith,
    last-append null (z ∷ zs) (x ∷ v ∷ vs),
    has-last x.ptr (v ∷ vs),
    (Distinct-append (z ∷ zs) (x ∷ v ∷ vs) d).1.1,
  )

  away_from_head : (ys : Cells) → Distinct ((z ∷ zs) ++ x ∷ ys) → (x.ptr == z.ptr) ≡ false
  away_from_head ys d = ground (arith, has-append z.ptr zs (x ∷ ys))

  move_last :
      Distinct ((z ∷ zs) ++ x ∷ [])
      → move_to_front x.ptr (repr ((z ∷ zs) ++ x ∷ []) m) ≡ ok tt (repr (x ∷ (z ∷ zs) ++ []) m)
  unfolding move_to_front
  move_last d =
      let c0 = repr ((z ∷ zs) ++ x ∷ []) m in
      let w = last null (z ∷ zs) in
      let c1 = record c0 { heap = patch_next w null c0.heap; tail = w } in
      rw (away_from_head [] d, leave_tail-last d, unlink_patched (z ∷ zs) x [] d c1 refl)
        (push_front_at x ((z ∷ zs) ++ []) w null
            (record c1 { heap = beside x w null (layout null ((z ∷ zs) ++ []) null) })
            (Distinct-middle (z ∷ zs) x [] d) refl refl (sym (ap (last null) (append-nil (z ∷ zs))))
          ∙ with_count (x ∷ (z ∷ zs) ++ []) m c0.count (length-middle (z ∷ zs) x []))

  move_inner :
      (v : Cell) (vs : Cells)
      → Distinct ((z ∷ zs) ++ x ∷ v ∷ vs)
      → move_to_front x.ptr (repr ((z ∷ zs) ++ x ∷ v ∷ vs) m)
        ≡ ok tt (repr (x ∷ (z ∷ zs) ++ v ∷ vs) m)
  unfolding move_to_front
  move_inner v vs d =
      let c0 = repr ((z ∷ zs) ++ x ∷ v ∷ vs) m in
      let w = last null (z ∷ zs) in
      rw
        (
          away_from_head (v ∷ vs) d,
          leave_tail_inner v vs d,
          unlink_middle (z ∷ zs) x (v ∷ vs) d c0 refl,
        )
        (push_front_at x ((z ∷ zs) ++ v ∷ vs) w v.ptr
            (record c0 { heap = beside x w v.ptr (layout null ((z ∷ zs) ++ v ∷ vs) null) })
            (Distinct-middle (z ∷ zs) x (v ∷ vs) d) refl refl
            (last-append null (z ∷ zs) (x ∷ v ∷ vs) ∙ sym (last-append null (z ∷ zs) (v ∷ vs)))
          ∙ with_count (x ∷ (z ∷ zs) ++ v ∷ vs) m c0.count (length-middle (z ∷ zs) x (v ∷ vs)))

-- `move_to_front` makes a cell of the list its first and keeps the order of the others.
pub move_to_front_lem :
    (xs : Cells) (x : Cell) (ys : Cells) (m : Slots)
    → Distinct (xs ++ x ∷ ys)
    → move_to_front x.ptr (repr (xs ++ x ∷ ys) m) ≡ ok tt (repr (x ∷ xs ++ ys) m)
unfolding move_to_front
move_to_front_lem [] x ys m d = ground arith
move_to_front_lem (z ∷ zs) x [] m d = move_last z zs x m d
move_to_front_lem (z ∷ zs) x (v ∷ vs) m d = move_inner z zs x m v vs d

pub move_cell :
    (cs xs : Cells) (x : Cell) (ys : Cells) (m : Slots)
    → cs ≡ xs ++ x ∷ ys
    → Distinct cs
    → move_to_front x.ptr (repr cs m) ≡ ok tt (repr (x ∷ without x.ptr cs) m)
move_cell cs xs x ys m e d =
    let d' : Distinct (xs ++ x ∷ ys) = subst Distinct e d in
    rw (e, without-middle xs x ys d') (move_to_front_lem xs x ys m d')
