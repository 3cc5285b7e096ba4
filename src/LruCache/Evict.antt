-- ===== src/LruCache/Evict.antt =====
-- `lru_put`'s eviction of the last node against the list of cells.
use network_file_system.Base.{
  ℕ, ◌-◌, ◌≡◌, refl, sym, ap, subst, ◌∙◌, Bool, true, false, ◌⊎◌, inl, inr, Option, none, some, [],
  ◌∷◌, ◌++◌, arith, Bool-cases, ◌==◌, if◌then◌else◌, length, length-append,
}
use mathlib.Core.List.{append-nil}
use network_file_system.LruCache.{lru_cache_size, hash_path, evict, evict_tail}
use network_file_system.LruCache.State.{Ptr, null, LruCache, ok, pure, write, set_map, unless_null}
use network_file_system.LruCache.Shape.{Cell, Cells, node_of, last, layout, Distinct, last-append}
use network_file_system.LruCache.Relink.{Memory, patch_next, relink, patch_prev-null, give_back}
use network_file_system.LruCache.Memory.{load_lem, guarded_next, free_lem, layout-middle, with_heap}
use network_file_system.LruCache.Spec.{Slots, repr, without, without-middle, Distinct-without}
use network_file_system.LruCache.Steps.{ne_null, before_ne, before_good, null_free}
use network_file_system.LruCache.Move.{Distinct-middle}
use network_file_system.LruCache.Remove.{redirect}

-- The cell at the end of the list, which `tail` points to.
abbrev pub last_cell : Cells → Option Cell
last_cell [] = none
last_cell (c ∷ []) = some c
last_cell (c ∷ d ∷ cs) = last_cell (d ∷ cs)

abbrev pub evicted : Option Cell → Cells → Slots → Cells × Slots
evicted none cs m = (cs, m)
evicted (some x) cs m =
    (without x.ptr cs, redirect (m (hash_path x.path) == x.ptr) (hash_path x.path) null m)

-- A full cache loses its last cell, and the slot of that cell if it points to it.
abbrev pub evict_spec : Cells → Slots → Cells × Slots
evict_spec cs m = if length cs == lru_cache_size then evicted (last_cell cs) cs m else (cs, m)

Distinct-evicted :
    (o : Option Cell) (cs : Cells) (m : Slots) → Distinct cs → Distinct (evicted o cs m).0
Distinct-evicted none cs m d = d
Distinct-evicted (some x) cs m d = Distinct-without x.ptr cs d

pub last_split :
    (cs : Cells)
    → (cs ≡ []) ⊎ ((xs : Cells) × (x : Cell) × (cs ≡ xs ++ x ∷ []) × (last_cell cs ≡ some x))
last_split [] = inl refl
last_split (c ∷ []) = inr ([], c, refl, refl)
last_split (c ∷ d ∷ cs) = elim (last_split (d ∷ cs)) [
  | inl e ↦ inl cc
  | inr (xs, x, e, l) ↦ inr (c ∷ xs, x, ap (◌∷◌ c) e, l)
]

slot_if :
    (b : Bool) (k : ℕ) (c : LruCache)
    → (if b then set_map k null else pure tt) c ≡ ok tt (record c { map = redirect b k null c.map })
slot_if true k c = refl
slot_if false k c = refl

-- The memory after the last node is unlinked and freed.
evicted_memory :
    (xs : Cells) (x : Cell)
    → Distinct (xs ++ x ∷ [])
    → write (patch_next (last null xs) null (layout null (xs ++ x ∷ []) null)) x.ptr none
      ≡ layout null xs null
evicted_memory xs x d =
    let w = last null xs in
    let unlinked = patch_next w null (layout null (xs ++ x ∷ []) null) in
    ap (λ (h : Memory). write h x.ptr none)
      (sym (patch_prev-null w unlinked (ground (arith, null_free xs x [] d))) ∙ relink xs x [] d)
    ∙ give_back x (xs ++ []) (Distinct-middle xs x [] d) w null
    ∙ ap (λ l. layout null l null) (append-nil xs)

module _ (z : Cell) (zs : Cells) (x : Cell) (m : Slots) (d : Distinct ((z ∷ zs) ++ x ∷ [])) where
  evict_tail_lem :
      evict_tail x.ptr (repr ((z ∷ zs) ++ x ∷ []) m)
      ≡ ok tt (repr (z ∷ zs) (redirect (m (hash_path x.path) == x.ptr) (hash_path x.path) null m))
  unfolding evict_tail
  evict_tail_lem =
      let c0 = repr ((z ∷ zs) ++ x ∷ []) m in
      let w = last null (z ∷ zs) in
      let k = hash_path x.path in
      let c1 = record c0 { map = redirect (m k == x.ptr) k null m } in
      let c2 = record c1 { tail = w } in
      let c3 = with_heap c2 (patch_next w null c2.heap) in
      let fewer : c0.count - 1 ≡ length (z ∷ zs) = omega (arith, length-append (z ∷ zs) (x ∷ [])) in
      rw
        (
          load_lem x.ptr c0 (node_of x w null) (layout-middle (z ∷ zs) x [] d)
              (ne_null (z ∷ zs) x [] d),
          slot_if (m k == x.ptr) k c0,
          guarded_next w null c2 (before_good (z ∷ zs) x [] d) (null_free (z ∷ zs) x [] d),
          free_lem x.ptr c3
              (ground (arith, layout-middle (z ∷ zs) x [] d, before_ne (z ∷ zs) x [] d))
              (ne_null (z ∷ zs) x [] d),
        )
        (λ i. ok tt (record c3 { heap = evicted_memory (z ∷ zs) x d i; count = fewer i }))

abbrev Evicts : Cells → Slots → Type 0
Evicts cs m = evict (repr cs m) ≡ ok tt (repr (evict_spec cs m).0 (evict_spec cs m).1)

evict_full :
    (z : Cell) (zs : Cells) (x : Cell) (m : Slots)
    → Distinct ((z ∷ zs) ++ x ∷ [])
    → (length ((z ∷ zs) ++ x ∷ []) == lru_cache_size) ≡ true
    → last_cell ((z ∷ zs) ++ x ∷ []) ≡ some x
    → Evicts ((z ∷ zs) ++ x ∷ []) m
unfolding evict
evict_full z zs x m d full l =
    let at_end : last null ((z ∷ zs) ++ x ∷ []) ≡ x.ptr = last-append null (z ∷ zs) (x ∷ []) in
    let here : (x.ptr == null) ≡ false = ground (arith, ne_null (z ∷ zs) x [] d) in
    let c0 = repr ((z ∷ zs) ++ x ∷ []) m in
    rw full (
      ap (λ (p : Ptr). unless_null p (evict_tail p) c0) at_end
      ∙ rw (here, evict_tail_lem z zs x m d, l, without-middle (z ∷ zs) x [] d)
          (ap
            (λ (cs : Cells).
              ok tt (repr cs (redirect (m (hash_path x.path) == x.ptr) (hash_path x.path) null m)))
            (sym (append-nil (z ∷ zs)))))

evict_at :
    (cs xs : Cells) (x : Cell) (m : Slots)
    → Distinct cs
    → (length cs == lru_cache_size) ≡ true
    → cs ≡ xs ++ x ∷ []
    → last_cell cs ≡ some x
    → Evicts cs m
evict_at cs [] x m d full e l = absurd (ground (arith, ap length e))
evict_at cs (z ∷ zs) x m d full e l =
    subst (λ l. Evicts l m) (sym e)
      (evict_full z zs x m (subst Distinct e d)
        (subst (λ l. (length l == lru_cache_size) ≡ true) e full)
        (subst (λ l. last_cell l ≡ some x) e l))

-- `lru_put`'s eviction does what `evict_spec` says.
pub evict_lem : (cs : Cells) (m : Slots) → Distinct cs → Evicts cs m
unfolding evict
evict_lem cs m d = elim (Bool-cases (length cs == lru_cache_size)) [
  | inr room ↦ rw room
  | inl full ↦ elim (last_split cs) [
    | inl e ↦ absurd (ground (arith, ap length e))
    | inr (xs, x, e, l) ↦ evict_at cs xs x m d full e l
  ]
]

pub Distinct-evict : (cs : Cells) (m : Slots) → Distinct cs → Distinct (evict_spec cs m).0
Distinct-evict cs m d = elim (Bool-cases (length cs == lru_cache_size)) [
  | inr room ↦ rw room d
  | inl full ↦ rw full (Distinct-evicted (last_cell cs) cs m d)
]
