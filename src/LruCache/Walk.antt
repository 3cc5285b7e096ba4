-- ===== src/LruCache/Walk.antt =====
-- The search of lru_cache.c: the walk from a slot of the table along `next`.
use network_file_system.Base.{
  ℕ, zero, suc, ◌+◌, ◌≤◌, ◌<◌, ◌≡◌, ◌≢◌, refl, sym, ap, subst, ◌∙◌, true, false, ◌||◌, ◌⊎◌, inl,
  inr, none, some, [], ◌∷◌, ◌++◌, arith, Bool-cases, ◌==◌, if◌then◌else◌, same, length,
}
use mathlib.Core.List.{append_assoc}
use network_file_system.Common.{FilePath}
use network_file_system.LruCache.{walk, lookup, hash_path}
use network_file_system.LruCache.State.{Ptr, null, LruCache, ok}
use network_file_system.LruCache.Shape.{
  Cell, Cells, node_of, first, last, has, layout, Distinct, Distinct-append, has-append,
  last-append,
}
use network_file_system.LruCache.Relink.{Memory}
use network_file_system.LruCache.Memory.{load_lem}
use network_file_system.LruCache.Spec.{Slots, repr, suffix_from, find}

-- Every cell is in the memory, with the address of the one behind it.
abbrev Chain : Memory → Cells → Type 0
Chain h [] = Unit {0}
Chain h (c ∷ cs) =
    (c.ptr ≢ null) × ((p : Ptr) × (h c.ptr ≡ some (node_of c p (first cs null)))) × Chain h cs

layout-Chain :
    (h : Memory) (p : Ptr) (cs : Cells)
    → ((a : Ptr) → has a cs ≡ true → h a ≡ layout p cs null a)
    → Distinct cs
    → Chain h cs
layout-Chain h p [] e d = tt
layout-Chain h p (c ∷ cs) e d = (
  d.0,
  (p, e c.ptr (ground arith) ∙ ground arith),
  layout-Chain h c.ptr cs (λ a i. e a (ground arith) ∙ ground arith) d.2,
)

suffix-Chain : (h : Memory) (p : Ptr) (cs : Cells) → Chain h cs → Chain h (suffix_from p cs)
suffix-Chain h p [] l = tt
suffix-Chain h p (c ∷ cs) l = elim (Bool-cases (c.ptr == p)) [
  | inl hit ↦ rw hit l
  | inr miss ↦ rw miss (suffix-Chain h p cs l.2)
]

-- What the walk returns: the address before the cell that it stops at, and that cell's.
abbrev pub stop : FilePath → Ptr → Cells → Ptr × Ptr
stop path before [] = (before, null)
stop path before (c ∷ cs) = if same c.path path then (before, c.ptr) else stop path c.ptr cs

walk_lem :
    (fuel : ℕ) (path : FilePath) (before : Ptr) (cs : Cells) (c : LruCache)
    → Chain c.heap cs
    → length cs < fuel
    → walk fuel path before (first cs null) c ≡ ok (stop path before cs) c
unfolding walk
walk_lem zero path before cs c l h = absurd (omega arith)
walk_lem (suc fuel) path before [] c l h = refl
walk_lem (suc fuel) path before (x ∷ cs) c (ne, (p, e), l) h =
    let here : (x.ptr == null) ≡ false = ground arith in
    rw (here, load_lem x.ptr c (node_of x p (first cs null)) e ne)
      (elim (Bool-cases (same x.path path)) [
        | inl hit ↦ rw hit
        | inr miss ↦ rw miss (walk_lem fuel path x.ptr cs c l (omega arith))
      ])

first-suffix :
    (p : Ptr) (cs : Cells) → ((p == null) || has p cs) ≡ true → first (suffix_from p cs) null ≡ p
first-suffix p [] h = ground arith
first-suffix p (c ∷ cs) h = ground (arith, first-suffix p cs)

length-suffix : (p : Ptr) (cs : Cells) → length (suffix_from p cs) ≤ length cs
length-suffix p [] = omega arith
length-suffix p (c ∷ cs) = ground (arith, length-suffix p cs)

-- A search whose slot is empty or leads into the list ends, and stops where the cells say.
pub lookup_lem :
    (path : FilePath) (cs : Cells) (m : Slots)
    → Distinct cs
    → ((m (hash_path path) == null) || has (m (hash_path path)) cs) ≡ true
    → lookup path (repr cs m)
      ≡ ok (stop path null (suffix_from (m (hash_path path)) cs)) (repr cs m)
unfolding lookup
lookup_lem path cs m d live =
    let p = m (hash_path path) in
    ap (λ q. walk (length cs + 1) path null q (repr cs m)) (sym (first-suffix p cs live))
    ∙ walk_lem (length cs + 1) path null (suffix_from p cs) (repr cs m)
        (suffix-Chain (layout null cs null) p cs
          (layout-Chain (layout null cs null) null cs (λ a i. refl) d))
        (omega (arith, length-suffix p cs))

-- Where the search stops: at nothing, or at a cell of the list; if no node stands before it on the
-- walk, then the slot points to it, and else the node before it in the list does.
pub data Stops (path : FilePath) (p : Ptr) (cs : Cells) : Type 0 where
  missed :
      ((stop path null (suffix_from p cs)).1 ≡ null)
      → find path (suffix_from p cs) ≡ none
      → Stops path p cs
  slot_found :
      (xs : Cells) (x : Cell) (ys : Cells)
      → cs ≡ xs ++ x ∷ ys
      → stop path null (suffix_from p cs) ≡ (null, x.ptr)
      → find path (suffix_from p cs) ≡ some x
      → x.ptr ≡ p
      → Stops path p cs
  chain_found :
      (z : Cell) (zs : Cells) (x : Cell) (ys : Cells)
      → cs ≡ (z ∷ zs) ++ x ∷ ys
      → stop path null (suffix_from p cs) ≡ (last null (z ∷ zs), x.ptr)
      → find path (suffix_from p cs) ≡ some x
      → x.ptr ≢ p
      → Stops path p cs

suffix-split : (p : Ptr) (cs : Cells) → (xs : Cells) × (cs ≡ xs ++ suffix_from p cs)
suffix-split p [] = ([], refl)
suffix-split p (c ∷ cs) = elim (Bool-cases (c.ptr == p)) [
  | inl hit ↦ ([], rw hit)
  | inr miss ↦ let (xs, e) = suffix-split p cs in (c ∷ xs, rw miss (ap (◌∷◌ c) e))
]

abbrev StopsIn : FilePath → Ptr → Cells → Type 0
StopsIn path before cs =
    ((stop path before cs).1 ≡ null) × (find path cs ≡ none)
    ⊎ ((zs : Cells) × (x : Cell) × (ys : Cells) × (cs ≡ zs ++ x ∷ ys)
        × (stop path before cs ≡ (last before zs, x.ptr))
        × (find path cs ≡ some x))

stop-split : (path : FilePath) (before : Ptr) (cs : Cells) → StopsIn path before cs
stop-split path before [] = inl (refl, refl)
stop-split path before (c ∷ cs) = elim (Bool-cases (same c.path path)) [
  | inl hit ↦ inr ([], c, cs, refl, rw hit, rw hit)
  | inr miss ↦ elim (stop-split path c.ptr cs) [
    | inl (s, f) ↦ inl (rw miss s, rw miss f)
    | inr (zs, x, ys, e, s, f) ↦ inr (c ∷ zs, x, ys, ap (◌∷◌ c) e, rw miss s, rw miss f)
  ]
]

suffix-first :
    (p : Ptr) (cs : Cells) (x : Cell) (ys : Cells) → suffix_from p cs ≡ x ∷ ys → x.ptr ≡ p
suffix-first p [] x ys e = cc
suffix-first p (c ∷ cs) x ys e = ground (arith, suffix-first p cs x ys)

chain_behind :
    (path : FilePath) (p : Ptr) (cs us : Cells) (z : Cell) (zs : Cells) (x : Cell) (ys : Cells)
    → cs ≡ us ++ ((z ∷ zs) ++ x ∷ ys)
    → stop path null (suffix_from p cs) ≡ (last null (z ∷ zs), x.ptr)
    → find path (suffix_from p cs) ≡ some x
    → x.ptr ≢ p
    → Stops path p cs
chain_behind path p cs [] z zs x ys e s f ne = chain_found z zs x ys e s f ne
chain_behind path p cs (u ∷ us) z zs x ys e s f ne =
    chain_found u (us ++ z ∷ zs) x ys (e ∙ ap (◌∷◌ u) (sym (append_assoc us (z ∷ zs) (x ∷ ys))))
      (s ∙ ap (λ (b : Ptr). (b, x.ptr)) (sym (last-append u.ptr us (z ∷ zs)))) f ne

-- The cell that a walk finds behind the slot's cell is another one.
behind_slot_ne :
    (p : Ptr) (cs us : Cells) (z : Cell) (zs : Cells) (x : Cell) (ys : Cells)
    → Distinct cs
    → cs ≡ us ++ suffix_from p cs
    → suffix_from p cs ≡ (z ∷ zs) ++ x ∷ ys
    → x.ptr ≢ p
behind_slot_ne p cs us z zs x ys d e e' =
    let d' : Distinct (us ++ ((z ∷ zs) ++ x ∷ ys)) = subst Distinct (e ∙ ap (◌++◌ us) e') d in
    let here : z.ptr ≡ p = suffix-first p cs z (zs ++ x ∷ ys) e' in
    ground (arith, (Distinct-append us ((z ∷ zs) ++ x ∷ ys) d').1.1, has-append z.ptr zs (x ∷ ys))

pub stops : (path : FilePath) (p : Ptr) (cs : Cells) → Distinct cs → Stops path p cs
stops path p cs d =
    let (us, e) = suffix-split p cs in
    elim (stop-split path null (suffix_from p cs)) [
      | inl (s, f) ↦ missed s f
      | inr ([], x, ys, e', s, f) ↦
          slot_found us x ys (e ∙ ap (◌++◌ us) e') s f (suffix-first p cs x ys e')
      | inr (z ∷ zs, x, ys, e', s, f) ↦
          chain_behind path p cs us z zs x ys (e ∙ ap (◌++◌ us) e') s f
            (behind_slot_ne p cs us z zs x ys d e e')
    ]
