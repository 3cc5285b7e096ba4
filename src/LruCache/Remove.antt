-- ===== src/LruCache/Remove.antt =====
-- `lru_remove` against the list of cells.
use network_file_system.Base.{
  ℕ, ◌-◌, ◌≡◌, refl, sym, ap, subst, ◌∙◌, Bool, true, false, none, some, Option, [], ◌∷◌, ◌++◌,
  arith, ◌==◌, if◌then◌else◌, length,
}
use mathlib.Core.List.{append-nil}
use network_file_system.Common.{FilePath}
use network_file_system.LruCache.{lru_remove, lookup, hash_path, unlink, leave_ends}
use network_file_system.LruCache.State.{
  Ptr, null, LruCache, Cmd, ok, pure, ◌>>◌, free, set_head, set_tail, set_count, with_cache,
}
use network_file_system.LruCache.Shape.{
  Cell, Cells, node_of, first, last, layout, Distinct, Distinct-append, has-append, has-last,
  last-append, not-has-null,
}
use network_file_system.LruCache.Relink.{patch_next, beside, give_back}
use network_file_system.LruCache.Memory.{load_lem, next_lem, free_lem, layout-middle, with_heap}
use network_file_system.LruCache.Spec.{Slots, repr, suffix_from, without, is_live, without-middle}
use network_file_system.LruCache.Walk.{missed, slot_found, chain_found, stop, lookup_lem, stops}
use network_file_system.LruCache.Steps.{ne_null, before_good, unlink_middle, unlink_patched}
use network_file_system.LruCache.Move.{Distinct-middle, length-middle}
use network_file_system.LruCache.Get.{cached}

-- The address behind the cell at `p`.
abbrev pub behind : Ptr → Cells → Ptr
behind p [] = null
behind p (c ∷ cs) = if c.ptr == p then first cs null else behind p cs

pub behind-middle :
    (xs : Cells) (x : Cell) (ys : Cells)
    → Distinct (xs ++ x ∷ ys)
    → behind x.ptr (xs ++ x ∷ ys) ≡ first ys null
behind-middle [] x ys d = ground arith
behind-middle (z ∷ xs) x ys d =
    let other : (z.ptr == x.ptr) ≡ false = ground (arith, has-append z.ptr xs (x ∷ ys)) in
    rw other (behind-middle xs x ys d.2)

new_head :
    (xs : Cells) (x : Cell) (ys : Cells)
    → Distinct (xs ++ x ∷ ys)
    → (if x.ptr == first (xs ++ x ∷ ys) null then first ys null else first (xs ++ x ∷ ys) null)
      ≡ first (xs ++ ys) null
new_head [] x ys d = ground arith
new_head (z ∷ zs) x ys d = ground (arith, has-append z.ptr zs (x ∷ ys))

new_tail :
    (xs : Cells) (x : Cell) (ys : Cells)
    → Distinct (xs ++ x ∷ ys)
    → (if x.ptr == last null (xs ++ x ∷ ys) then last null xs else last null (xs ++ x ∷ ys))
      ≡ last null (xs ++ ys)
new_tail xs x [] d = rw (append-nil xs) (ground (arith, last-append null xs (x ∷ [])))
new_tail xs x (v ∷ vs) d = ground (
  arith,
  last-append null xs (x ∷ v ∷ vs),
  last-append null xs (v ∷ vs),
  has-last x.ptr (v ∷ vs),
  (Distinct-append xs (x ∷ v ∷ vs) d).1.1,
)

head_if :
    (b : Bool) (p : Ptr) (c : LruCache)
    → (if b then set_head p else pure tt) c ≡ ok tt (record c { head = if b then p else c.head })
head_if true p c = refl
head_if false p c = refl

tail_if :
    (b : Bool) (p : Ptr) (c : LruCache)
    → (if b then set_tail p else pure tt) c ≡ ok tt (record c { tail = if b then p else c.tail })
tail_if true p c = refl
tail_if false p c = refl

-- `leave_ends` of a node beside the list gives the list its new ends.
leave_ends_lem :
    (xs : Cells) (x : Cell) (ys : Cells) (c : LruCache)
    → Distinct (xs ++ x ∷ ys)
    → c.heap ≡ beside x (last null xs) (first ys null) (layout null (xs ++ ys) null)
    → c.head ≡ first (xs ++ x ∷ ys) null
    → c.tail ≡ last null (xs ++ x ∷ ys)
    → leave_ends x.ptr c
      ≡ ok tt (record c { head = first (xs ++ ys) null; tail = last null (xs ++ ys) })
unfolding leave_ends
leave_ends_lem xs x ys c d e h t =
    let v = first ys null in
    let w = last null xs in
    let hd : (if x.ptr == c.head then v else c.head) ≡ first (xs ++ ys) null =
      rw h (new_head xs x ys d) in
    let tl : (if x.ptr == c.tail then w else c.tail) ≡ last null (xs ++ ys) =
      rw t (new_tail xs x ys d) in
    let c1 = record c { head = if x.ptr == c.head then v else c.head } in
    rw
      (
        load_lem x.ptr c (node_of x w v) (rw e (ground arith)) (ne_null xs x ys d),
        head_if (x.ptr == c.head) v c,
        tail_if (x.ptr == c.tail) w c1,
      )
      (λ i. ok tt (record c { head = hd i; tail = tl i }))

-- The writes that take `x` out, after the table or the node before has given it up.
abbrev leave : Ptr → Cmd (Unit {0})
leave p = do unlink p; leave_ends p; free p; with_cache (λ c. set_count (c.count - 1))

leave_from :
    (xs : Cells) (x : Cell) (ys : Cells) (c : LruCache)
    → Distinct (xs ++ x ∷ ys)
    → c.head ≡ first (xs ++ x ∷ ys) null
    → c.tail ≡ last null (xs ++ x ∷ ys)
    → c.count ≡ length (xs ++ x ∷ ys)
    → unlink x.ptr c
      ≡ ok tt (with_heap c (beside x (last null xs) (first ys null) (layout null (xs ++ ys) null)))
    → leave x.ptr c ≡ ok tt (repr (xs ++ ys) c.map)
leave_from xs x ys c d h t n u =
    let aside = beside x (last null xs) (first ys null) (layout null (xs ++ ys) null) in
    let c1 = record c { heap = aside; head = first (xs ++ ys) null; tail = last null (xs ++ ys) } in
    let fewer : c.count - 1 ≡ length (xs ++ ys) = omega (arith, length-middle xs x ys) in
    let back = give_back x (xs ++ ys) (Distinct-middle xs x ys d) (last null xs) (first ys null) in
    rw
      (
        u,
        leave_ends_lem xs x ys (with_heap c aside) d refl h t,
        free_lem x.ptr c1 (ground arith) (ne_null xs x ys d),
      )
      (λ i. ok tt (record c1 { heap = back i; count = fewer i }))

-- `map[k] = p`, if the flag says so.
abbrev pub redirect : Bool → ℕ → Ptr → Slots → Slots
redirect true k p m = λ i. if i == k then p else m i
redirect false k p m = m

abbrev pub remove_result : ℕ → Option Cell → Cells → Slots → Cells × Slots
remove_result k none cs m = (cs, m)
remove_result k (some x) cs m = (without x.ptr cs, redirect (x.ptr == m k) k (behind x.ptr cs) m)

-- The cells and the table afterwards: the cell that the search finds is out of the list, and if the
-- slot of the path pointed to it, the slot now points to the cell that stood behind it.
abbrev pub remove_spec : FilePath → Cells → Slots → Cells × Slots
remove_spec path cs m = remove_result (hash_path path) (cached path cs m) cs m

pub remove_result_at :
    (k : ℕ) (cs xs : Cells) (x : Cell) (ys : Cells) (m : Slots) (b : Bool)
    → cs ≡ xs ++ x ∷ ys
    → Distinct (xs ++ x ∷ ys)
    → (x.ptr == m k) ≡ b
    → remove_result k (some x) cs m ≡ (xs ++ ys, redirect b k (first ys null) m)
remove_result_at k cs xs x ys m b e d at = λ i. (
  (ap (without x.ptr) e ∙ without-middle xs x ys d) i,
  redirect (at i) k ((ap (behind x.ptr) e ∙ behind-middle xs x ys d) i) m,
)

remove_at_slot :
    (path : FilePath) (cs xs : Cells) (x : Cell) (ys : Cells) (m : Slots)
    → cs ≡ xs ++ x ∷ ys
    → Distinct (xs ++ x ∷ ys)
    → lookup path (repr cs m) ≡ ok (null, x.ptr) (repr cs m)
    → lru_remove path (repr cs m)
      ≡ ok tt (repr (xs ++ ys) (redirect true (hash_path path) (first ys null) m))
unfolding lru_remove
remove_at_slot path cs xs x ys m e d found =
    let here : (x.ptr == null) ≡ false = ground (arith, ne_null xs x ys d) in
    let c0 = repr (xs ++ x ∷ ys) m in
    let c1 = record c0 { map = redirect true (hash_path path) (first ys null) m } in
    rw
      (
        found,
        here,
        e,
        load_lem x.ptr c0 (node_of x (last null xs) (first ys null)) (layout-middle xs x ys d)
            (ne_null xs x ys d),
      )
      (leave_from xs x ys c1 d refl refl refl (unlink_middle xs x ys d c1 refl))

remove_chained :
    (path : FilePath) (cs : Cells) (z : Cell) (zs : Cells) (x : Cell) (ys : Cells) (m : Slots)
    → cs ≡ (z ∷ zs) ++ x ∷ ys
    → Distinct ((z ∷ zs) ++ x ∷ ys)
    → lookup path (repr cs m) ≡ ok (last null (z ∷ zs), x.ptr) (repr cs m)
    → lru_remove path (repr cs m) ≡ ok tt (repr ((z ∷ zs) ++ ys) m)
unfolding lru_remove
remove_chained path cs z zs x ys m e d found =
    let w = last null (z ∷ zs) in
    let here : (x.ptr == null) ≡ false = ground (arith, ne_null (z ∷ zs) x ys d) in
    let behind_z : (w == null) ≡ false = ground (
      arith,
      has-last null (z ∷ zs),
      not-has-null (z ∷ zs) (Distinct-append (z ∷ zs) (x ∷ ys) d).0,
    ) in
    let c0 = repr ((z ∷ zs) ++ x ∷ ys) m in
    let c1 = with_heap c0 (patch_next w (first ys null) c0.heap) in
    rw
      (
        found,
        here,
        e,
        load_lem x.ptr c0 (node_of x w (first ys null)) (layout-middle (z ∷ zs) x ys d)
            (ne_null (z ∷ zs) x ys d),
        behind_z,
        next_lem w (first ys null) c0 (ground (arith, before_good (z ∷ zs) x ys d)) (ground arith),
      )
      (leave_from (z ∷ zs) x ys c1 d refl refl refl (unlink_patched (z ∷ zs) x ys d c1 refl))

remove_missed :
    (path : FilePath) (cs : Cells) (m : Slots)
    → Distinct cs
    → is_live cs m (hash_path path) ≡ true
    → (stop path null (suffix_from (m (hash_path path)) cs)).1 ≡ null
    → cached path cs m ≡ none
    → lru_remove path (repr cs m) ≡ ok tt (repr (remove_spec path cs m).0 (remove_spec path cs m).1)
unfolding lru_remove
remove_missed path cs m d live s f = rw (lookup_lem path cs m d live, s, f)

-- On a list whose slot for the path is not dangling, `lru_remove` does what `remove_spec` says; it
-- frees the node, and no other, and changes nothing where the search finds none.
pub remove_refines :
    (path : FilePath) (cs : Cells) (m : Slots)
    → Distinct cs
    → is_live cs m (hash_path path) ≡ true
    → lru_remove path (repr cs m) ≡ ok tt (repr (remove_spec path cs m).0 (remove_spec path cs m).1)
remove_refines path cs m d live = elim (stops path (m (hash_path path)) cs d) [
  | missed s f ↦ remove_missed path cs m d live s f
  | slot_found xs x ys e s f at ↦
      let d' : Distinct (xs ++ x ∷ ys) = subst Distinct e d in
      remove_at_slot path cs xs x ys m e d' (rw (lookup_lem path cs m d live, s))
      ∙ ap (λ (r : Cells × Slots). ok tt (repr r.0 r.1))
          {x = (xs ++ ys, redirect true (hash_path path) (first ys null) m)}
          (rw f (sym (remove_result_at (hash_path path) cs xs x ys m true e d' (ground arith))))
  | chain_found z zs x ys e s f ne ↦
      let d' : Distinct ((z ∷ zs) ++ x ∷ ys) = subst Distinct e d in
      remove_chained path cs z zs x ys m e d' (rw (lookup_lem path cs m d live, s))
      ∙ ap (λ (r : Cells × Slots). ok tt (repr r.0 r.1)) {x = ((z ∷ zs) ++ ys, m)}
          (rw f
            (sym (remove_result_at (hash_path path) cs (z ∷ zs) x ys m false e d' (ground arith))))
]
