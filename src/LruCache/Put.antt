-- ===== src/LruCache/Put.antt =====
-- `lru_put` against the list of cells.
use network_file_system.Base.{
  ◌+◌, ◌≡◌, refl, sym, ap, subst, ◌∙◌, true, false, inl, inr, Option, none, some, [], ◌∷◌, ◌++◌,
  arith, Bool-cases, ◌==◌, if◌then◌else◌, length, length-append,
}
use mathlib.Core.Path.{fun_ext}
use network_file_system.Common.{FilePath}
use network_file_system.ServerInfo.{StorageServerInfo}
use network_file_system.LruCache.{lru_put, hash_path, lookup, add_entry}
use network_file_system.LruCache.State.{Ptr, null, ok, write, set_info}
use network_file_system.LruCache.Shape.{
  Cell, Cells, node_of, first, last, has, layout, Distinct, Distinct-append, has-append,
  last-append, layout-append,
}
use network_file_system.LruCache.Relink.{beside}
use network_file_system.LruCache.Memory.{load_lem, layout-middle, with_heap}
use network_file_system.LruCache.Spec.{Slots, repr, suffix_from, without, is_live, without-middle}
use network_file_system.LruCache.Walk.{missed, slot_found, chain_found, stop, lookup_lem, stops}
use network_file_system.LruCache.Steps.{ne_null}
use network_file_system.LruCache.Move.{move_to_front_lem, push_front_at}
use network_file_system.LruCache.Get.{cached}
use network_file_system.LruCache.Remove.{redirect}
use network_file_system.LruCache.Evict.{evict_spec, evict_lem, Distinct-evict}

-- The cell with another server's info.
abbrev pub with_info : StorageServerInfo → Cell → Cell
with_info info x = record x { ss_info = info }

Distinct-with_info :
    (info : StorageServerInfo) (xs : Cells) (x : Cell) (ys : Cells)
    → Distinct (xs ++ x ∷ ys)
    → Distinct (xs ++ with_info info x ∷ ys)
Distinct-with_info info [] x ys d = d
Distinct-with_info info (z ∷ xs) x ys d = (
  d.0,
  ground (arith, has-append z.ptr xs (x ∷ ys), has-append z.ptr xs (with_info info x ∷ ys)),
  Distinct-with_info info xs x ys d.2,
)

first-with_info :
    (info : StorageServerInfo) (xs : Cells) (x : Cell) (ys : Cells)
    → first (xs ++ x ∷ ys) null ≡ first (xs ++ with_info info x ∷ ys) null
first-with_info info [] x ys = refl
first-with_info info (z ∷ xs) x ys = refl

module _ (info : StorageServerInfo) (xs : Cells) (x : Cell) (ys : Cells) where
  layout-with_info :
      (a : Ptr)
      → Distinct (xs ++ x ∷ ys)
      → write
          (layout null (xs ++ x ∷ ys) null)
          x.ptr
          (some (node_of (with_info info x) (last null xs) (first ys null)))
          a
        ≡ layout null (xs ++ with_info info x ∷ ys) null a
  layout-with_info a d =
      let (_, _, apart) = Distinct-append xs (x ∷ ys) d in
      rw
        (
          layout-append null xs (x ∷ ys) null a,
          layout-append null xs (with_info info x ∷ ys) null a,
        )
        (ground (arith, apart a))

  same_tail : last null (xs ++ x ∷ ys) ≡ last null (xs ++ with_info info x ∷ ys)
  same_tail = last-append null xs (x ∷ ys) ∙ sym (last-append null xs (with_info info x ∷ ys))

  same_count : length (xs ++ x ∷ ys) ≡ length (xs ++ with_info info x ∷ ys)
  same_count = omega (arith, length-append xs (x ∷ ys), length-append xs (with_info info x ∷ ys))

  set_info_lem :
      (m : Slots)
      → Distinct (xs ++ x ∷ ys)
      → set_info x.ptr info (repr (xs ++ x ∷ ys) m) ≡ ok tt (repr (xs ++ with_info info x ∷ ys) m)
  unfolding set_info
  set_info_lem m d =
      let c0 = repr (xs ++ x ∷ ys) m in
      rw
        (load_lem x.ptr c0 (node_of x (last null xs) (first ys null)) (layout-middle xs x ys d)
          (ne_null xs x ys d))
        (λ i. ok tt (record {
          heap = fun_ext (λ a. layout-with_info a d) i;
          head = first-with_info info xs x ys i;
          tail = same_tail i;
          map = m;
          count = same_count i;
        }))

-- The cell of a new entry.
abbrev pub new_cell : Ptr → FilePath → StorageServerInfo → Cell
new_cell fresh path info = record { ptr = fresh; path = path; ss_info = info }

-- A new entry comes first and its slot points to it, unless `malloc` failed.
abbrev pub add_spec : Ptr → FilePath → StorageServerInfo → Cells × Slots → Cells × Slots
add_spec fresh path info (cs, m) =
    if fresh == null
    then (cs, m)
    else (new_cell fresh path info ∷ cs, redirect true (hash_path path) fresh m)

add_lem :
    (fresh : Ptr) (path : FilePath) (info : StorageServerInfo) (cs : Cells) (m : Slots)
    → Distinct cs
    → has fresh cs ≡ false
    → add_entry fresh path info (repr cs m)
      ≡ ok tt (repr (add_spec fresh path info (cs, m)).0 (add_spec fresh path info (cs, m)).1)
unfolding add_entry
add_lem fresh path info cs m d new = elim (Bool-cases (fresh == null)) [
  | inl failed ↦ rw failed
  | inr given ↦
      let x = new_cell fresh path info in
      let c1 = with_heap (repr cs m) (beside x null null (layout null cs null)) in
      let more : length cs + 1 ≡ length (x ∷ cs) = omega arith in
      rw (given, push_front_at x cs null null c1 (ground arith, new, d) refl refl refl)
        (ap
          (λ n.
            ok tt (record (repr (x ∷ cs) (redirect true (hash_path path) fresh m)) { count = n }))
          more)
]

abbrev pub put_result :
    Ptr → FilePath → StorageServerInfo → Option Cell → Cells → Slots → Cells × Slots
put_result fresh path info none cs m = add_spec fresh path info (evict_spec cs m)
put_result fresh path info (some x) cs m = (with_info info x ∷ without x.ptr cs, m)

-- The cells and the table after `lru_put`.
abbrev pub put_spec : Ptr → FilePath → StorageServerInfo → Cells → Slots → Cells × Slots
put_spec fresh path info cs m = put_result fresh path info (cached path cs m) cs m

module _ (fresh : Ptr) (path : FilePath) (info : StorageServerInfo) where
  put_found :
      (cs xs : Cells) (x : Cell) (ys : Cells) (m : Slots) (before : Ptr)
      → cs ≡ xs ++ x ∷ ys
      → Distinct (xs ++ x ∷ ys)
      → lookup path (repr cs m) ≡ ok (before, x.ptr) (repr cs m)
      → lru_put fresh path info (repr cs m) ≡ ok tt (repr (with_info info x ∷ without x.ptr cs) m)
  unfolding lru_put
  put_found cs xs x ys m before e d found =
      let here : (x.ptr == null) ≡ false = ground (arith, ne_null xs x ys d) in
      rw (
        found,
        here,
        e,
        set_info_lem info xs x ys m d,
        move_to_front_lem xs (with_info info x) ys m (Distinct-with_info info xs x ys d),
        without-middle xs x ys d,
      )

  put_missed :
      (cs : Cells) (m : Slots) (p : Ptr × Ptr)
      → Distinct cs
      → Distinct (evict_spec cs m).0
      → lookup path (repr cs m) ≡ ok p (repr cs m)
      → p.1 ≡ null
      → has fresh (evict_spec cs m).0 ≡ false
      → lru_put fresh path info (repr cs m)
        ≡ ok tt (
            repr
              (add_spec fresh path info (evict_spec cs m)).0
              (add_spec fresh path info (evict_spec cs m)).1)
  unfolding lru_put
  put_missed cs m p d d' found none_there new =
      rw (found, none_there, evict_lem cs m d)
        (add_lem fresh path info (evict_spec cs m).0 (evict_spec cs m).1 d' new)

  -- On a list whose slot for the path is not dangling, `lru_put` does what `put_spec` says, given
  -- that `malloc` returns NULL or an address that holds none of the nodes then in the cache.
  pub put_refines :
      (cs : Cells) (m : Slots)
      → Distinct cs
      → is_live cs m (hash_path path) ≡ true
      → has fresh (evict_spec cs m).0 ≡ false
      → lru_put fresh path info (repr cs m)
        ≡ ok tt (repr (put_spec fresh path info cs m).0 (put_spec fresh path info cs m).1)
  put_refines cs m d live new = elim (stops path (m (hash_path path)) cs d) [
    | missed s f ↦ rw f (
        put_missed cs m (stop path null (suffix_from (m (hash_path path)) cs)) d
          (Distinct-evict cs m d) (lookup_lem path cs m d live) s new)
    | slot_found xs x ys e s f _ ↦
        rw f
          (put_found cs xs x ys m null e (subst Distinct e d) (rw (lookup_lem path cs m d live, s)))
    | chain_found z zs x ys e s f _ ↦ rw f (
        put_found cs (z ∷ zs) x ys m (last null (z ∷ zs)) e (subst Distinct e d)
          (rw (lookup_lem path cs m d live, s)))
  ]
