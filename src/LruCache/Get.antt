-- ===== src/LruCache/Get.antt =====
-- `lru_get` against the list of cells.
use network_file_system.Base.{
  ◌≡◌, ◌≢◌, refl, sym, ap, subst, inl, inr, Bool-cases, ◌∙◌, [], same, eq_of_same, true, false,
  Option, none, some, ◌∷◌, ◌++◌, arith, ◌==◌,
}
use mathlib.Core.Option.{some-injective}
use network_file_system.Common.{FilePath}
use network_file_system.ServerInfo.{StorageServerInfo}
use network_file_system.LruCache.{lru_get, lru_get_pointer, hash_path}
use network_file_system.LruCache.State.{Ptr, null, ok}
use network_file_system.LruCache.Shape.{Cell, Cells, node_of, first, last, Distinct}
use network_file_system.LruCache.Memory.{load_lem}
use network_file_system.LruCache.Spec.{Slots, repr, suffix_from, find, without, is_live}
use network_file_system.LruCache.Walk.{missed, slot_found, chain_found, stop, lookup_lem, stops}
use network_file_system.LruCache.Move.{move_cell, Distinct-middle}

-- The cell that a search for the path finds: the first with the path, from the slot's cell on.
abbrev pub cached : FilePath → Cells → Slots → Option Cell
cached path cs m = find path (suffix_from (m (hash_path path)) cs)

-- What a search finds is a cell of the list, and its path is the path.
pub cached_split :
    (path : FilePath) (cs : Cells) (m : Slots) (x : Cell)
    → Distinct cs
    → cached path cs m ≡ some x
    → (xs : Cells) × (ys : Cells) × (cs ≡ xs ++ x ∷ ys)
cached_split path cs m x d f = elim (stops path (m (hash_path path)) cs d) [
  | missed s g ↦ absurd (cc)
  | slot_found xs y ys e s g _ ↦
      (xs, ys, e ∙ ap (λ (c : Cell). xs ++ c ∷ ys) (some-injective y x (sym g ∙ f)))
  | chain_found z zs y ys e s g _ ↦
      (z ∷ zs, ys, e ∙ ap (λ (c : Cell). (z ∷ zs) ++ c ∷ ys) (some-injective y x (sym g ∙ f)))
]

pub find-path : (path : FilePath) (cs : Cells) (x : Cell) → find path cs ≡ some x → x.path ≡ path
find-path path [] x f = cc
find-path path (c ∷ cs) x f = elim (Bool-cases (same c.path path)) [
  | inl hit ↦ ground (arith, eq_of_same c.path path)
  | inr miss ↦ ground (arith, find-path path cs x)
]

pub cached_ne :
    (path : FilePath) (cs : Cells) (m : Slots) (x : Cell)
    → Distinct cs
    → cached path cs m ≡ some x
    → x.ptr ≢ null
cached_ne path cs m x d f =
    let (xs, ys, e) = cached_split path cs m x d f in
    (Distinct-middle xs x ys (subst Distinct e d)).0

abbrev pub get_result : Option Cell → Cells → Option StorageServerInfo × Cells
get_result none cs = (none, cs)
get_result (some x) cs = (some x.ss_info, x ∷ without x.ptr cs)

-- The answer, and the cells afterwards.
abbrev pub get_spec : FilePath → Cells → Slots → Option StorageServerInfo × Cells
get_spec path cs m = get_result (cached path cs m) cs

-- The address that `lru_get` returns, and the cells afterwards.
abbrev pub pointer_result : Option Cell → Cells → Ptr × Cells
pointer_result none cs = (null, cs)
pointer_result (some x) cs = (x.ptr, x ∷ without x.ptr cs)

abbrev pub pointer_spec : FilePath → Cells → Slots → Ptr × Cells
pointer_spec path cs m = pointer_result (cached path cs m) cs

pointer_found :
    (path : FilePath) (cs xs : Cells) (x : Cell) (ys : Cells) (m : Slots) (before : Ptr)
    → cs ≡ xs ++ x ∷ ys
    → Distinct cs
    → is_live cs m (hash_path path) ≡ true
    → stop path null (suffix_from (m (hash_path path)) cs) ≡ (before, x.ptr)
    → cached path cs m ≡ some x
    → lru_get_pointer path (repr cs m)
      ≡ ok (pointer_spec path cs m).0 (repr (pointer_spec path cs m).1 m)
unfolding lru_get_pointer
pointer_found path cs xs x ys m before e d live s f =
    let ne : x.ptr ≢ null = (Distinct-middle xs x ys (subst Distinct e d)).0 in
    let here : (x.ptr == null) ≡ false = ground arith in
    rw (lookup_lem path cs m d live, s, here, f, move_cell cs xs x ys m e d)

-- On a list whose slot for the path is not dangling, the search gives the address of the cell that it
-- finds and makes that cell the first; where there is none it gives NULL and changes nothing.
pub get_pointer_refines :
    (path : FilePath) (cs : Cells) (m : Slots)
    → Distinct cs
    → is_live cs m (hash_path path) ≡ true
    → lru_get_pointer path (repr cs m)
      ≡ ok (pointer_spec path cs m).0 (repr (pointer_spec path cs m).1 m)
unfolding lru_get_pointer
get_pointer_refines path cs m d live = elim (stops path (m (hash_path path)) cs d) [
  | missed s f ↦ rw (lookup_lem path cs m d live, s, f)
  | slot_found xs x ys e s f _ ↦ pointer_found path cs xs x ys m null e d live s f
  | chain_found z zs x ys e s f _ ↦
      pointer_found path cs (z ∷ zs) x ys m (last null (z ∷ zs)) e d live s f
]

read_answer :
    (path : FilePath) (cs : Cells) (m : Slots) (o : Option Cell)
    → cached path cs m ≡ o
    → Distinct cs
    → is_live cs m (hash_path path) ≡ true
    → lru_get path (repr cs m) ≡ ok (get_result o cs).0 (repr (get_result o cs).1 m)
unfolding lru_get
read_answer path cs m none f d live = rw (get_pointer_refines path cs m d live, f)
read_answer path cs m (some x) f d live =
    let ne : x.ptr ≢ null = cached_ne path cs m x d f in
    let here : (x.ptr == null) ≡ false = ground arith in
    let c1 = repr (x ∷ without x.ptr cs) m in
    rw (
      get_pointer_refines path cs m d live,
      f,
      here,
      load_lem x.ptr c1 (node_of x null (first (without x.ptr cs) null)) (ground arith) ne,
    )

-- On a list whose slot for the path is not dangling, `lru_get` returns the info of the cell that the
-- search finds and makes that cell the first; it misses, and changes nothing, where there is none.
pub get_refines :
    (path : FilePath) (cs : Cells) (m : Slots)
    → Distinct cs
    → is_live cs m (hash_path path) ≡ true
    → lru_get path (repr cs m) ≡ ok (get_spec path cs m).0 (repr (get_spec path cs m).1 m)
get_refines path cs m d live = read_answer path cs m (cached path cs m) refl d live
