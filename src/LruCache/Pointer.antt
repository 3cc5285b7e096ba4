-- ===== src/LruCache/Pointer.antt =====
-- `lru_get` returns the address of the info inside the node and gives the lock back, so another
-- thread may remove the node before the caller reads the info.
use network_file_system.Base.{◌≡◌, subst, true, some, ◌∷◌, arith}
use network_file_system.Common.{FilePath}
use network_file_system.LruCache.{hash_path, lru_get_pointer, lru_remove}
use network_file_system.LruCache.State.{null, ok, pure, fault, load, ◌>>=◌, ◌>>◌}
use network_file_system.LruCache.Shape.{
  Cell, Cells, first, has-append, node_of, Distinct, layout-none,
}
use network_file_system.LruCache.Spec.{
  Slots, repr, is_live, without, Distinct-without, not-has-without_self, suffix_from,
}
use network_file_system.LruCache.Get.{
  cached, cached_split, cached_ne, find-path, get_pointer_refines,
}
use network_file_system.LruCache.Remove.{redirect}
use network_file_system.LruCache.Memory.{load_lem}
use network_file_system.LruCache.Dangling.{remove_first, load_fault}

front-Distinct :
    (path : FilePath) (cs : Cells) (m : Slots) (x : Cell)
    → Distinct cs
    → cached path cs m ≡ some x
    → Distinct (x ∷ without x.ptr cs)
front-Distinct path cs m x d f =
    (cached_ne path cs m x d f, not-has-without_self x.ptr cs d, Distinct-without x.ptr cs d)

slot-is_live :
    (path : FilePath) (cs : Cells) (m : Slots) (x : Cell)
    → Distinct cs
    → cached path cs m ≡ some x
    → m (hash_path path) ≡ x.ptr
    → is_live cs m (hash_path path) ≡ true
slot-is_live path cs m x d f at =
    let (xs, ys, e) = cached_split path cs m x d f in
    rw (at, e) (ground (arith, has-append x.ptr xs (x ∷ ys)))

-- Take a cache of distinct nodes whose slot for a path points to the node that a search for the path
-- finds. A read through the pointer that `lru_get` returns gives that node's info if nothing comes
-- between; if `lru_remove` of the path comes between the two, the read is of freed memory.
pub read_after_remove :
    (path : FilePath) (cs : Cells) (m : Slots) (x : Cell)
    → Distinct cs
    → cached path cs m ≡ some x
    → m (hash_path path) ≡ x.ptr
    → ((do p ← lru_get_pointer path; n ← load p; pure n.ss_info) (repr cs m)
        ≡ ok x.ss_info (repr (x ∷ without x.ptr cs) m))
      × ((do p ← lru_get_pointer path; lru_remove path; load p) (repr cs m) ≡ fault)
read_after_remove path cs m x d f at =
    let live = slot-is_live path cs m x d f at in
    let same_path : x.path ≡ path = find-path path (suffix_from (m (hash_path path)) cs) x f in
    let rest = without x.ptr cs in
    let m' = redirect true (hash_path x.path) (first rest null) m in
    let at_x : m (hash_path x.path) ≡ x.ptr = rw same_path at in
    let removed : lru_remove path (repr (x ∷ rest) m) ≡ ok tt (repr rest m') =
      subst (λ q. lru_remove q (repr (x ∷ rest) m) ≡ ok tt (repr rest m')) same_path
        (remove_first x rest m (front-Distinct path cs m x d f) at_x) in
    (
      rw (
        get_pointer_refines path cs m d live,
        f,
        load_lem x.ptr (repr (x ∷ rest) m) (node_of x null (first rest null)) (ground arith)
            (cached_ne path cs m x d f),
      ),
      rw (get_pointer_refines path cs m d live, f, removed)
          (load_fault x.ptr (repr rest m')
            (layout-none null rest null x.ptr (not-has-without_self x.ptr cs d))),
    )
