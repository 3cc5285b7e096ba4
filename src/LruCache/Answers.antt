-- ===== src/LruCache/Answers.antt =====
-- What `lru_get` answers after another operation.
use network_file_system.Base.{
  ◌≡◌, ◌≢◌, sym, subst, ◌∙◌, true, false, none, some, [], ◌∷◌, arith, ◌==◌, same, same_refl,
}
use network_file_system.Common.{FilePath}
use network_file_system.ServerInfo.{StorageServerInfo}
use network_file_system.LruCache.{hash_path, lru_get, lru_put}
use network_file_system.LruCache.State.{Ptr, null, ok, ◌>>◌}
use network_file_system.LruCache.Shape.{Cell, Cells, has, Distinct}
use network_file_system.LruCache.Spec.{Slots, repr, find, IsValid, live_of_fits}
use network_file_system.LruCache.Get.{cached, get_refines}
use network_file_system.LruCache.Remove.{redirect}
use network_file_system.LruCache.Evict.{evict_spec, Distinct-evict}
use network_file_system.LruCache.Put.{put_spec, put_refines, new_cell}
use network_file_system.LruCache.Move.{Distinct-middle}

put_spec-new :
    (fresh : Ptr) (path : FilePath) (info : StorageServerInfo) (cs : Cells) (m : Slots)
    → cached path cs m ≡ none
    → fresh ≢ null
    → put_spec fresh path info cs m ≡ (
      new_cell fresh path info ∷ (evict_spec cs m).0,
      redirect true (hash_path path) fresh (evict_spec cs m).1,
    )
put_spec-new fresh path info cs m miss given =
    let here : (fresh == null) ≡ false = ground arith in rw (miss, here)

-- A get of the first cell's path, where the slot points to it, returns its info.
get_first :
    (a : Cell) (cs : Cells) (m : Slots)
    → Distinct (a ∷ cs)
    → m (hash_path a.path) ≡ a.ptr
    → lru_get a.path (repr (a ∷ cs) m) ≡ ok (some a.ss_info) (repr (a ∷ cs) m)
get_first a cs m d at =
    let hit : cached a.path (a ∷ cs) m ≡ some a = ground (arith, same_refl a.path) in
    let here : (a.ptr == a.ptr) ≡ true = ground arith in
    get_refines a.path (a ∷ cs) m d (ground arith) ∙ rw (hit, here)

-- A put of a path that the search does not find, where `malloc` succeeds, is followed by a get that
-- returns the info that was put, and leaves the cells as the put left them.
pub put-get :
    (fresh : Ptr) (path : FilePath) (info : StorageServerInfo) (cs : Cells) (m : Slots)
    → IsValid hash_path cs m
    → cached path cs m ≡ none
    → fresh ≢ null
    → has fresh (evict_spec cs m).0 ≡ false
    → (do lru_put fresh path info; lru_get path) (repr cs m)
      ≡ ok (some info) (repr (put_spec fresh path info cs m).0 (put_spec fresh path info cs m).1)
put-get fresh path info cs m v miss given new =
    let r = evict_spec cs m in
    let N = new_cell fresh path info in
    let d : Distinct (N ∷ r.0) = (given, new, Distinct-evict cs m v.distinct) in
    let live = live_of_fits hash_path cs m (hash_path path) (v.fits (hash_path path)) in
    let is_new = put_spec-new fresh path info cs m miss given in
    rw (put_refines fresh path info cs m v.distinct live new) (
      subst (λ (s : Cells × Slots). lru_get path (repr s.0 s.1) ≡ ok (some info) (repr s.0 s.1))
        (sym is_new) (get_first N r.0 (redirect true (hash_path path) fresh r.1) d (ground arith)))

-- A hit behind the slot's entry hides the entry: it is moved to the front, and the walk, which still
-- begins at the slot's entry, no longer meets it. Where the two first entries share a hash, the slot
-- points to the first and the path is the second's and no other's, a get returns the info, and the
-- same get again returns nothing.
pub get-get :
    (a b : Cell) (cs : Cells) (m : Slots)
    → IsValid hash_path (a ∷ b ∷ cs) m
    → m (hash_path b.path) ≡ a.ptr
    → same a.path b.path ≡ false
    → find b.path cs ≡ none
    → (lru_get b.path (repr (a ∷ b ∷ cs) m) ≡ ok (some b.ss_info) (repr (b ∷ a ∷ cs) m))
      × (lru_get b.path (repr (b ∷ a ∷ cs) m) ≡ ok none (repr (b ∷ a ∷ cs) m))
get-get a b cs m v at differ alone =
    let hit : cached b.path (a ∷ b ∷ cs) m ≡ some b = ground (arith, same_refl b.path) in
    let gone : cached b.path (b ∷ a ∷ cs) m ≡ none = ground arith in
    let other : (a.ptr == b.ptr) ≡ false = ground arith in
    let here : (b.ptr == b.ptr) ≡ true = ground arith in
    (
      get_refines b.path (a ∷ b ∷ cs) m v.distinct (ground arith) ∙ rw (hit, other, here),
      get_refines b.path (b ∷ a ∷ cs) m (Distinct-middle (a ∷ []) b cs v.distinct) (ground arith)
          ∙ rw gone,
    )
