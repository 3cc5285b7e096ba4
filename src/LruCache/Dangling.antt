-- ===== src/LruCache/Dangling.antt =====
-- `lru_remove` writes `node->next` into the slot of the path, as if the slot headed a chain of its
-- own. The node behind may have another hash, and no later operation clears the slot when that node
-- is freed.
use native.Mathlib.Numerals.{add-one}
use network_file_system.Base.{
  ℕ, suc, ◌≡◌, ◌≢◌, refl, sym, subst, ◌∙◌, true, false, Option, none, some, ◌++◌, ◌∷◌, arith, ◌==◌,
  same_refl, length,
}
use network_file_system.Common.{FilePath}
use network_file_system.LruCache.{hash_path, lru_get, lru_get_pointer, lru_remove, lookup, walk}
use network_file_system.LruCache.State.{Ptr, null, LruCache, ok, fault, load, ◌>>◌}
use network_file_system.LruCache.Shape.{Cell, Cells, first, has, Distinct, layout-none}
use network_file_system.LruCache.Spec.{Slots, repr, suffix_from, IsValid, is_live, live_of_fits}
use network_file_system.LruCache.Get.{cached, cached_split, find-path}
use network_file_system.LruCache.Remove.{
  redirect, remove_result, remove_result_at, remove_spec, remove_refines,
}
use network_file_system.LruCache.Invariant.{removed-live}

-- The removal of the first cell, which its slot points to.
pub remove_first :
    (a : Cell) (cs : Cells) (m : Slots)
    → Distinct (a ∷ cs)
    → m (hash_path a.path) ≡ a.ptr
    → lru_remove a.path (repr (a ∷ cs) m)
      ≡ ok tt (repr cs (redirect true (hash_path a.path) (first cs null) m))
remove_first a cs m d at =
    let hit : cached a.path (a ∷ cs) m ≡ some a = ground (arith, same_refl a.path) in
    let slot : (a.ptr == m (hash_path a.path)) ≡ true = ground arith in
    let here : (a.ptr == a.ptr) ≡ true = ground arith in
    remove_refines a.path (a ∷ cs) m d (ground arith) ∙ rw (hit, slot, here)

pub load_fault : (p : Ptr) (c : LruCache) → c.heap p ≡ none → load p c ≡ fault
unfolding load
load_fault p c e = ground arith

walk_fault :
    (fuel : ℕ) (path : FilePath) (before p : Ptr) (c : LruCache)
    → p ≢ null
    → c.heap p ≡ none
    → walk (suc fuel) path before p c ≡ fault
unfolding walk
walk_fault fuel path before p c ne e =
    let some_ptr : (p == null) ≡ false = ground arith in rw (some_ptr, load_fault p c e)

lookup_fault :
    (path : FilePath) (cs : Cells) (m : Slots)
    → m (hash_path path) ≢ null
    → has (m (hash_path path)) cs ≡ false
    → lookup path (repr cs m) ≡ fault
unfolding lookup
lookup_fault path cs m ne out = rw add-one (
    walk_fault (length cs) path null (m (hash_path path)) (repr cs m) ne
      (layout-none null cs null (m (hash_path path)) out))

-- A search from a slot that points to no node of the cache touches freed memory.
get_dangling :
    (path : FilePath) (cs : Cells) (m : Slots)
    → m (hash_path path) ≢ null
    → has (m (hash_path path)) cs ≡ false
    → lru_get path (repr cs m) ≡ fault
unfolding lru_get lru_get_pointer
get_dangling path cs m ne out = rw (lookup_fault path cs m ne out)

-- Take a well-linked cache whose first two entries have different hashes, each pointed to by its
-- slot. After both are removed, the first one first, every `lru_get` of a path with the first one's
-- hash reads freed memory.
pub get_after_removes :
    (a b : Cell) (cs : Cells) (m : Slots) (path : FilePath)
    → Distinct (a ∷ b ∷ cs)
    → m (hash_path a.path) ≡ a.ptr
    → m (hash_path b.path) ≡ b.ptr
    → hash_path a.path ≢ hash_path b.path
    → hash_path path ≡ hash_path a.path
    → (do lru_remove a.path; lru_remove b.path; lru_get path) (repr (a ∷ b ∷ cs) m) ≡ fault
get_after_removes a b cs m path d at_a at_b apart hashed =
    let m1 = redirect true (hash_path a.path) b.ptr m in
    let m2 = redirect true (hash_path b.path) (first cs null) m1 in
    let stale : m2 (hash_path path) ≡ b.ptr = ground arith in
    rw (remove_first a (b ∷ cs) m d at_a, remove_first b cs m1 d.2 (ground arith))
      (get_dangling path cs m2 (rw stale d.2.0) (rw stale d.2.1))

removed-result :
    (path : FilePath) (cs : Cells) (m : Slots) (k : ℕ) (o : Option Cell)
    → cached path cs m ≡ o
    → IsValid hash_path cs m
    → is_live (remove_result (hash_path path) o cs m).0 (remove_result (hash_path path) o cs m).1 k
      ≡ true
removed-result path cs m k none f v = live_of_fits hash_path cs m k (v.fits k)
removed-result path cs m k (some x) f v =
    let (xs, ys, e) = cached_split path cs m x v.distinct f in
    let v' : IsValid hash_path (xs ++ x ∷ ys) m = subst (λ l. IsValid hash_path l m) e v in
    let h = hash_path path in
    subst (λ (r : Cells × Slots). is_live r.0 r.1 k ≡ true)
      (sym (remove_result_at h cs xs x ys m (x.ptr == m h) e v'.distinct refl))
      (removed-live path xs x ys m k v' (find-path path (suffix_from (m h) cs) x f))

-- One removal from a cache that gets and puts have made leaves every slot empty or pointing into
-- the list, so the fault needs a second one.
pub removed_once :
    (path : FilePath) (cs : Cells) (m : Slots) (k : ℕ)
    → IsValid hash_path cs m
    → is_live (remove_spec path cs m).0 (remove_spec path cs m).1 k ≡ true
removed_once path cs m k v = removed-result path cs m k (cached path cs m) refl v
