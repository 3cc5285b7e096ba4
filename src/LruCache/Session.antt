-- ===== src/LruCache/Session.antt =====
-- The caches that `lru_get` and `lru_put` make from an empty one, and what they answer.
use network_file_system.Base.{
  ◌≤◌, ◌≡◌, refl, sym, ap, subst, ◌∙◌, true, false, ◌⊎◌, inl, inr, Option, none, some, [], ◌∷◌,
  arith, Bool-cases, ◌==◌, length,
}
use network_file_system.Common.{FilePath}
use network_file_system.ServerInfo.{StorageServerInfo}
use network_file_system.LruCache.{lru_cache_size, hash_path, lru_init, lru_get, lru_put, lru_remove}
use network_file_system.LruCache.State.{Ptr, null, LruCache, Run, ok, fault, out_of_fuel}
use network_file_system.LruCache.Shape.{Cell, Cells, layout, last, has, Distinct, last-append}
use network_file_system.LruCache.Spec.{
  Slots, repr, IsValid, is_live, live_of_fits, not-has-without, not-has-without_self,
}
use network_file_system.LruCache.Get.{get_spec, get_refines}
use network_file_system.LruCache.Remove.{remove_spec, remove_refines}
use network_file_system.LruCache.Evict.{last_cell, last_split, evicted, evict_spec}
use network_file_system.LruCache.Put.{put_spec, put_refines}
use network_file_system.LruCache.Invariant.{get_spec-IsValid, put_spec-IsValid}

-- What `malloc` may return inside `lru_put`: an address that holds no node, NULL among them, or that
-- of the last node of a full cache, which has just been freed.
abbrev pub Unused : Ptr → LruCache → Type 0
Unused fresh c = (c.heap fresh ≡ none) ⊎ ((c.count ≡ lru_cache_size) × (fresh ≡ c.tail))

-- The caches after any sequence of gets and puts.
pub data Session : LruCache → Type 0 where
  opened : Session lru_init
  got :
      {c d : LruCache} (path : FilePath) (o : Option StorageServerInfo)
      → Session c
      → lru_get path c ≡ ok o d
      → Session d
  put :
      {c d : LruCache} (fresh : Ptr) (path : FilePath) (info : StorageServerInfo)
      → Session c
      → Unused fresh c
      → lru_put fresh path info c ≡ ok tt d
      → Session d

-- A cache is well-formed if it holds some cells under the invariant.
pub record IsCache (c : LruCache) : Type 0 where
  pub cells : Cells
  pub slots : Slots
  pub holds : c ≡ repr cells slots
  pub valid : IsValid hash_path cells slots

abbrev state_of : {A : Type 0} → LruCache → Run A → LruCache
state_of d (ok a c) = c
state_of d fault = d
state_of d out_of_fuel = d

not-has_of_none : (p : Ptr) (cs : Cells) (q a : Ptr) → layout p cs q a ≡ none → has a cs ≡ false
not-has_of_none p [] q a h = refl
not-has_of_none p (c ∷ cs) q a h = ground (arith, not-has_of_none c.ptr cs q a)

not-has-evicted :
    (a : Ptr) (o : Option Cell) (cs : Cells) (m : Slots)
    → has a cs ≡ false
    → has a (evicted o cs m).0 ≡ false
not-has-evicted a none cs m h = h
not-has-evicted a (some x) cs m h = not-has-without a x.ptr cs h

Unused-new :
    (fresh : Ptr) (cs : Cells) (m : Slots)
    → Distinct cs
    → Unused fresh (repr cs m)
    → has fresh (evict_spec cs m).0 ≡ false
Unused-new fresh cs m d (inl h) =
    let out = not-has_of_none null cs null fresh h in
    elim (Bool-cases (length cs == lru_cache_size)) [
      | inr room ↦ rw room out
      | inl full ↦ rw full (not-has-evicted fresh (last_cell cs) cs m out)
    ]
Unused-new fresh cs m d (inr (full, e)) = elim (last_split cs) [
  | inl n ↦ absurd (ground (arith, ap length n))
  | inr (xs, x, split, l) ↦
      let at_end : fresh ≡ x.ptr = e ∙ ap (last null) split ∙ last-append null xs (x ∷ []) in
      let is_full : (length cs == lru_cache_size) ≡ true = ground arith in
      rw (is_full, l, at_end) (not-has-without_self x.ptr cs d)
]

lru_init-IsCache : IsCache lru_init
unfolding lru_init
lru_init-IsCache = record {
  cells = [];
  slots = λ _. null;
  holds = refl;
  valid = record { distinct = tt; bounded = omega arith; fits = λ k. refl };
}

-- A get, and a put that is given an unused address, succeed and keep the cache well-formed.
module _ (path : FilePath) (c : LruCache) (v : IsCache c) where
  live : is_live v.cells v.slots (hash_path path) ≡ true
  live = live_of_fits hash_path v.cells v.slots (hash_path path) (v.valid.fits (hash_path path))

  get_runs :
      lru_get path c
      ≡ ok (get_spec path v.cells v.slots).0 (repr (get_spec path v.cells v.slots).1 v.slots)
  get_runs = ap (lru_get path) v.holds ∙ get_refines path v.cells v.slots v.valid.distinct live

  remove_runs :
      lru_remove path c
      ≡ ok tt (repr (remove_spec path v.cells v.slots).0 (remove_spec path v.cells v.slots).1)
  remove_runs =
      ap (lru_remove path) v.holds ∙ remove_refines path v.cells v.slots v.valid.distinct live

  module _ (fresh : Ptr) (info : StorageServerInfo) (unused : Unused fresh c) where
    new : has fresh (evict_spec v.cells v.slots).0 ≡ false
    new = Unused-new fresh v.cells v.slots v.valid.distinct (subst (Unused fresh) v.holds unused)

    put_runs :
        lru_put fresh path info c
        ≡ ok tt (
            repr
              (put_spec fresh path info v.cells v.slots).0
              (put_spec fresh path info v.cells v.slots).1)
    put_runs =
        ap (lru_put fresh path info) v.holds
        ∙ put_refines fresh path info v.cells v.slots v.valid.distinct live new

Session-IsCache : {c : LruCache} → Session c → IsCache c
Session-IsCache opened = lru_init-IsCache
Session-IsCache (got {c} {d} path o s e) =
    let v = Session-IsCache s in
    record {
      cells = (get_spec path v.cells v.slots).1;
      slots = v.slots;
      holds = ap (state_of d) (sym e ∙ get_runs path c v);
      valid = get_spec-IsValid path v.cells v.slots v.valid;
    }
Session-IsCache (put {c} {d} fresh path info s u e) =
    let v = Session-IsCache s in
    record {
      cells = (put_spec fresh path info v.cells v.slots).0;
      slots = (put_spec fresh path info v.cells v.slots).1;
      holds = ap (state_of d) (sym e ∙ put_runs path c v fresh info u);
      valid = put_spec-IsValid fresh path info v.cells v.slots v.valid (new path c v fresh info u);
    }

-- After any gets and puts the cache holds at most 100 entries, and each of the three operations
-- succeeds: none of them touches NULL or a freed node, and no search runs on for ever.
pub Session_safe :
    {c : LruCache} (path : FilePath) (fresh : Ptr) (info : StorageServerInfo)
    → Session c
    → Unused fresh c
    → (c.count ≤ lru_cache_size)
      × ((o : Option StorageServerInfo) × (d : LruCache) × (lru_get path c ≡ ok o d))
      × ((d : LruCache) × (lru_put fresh path info c ≡ ok tt d))
      × ((d : LruCache) × (lru_remove path c ≡ ok tt d))
Session_safe {c} path fresh info s u =
    let v = Session-IsCache s in
    (
      ground (arith, ap (λ (d : LruCache). d.count) v.holds, v.valid.bounded),
      (_, _, get_runs path c v),
      (_, put_runs path c v fresh info u),
      (_, remove_runs path c v),
    )
