-- ===== src/LruCache/Invariant.antt =====
-- The operations of lru_cache.c keep the invariant, on the list of cells.
use network_file_system.Base.{
  ℕ, ◌<◌, ◌≡◌, refl, sym, ap, subst, Bool, true, false, ◌||◌, inl, inr, Option, none, some, [], ◌∷◌,
  ◌++◌, arith, Bool-cases, ◌==◌, if◌then◌else◌, length,
}
use network_file_system.Common.{FilePath}
use network_file_system.ServerInfo.{StorageServerInfo}
use network_file_system.LruCache.{lru_cache_size, hash_path}
use network_file_system.LruCache.State.{Ptr, null}
use network_file_system.LruCache.Shape.{Cell, Cells, first, has, Distinct, has-append, has-first}
use network_file_system.LruCache.Spec.{
  Slots, without, slot_fits, IsValid, is_live, has-holds, holds-front, without-middle,
  Distinct-without, suc-length-without, holds-without, hash_of_holds,
}
use network_file_system.LruCache.Move.{Distinct-middle, length-middle}
use network_file_system.LruCache.Get.{cached, cached_split, get_spec, get_result}
use network_file_system.LruCache.Remove.{redirect}
use network_file_system.LruCache.Evict.{last_split, evicted, evict_spec}
use network_file_system.LruCache.Put.{with_info, add_spec, put_spec, put_result}

-- To bring a cell to the front, and to give it another info, keeps the invariant.
front-IsValid :
    (info : StorageServerInfo) (xs : Cells) (x : Cell) (ys : Cells) (m : Slots)
    → IsValid hash_path (xs ++ x ∷ ys) m
    → IsValid hash_path (with_info info x ∷ xs ++ ys) m
front-IsValid info xs x ys m v = record {
  distinct = Distinct-middle xs x ys v.distinct;
  bounded = omega (arith, v.bounded, length-middle xs x ys);
  fits = λ k. ground (arith, v.fits k, holds-front hash_path (m k) k xs x ys);
}

found-IsValid :
    (info : StorageServerInfo) (path : FilePath) (cs : Cells) (m : Slots) (x : Cell)
    → cached path cs m ≡ some x
    → IsValid hash_path cs m
    → IsValid hash_path (with_info info x ∷ without x.ptr cs) m
found-IsValid info path cs m x f v =
    let (xs, ys, e) = cached_split path cs m x v.distinct f in
    let v' : IsValid hash_path (xs ++ x ∷ ys) m = subst (λ l. IsValid hash_path l m) e v in
    rw (e, without-middle xs x ys v'.distinct) (front-IsValid info xs x ys m v')

get_result-IsValid :
    (path : FilePath) (cs : Cells) (m : Slots) (o : Option Cell)
    → cached path cs m ≡ o
    → IsValid hash_path cs m
    → IsValid hash_path (get_result o cs).1 m
get_result-IsValid path cs m none f v = v
get_result-IsValid path cs m (some x) f v = found-IsValid x.ss_info path cs m x f v

pub get_spec-IsValid :
    (path : FilePath) (cs : Cells) (m : Slots)
    → IsValid hash_path cs m
    → IsValid hash_path (get_spec path cs m).1 m
get_spec-IsValid path cs m v = get_result-IsValid path cs m (cached path cs m) refl v

redirected :
    (b : Bool) (k : ℕ) (p : Ptr) (m : Slots) (i : ℕ)
    → redirect b k p m i ≡ (if b then (if i == k then p else m i) else m i)
redirected true k p m i = refl
redirected false k p m i = refl

-- The eviction of a cell empties the one slot that can point to it.
evicted-fits :
    (xs : Cells) (x : Cell) (ys : Cells) (m : Slots) (k : ℕ)
    → Distinct (xs ++ x ∷ ys)
    → slot_fits hash_path (xs ++ x ∷ ys) m k ≡ true
    → slot_fits hash_path
        (without x.ptr (xs ++ x ∷ ys))
        (redirect (m (hash_path x.path) == x.ptr) (hash_path x.path) null m)
        k
      ≡ true
evicted-fits xs x ys m k d h = ground (
  arith,
  redirected (m (hash_path x.path) == x.ptr) (hash_path x.path) null m k,
  hash_of_holds hash_path k xs x ys d,
  holds-without hash_path (m k) x.ptr k (xs ++ x ∷ ys),
)

record HasRoom (cs : Cells) (m : Slots) : Type 0 where
  valid : IsValid hash_path cs m
  room : length cs < 100

evicted-HasRoom :
    (xs : Cells) (x : Cell) (m : Slots)
    → IsValid hash_path (xs ++ x ∷ []) m
    → HasRoom (evicted (some x) (xs ++ x ∷ []) m).0 (evicted (some x) (xs ++ x ∷ []) m).1
evicted-HasRoom xs x m v =
    let here : has x.ptr (xs ++ x ∷ []) ≡ true = ground (arith, has-append x.ptr xs (x ∷ [])) in
    let shorter = suc-length-without x.ptr (xs ++ x ∷ []) here in
    record {
      valid = record {
        distinct = Distinct-without x.ptr (xs ++ x ∷ []) v.distinct;
        bounded = omega (arith, v.bounded, shorter);
        fits = λ k. evicted-fits xs x [] m k v.distinct (v.fits k);
      };
      room = omega (arith, v.bounded, shorter);
    }

evict-IsValid :
    (cs : Cells) (m : Slots)
    → IsValid hash_path cs m
    → HasRoom (evict_spec cs m).0 (evict_spec cs m).1
evict-IsValid cs m v = elim (Bool-cases (length cs == lru_cache_size)) [
  | inr room ↦ rw room (record { valid = v; room = ground (arith, v.bounded) })
  | inl full ↦ elim (last_split cs) [
    | inl e ↦ absurd (ground (arith, ap length e))
    | inr (xs, x, e, l) ↦
        rw (full, l)
          (subst (λ l. HasRoom (evicted (some x) l m).0 (evicted (some x) l m).1) (sym e)
            (evicted-HasRoom xs x m (subst (λ l. IsValid hash_path l m) e v)))
  ]
]

add-IsValid :
    (fresh : Ptr) (path : FilePath) (info : StorageServerInfo) (cs : Cells) (m : Slots)
    → HasRoom cs m
    → has fresh cs ≡ false
    → IsValid hash_path (add_spec fresh path info (cs, m)).0 (add_spec fresh path info (cs, m)).1
add-IsValid fresh path info cs m v new = elim (Bool-cases (fresh == null)) [
  | inl failed ↦ rw failed v.valid
  | inr given ↦ rw given (record {
    distinct = (ground arith, new, v.valid.distinct);
    bounded = omega (arith, v.room);
    fits = λ k. ground (arith, v.valid.fits k);
  })
]

put_result-IsValid :
    (fresh : Ptr) (path : FilePath) (info : StorageServerInfo) (cs : Cells) (m : Slots)
    (o : Option Cell)
    → cached path cs m ≡ o
    → IsValid hash_path cs m
    → has fresh (evict_spec cs m).0 ≡ false
    → IsValid hash_path (put_result fresh path info o cs m).0 (put_result fresh path info o cs m).1
put_result-IsValid fresh path info cs m none f v new =
    add-IsValid fresh path info (evict_spec cs m).0 (evict_spec cs m).1 (evict-IsValid cs m v) new
put_result-IsValid fresh path info cs m (some x) f v new = found-IsValid info path cs m x f v

pub put_spec-IsValid :
    (fresh : Ptr) (path : FilePath) (info : StorageServerInfo) (cs : Cells) (m : Slots)
    → IsValid hash_path cs m
    → has fresh (evict_spec cs m).0 ≡ false
    → IsValid hash_path (put_spec fresh path info cs m).0 (put_spec fresh path info cs m).1
put_spec-IsValid fresh path info cs m v new =
    put_result-IsValid fresh path info cs m (cached path cs m) refl v new

-- The address behind a cell is NULL or one of the other cells.
behind-live :
    (xs : Cells) (x : Cell) (ys : Cells)
    → ((first ys null == null) || has (first ys null) (xs ++ ys)) ≡ true
behind-live xs x ys = ground (arith, has-first ys null, has-append (first ys null) xs ys)

pub removed-live :
    (path : FilePath) (xs : Cells) (x : Cell) (ys : Cells) (m : Slots) (k : ℕ)
    → IsValid hash_path (xs ++ x ∷ ys) m
    → x.path ≡ path
    → is_live
        (xs ++ ys)
        (redirect (x.ptr == m (hash_path path)) (hash_path path) (first ys null) m)
        k
      ≡ true
removed-live path xs x ys m k v e = ground (
  arith,
  redirected (x.ptr == m (hash_path path)) (hash_path path) (first ys null) m k,
  hash_of_holds hash_path k xs x ys v.distinct,
  v.fits k,
  ap hash_path e,
  has-holds hash_path (m k) k (xs ++ x ∷ ys),
  has-append (m k) xs (x ∷ ys),
  has-append (m k) xs ys,
  behind-live xs x ys,
)
