-- ===== src/ServerInfo/Erase.antt =====
-- What the updates of a server's path list do to the slots in use.
use native.Mathlib.Numerals.{add-one}
use network_file_system.Base.{
  ℕ, zero, suc, ◌+◌, ◌-◌, ◌≤◌, ◌<◌, ◌≡◌, refl, List, [], ◌∷◌, ◌++◌, arith, Bool-cases, inl, inr, ap,
  ◌∙◌, ltb, if◌then◌else◌, same, length, length-set, get_or, set, take,
}
use network_file_system.Common.{FilePath, max_accessible_paths}
use network_file_system.ServerInfo.{
  StorageServerInfo, shift_left, remove_loop, remove_path_from_ss_info, add_path_to_ss_info,
}

-- The paths in use.
abbrev pub paths_of : StorageServerInfo → List FilePath
paths_of s = take s.num_accessible_paths s.accessible_paths

-- The list less the first entry that is the path.
unfoldable pub erase_first : FilePath → List FilePath → List FilePath
erase_first path [] = []
erase_first path (p ∷ ps) = if same p path then ps else p ∷ erase_first path ps

-- The array has its ten slots and the number in use is within them.
pub record IsValid (s : StorageServerInfo) : Type 0 where
  pub slots : length s.accessible_paths ≡ max_accessible_paths
  pub within : s.num_accessible_paths ≤ max_accessible_paths

shift-suc :
    (n j : ℕ) (x : FilePath) (xs : List FilePath)
    → shift_left n (j + 1) (x ∷ xs) ≡ x ∷ shift_left n j xs
unfolding shift_left
shift-suc zero j x xs = refl
shift-suc (suc n) j x xs =
    simp add-one (simp add-one at (shift-suc n (j + 1) x (set xs j (get_or xs (j + 1) []))))

-- The shift from slot 0 over `n` slots drops the first of `n + 1` entries.
take-shift_left :
    (n : ℕ) (x : FilePath) (xs : List FilePath)
    → n ≤ length xs
    → take n (shift_left n 0 (x ∷ xs)) ≡ take n xs
unfolding shift_left
take-shift_left zero x xs h = refl
take-shift_left (suc n) x [] h = absurd (omega arith)
take-shift_left (suc n) x (y ∷ xs) h =
    rw (shift-suc n 0 y (y ∷ xs)) (ap (◌∷◌ y) (take-shift_left n y xs (omega arith)))

length-shift_left : (n j : ℕ) (ps : List FilePath) → length (shift_left n j ps) ≡ length ps
unfolding shift_left
length-shift_left zero j ps = refl
length-shift_left (suc n) j ps =
    length-shift_left n (j + 1) (set ps j (get_or ps (j + 1) []))
    ∙ length-set ps j (get_or ps (j + 1) [])

-- A server with another array and another number in use.
abbrev with_paths : StorageServerInfo → List FilePath → ℕ → StorageServerInfo
with_paths s ps n = record s { accessible_paths = ps; num_accessible_paths = n }

abbrev cons_path : FilePath → StorageServerInfo → StorageServerInfo
cons_path x s = with_paths s (x ∷ s.accessible_paths) (s.num_accessible_paths + 1)

get_or-cons :
    (x : FilePath) (xs : List FilePath) (i : ℕ) → get_or (x ∷ xs) (i + 1) [] ≡ get_or xs i []
get_or-cons x xs i = rw add-one

-- The search from slot `i + 1` leaves slot 0 alone.
remove_loop-cons :
    (r i : ℕ) (path : FilePath) (s : StorageServerInfo) (x : FilePath) (xs : List FilePath) (m : ℕ)
    → i + r ≤ m
    → remove_loop r (i + 1) path (with_paths s (x ∷ xs) (m + 1))
      ≡ cons_path x (remove_loop r i path (with_paths s xs m))
unfolding remove_loop
remove_loop-cons zero i path s x xs m h = refl
remove_loop-cons (suc r) i path s x xs m h = elim (Bool-cases (same (get_or xs i []) path)) [
  | inl hit ↦
      let left : m + 1 - 1 - (i + 1) ≡ m - 1 - i = omega arith in
      let fewer : m + 1 - 1 ≡ m - 1 + 1 = omega arith in
      rw (get_or-cons x xs i, hit, left, shift-suc (m - 1 - i) i x xs, fewer)
  | inr miss ↦
      rw (get_or-cons x xs i, miss) (remove_loop-cons r (i + 1) path s x xs m (omega arith))
]

paths_of-cons : (x : FilePath) (s : StorageServerInfo) → paths_of (cons_path x s) ≡ x ∷ paths_of s
paths_of-cons x s = rw add-one

remove_loop-erase :
    (n : ℕ) (path : FilePath) (s : StorageServerInfo) (xs : List FilePath)
    → n ≤ length xs
    → paths_of (remove_loop n 0 path (with_paths s xs n)) ≡ erase_first path (take n xs)
unfolding remove_loop erase_first
remove_loop-erase zero path s xs h = refl
remove_loop-erase (suc n) path s [] h = absurd (omega arith)
remove_loop-erase (suc n) path s (x ∷ xs) h = elim (Bool-cases (same x path)) [
  | inl hit ↦
      let left : suc n - 1 - 0 ≡ n = omega arith in
      let fewer : suc n - 1 ≡ n = omega arith in
      rw (hit, left, fewer) (take-shift_left n x xs (omega arith))
  | inr miss ↦
      let more : n + 1 ≡ suc n = omega arith in
      rw miss (
        ap paths_of (rw more at (remove_loop-cons n 0 path s x xs n (omega arith)))
        ∙ paths_of-cons x (remove_loop n 0 path (with_paths s xs n))
        ∙ ap (◌∷◌ x) (remove_loop-erase n path s xs (omega arith)))
]

remove_loop-IsValid :
    (r i : ℕ) (path : FilePath) (s : StorageServerInfo)
    → IsValid s
    → IsValid (remove_loop r i path s)
unfolding remove_loop
remove_loop-IsValid zero i path s v = v
remove_loop-IsValid (suc r) i path s v = ground (
  arith,
  length-shift_left (s.num_accessible_paths - 1 - i) i s.accessible_paths,
  remove_loop-IsValid r (i + 1) path s v,
)

take-set :
    (n : ℕ) (xs : List FilePath) (x : FilePath)
    → n < length xs
    → take (n + 1) (set xs n x) ≡ take n xs ++ x ∷ []
take-set n [] x h = absurd (omega arith)
take-set zero (y ∷ xs) x h = refl
take-set (suc n) (y ∷ xs) x h =
    rw add-one (ap (◌∷◌ y) (rw add-one at (take-set n xs x (omega arith))))

-- `remove_path_from_ss_info` takes the first entry that is the path out of the paths in use, keeps
-- the others in order, and keeps the array and the count in their bounds.
pub remove-erase_first :
    (s : StorageServerInfo) (path : FilePath)
    → IsValid s
    → (paths_of (remove_path_from_ss_info s path) ≡ erase_first path (paths_of s))
      × IsValid (remove_path_from_ss_info s path)
unfolding remove_path_from_ss_info
remove-erase_first s path v = (
  remove_loop-erase s.num_accessible_paths path s s.accessible_paths (omega arith),
  remove_loop-IsValid s.num_accessible_paths 0 path s v,
)

-- The append puts the path behind the paths in use where there is room, changes nothing where the
-- ten slots are taken, and keeps the bounds.
pub add_path-append :
    (s : StorageServerInfo) (path : FilePath)
    → IsValid s
    → (paths_of (add_path_to_ss_info s path) ≡ (
        if ltb s.num_accessible_paths max_accessible_paths
        then paths_of s ++ path ∷ []
        else paths_of s))
      × IsValid (add_path_to_ss_info s path)
unfolding add_path_to_ss_info
add_path-append s path v = ground (
  arith,
  take-set s.num_accessible_paths s.accessible_paths path,
  length-set s.accessible_paths s.num_accessible_paths path,
)
