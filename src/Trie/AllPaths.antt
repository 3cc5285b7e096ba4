-- ===== src/Trie/AllPaths.antt =====
-- trie.c: the paths of a tree, all of them, in byte order.
use mathlib.Core.List.{map}
use network_file_system.Base.{
  ℕ, zero, suc, ◌+◌, ◌<◌, ◌≡◌, refl, ◌&&◌, Option, none, some, List, [], ◌∷◌, ◌++◌, arith, leb, ltb,
  ◌==◌, if◌then◌else◌, same,
}
use network_file_system.Common.{FilePath}
use network_file_system.Trie.{TrieNode, null, node, trie_search, max_children}

-- The lists of the children from `i` on, one after the other.
unfoldable pub branches : ℕ → ℕ → (ℕ → List FilePath) → List FilePath
branches zero i f = []
branches (suc rounds) i f = f i ++ branches rounds (i + 1) f

unfoldable pub end_of_path : Option ℕ → List FilePath
end_of_path none = []
end_of_path (some _) = [] ∷ []

-- Every path that ends at a server, in byte order and with no limit.
unfoldable pub all_paths : TrieNode → List FilePath
unfolding end_of_path
all_paths null = []
all_paths (node children info) =
    end_of_path info ++ branches max_children 0 (λ i. map (◌∷◌ i) (all_paths (children i)))

-- How often a path stands in a list.
unfoldable pub count : FilePath → List FilePath → ℕ
count q [] = 0
count q (p ∷ ps) = (if same p q then 1 else 0) + count q ps

unfoldable pub occurs : Option ℕ → ℕ
occurs none = 0
occurs (some _) = 1

pub count-append :
    (q : FilePath) (ps qs : List FilePath) → count q (ps ++ qs) ≡ count q ps + count q qs
unfolding count
count-append q [] qs = omega arith
count-append q (p ∷ ps) qs = omega (arith, count-append q ps qs)

count-map_nil : (c : ℕ) (ps : List FilePath) → count [] (map (◌∷◌ c) ps) ≡ 0
unfolding count same
count-map_nil c [] = refl
count-map_nil c (p ∷ ps) = omega (arith, count-map_nil c ps)

count-map_cons :
    (c d : ℕ) (q : FilePath) (ps : List FilePath)
    → count (c ∷ q) (map (◌∷◌ d) ps) ≡ (if c == d then count q ps else 0)
unfolding count same
count-map_cons c d q [] = ground arith
count-map_cons c d q (p ∷ ps) = ground (arith, count-map_cons c d q ps)

pub count-branches_nil :
    (n i : ℕ) (f : ℕ → List FilePath) → count [] (branches n i (λ j. map (◌∷◌ j) (f j))) ≡ 0
unfolding branches count
count-branches_nil zero i f = refl
count-branches_nil (suc n) i f = omega (
  arith,
  count-append [] (map (◌∷◌ i) (f i)) (branches n (i + 1) (λ j. map (◌∷◌ j) (f j))),
  count-map_nil i (f i),
  count-branches_nil n (i + 1) f,
)

pub count-branches_cons :
    (n i c : ℕ) (q : FilePath) (f : ℕ → List FilePath)
    → count (c ∷ q) (branches n i (λ j. map (◌∷◌ j) (f j)))
      ≡ (if leb i c && ltb c (i + n) then count q (f c) else 0)
unfolding branches count
count-branches_cons zero i c q f = ground arith
count-branches_cons (suc n) i c q f = ground (
  arith,
  count-append (c ∷ q) (map (◌∷◌ i) (f i)) (branches n (i + 1) (λ j. map (◌∷◌ j) (f j))),
  count-map_cons c i q (f i),
  count-branches_cons n (i + 1) c q f,
)

-- The bytes of a path are below 256.
abbrev pub IsBytes : FilePath → Type 0
IsBytes [] = Unit {0}
IsBytes (c ∷ q) = (c < max_children) × IsBytes q

count-end_of_path : (c : ℕ) (q : FilePath) (info : Option ℕ) → count (c ∷ q) (end_of_path info) ≡ 0
unfolding count end_of_path same
count-end_of_path c q none = refl
count-end_of_path c q (some r) = refl

-- The list of all paths holds a path exactly once if the search finds it, and not otherwise.
pub count-all_paths :
    (t : TrieNode) (q : FilePath) → IsBytes q → count q (all_paths t) ≡ occurs (trie_search t q)
unfolding all_paths trie_search occurs count same
count-all_paths null q b = refl
count-all_paths (node ch none) [] b = count-branches_nil max_children 0 (λ i. all_paths (ch i))
count-all_paths (node ch (some r)) [] b =
    omega (arith, count-branches_nil max_children 0 (λ i. all_paths (ch i)))
count-all_paths (node ch info) (c ∷ q) b = ground (
  arith,
  count-append (c ∷ q) (end_of_path info)
      (branches max_children 0 (λ i. map (◌∷◌ i) (all_paths (ch i)))),
  count-end_of_path c q info,
  count-branches_cons max_children 0 c q (λ i. all_paths (ch i)),
  count-all_paths (ch c) q b.1,
)
