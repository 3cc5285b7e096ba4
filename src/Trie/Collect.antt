-- ===== src/Trie/Collect.antt =====
-- trie.c: `trie_collect_paths` against the list of all paths of the tree, in byte order.
use mathlib.Core.List.{map, map-append, append_assoc, append-nil}
use network_file_system.Base.{
  take_all, ℕ, zero, suc, ◌+◌, ◌≤◌, ◌≡◌, refl, sym, ap, ◌∙◌, true, false, Option, none, some, List,
  [], ◌∷◌, ◌++◌, arith, ltb, if◌then◌else◌, length, length-append, length-take, take,
}
use network_file_system.Common.{FilePath, max_accessible_paths}
use network_file_system.Trie.{
  TrieNode, null, node, trie_search, max_children, for_children, collect_here,
  collect_paths_recursive, trie_collect_paths,
}
use network_file_system.Trie.AllPaths.{
  branches, end_of_path, all_paths, count, occurs, IsBytes, count-all_paths,
}

-- Append while there is room.
fill : List FilePath → List FilePath → List FilePath
fill found [] = found
fill found (p ∷ ps) =
    fill (if ltb (length found) max_accessible_paths then found ++ p ∷ [] else found) ps

fill-append : (found ps qs : List FilePath) → fill found (ps ++ qs) ≡ fill (fill found ps) qs
unfolding fill
fill-append found [] qs = refl
fill-append found (p ∷ ps) qs =
    fill-append (if ltb (length found) max_accessible_paths then found ++ p ∷ [] else found) ps qs

for_children-fill :
    (n i : ℕ) (visit : ℕ → List FilePath → List FilePath) (f : ℕ → List FilePath)
    → ((j : ℕ) (found : List FilePath) → visit j found ≡ fill found (f j))
    → (found : List FilePath) → for_children n i visit found ≡ fill found (branches n i f)
unfolding for_children branches fill
for_children-fill zero i visit f h found = refl
for_children-fill (suc n) i visit f h found =
    for_children-fill n (i + 1) visit f h (visit i found)
    ∙ ap (λ g. fill g (branches n (i + 1) f)) (h i found)
    ∙ sym (fill-append found (f i) (branches n (i + 1) f))

map-branches :
    (n i : ℕ) (g : FilePath → FilePath) (f : ℕ → List FilePath)
    → map g (branches n i f) ≡ branches n i (λ j. map g (f j))
unfolding branches
map-branches zero i g f = refl
map-branches (suc n) i g f =
    map-append g (f i) (branches n (i + 1) f) ∙ ap (◌++◌ (map g (f i))) (map-branches n (i + 1) g f)

map-append-cons :
    (pre : FilePath) (c : ℕ) (ps : List FilePath)
    → map (◌++◌ (pre ++ c ∷ [])) ps ≡ map (◌++◌ pre) (map (◌∷◌ c) ps)
map-append-cons pre c [] = refl
map-append-cons pre c (p ∷ ps) = rw (append_assoc pre (c ∷ []) p, map-append-cons pre c ps)

collect_here-fill :
    (info : Option ℕ) (pre : FilePath) (found : List FilePath)
    → collect_here info pre found ≡ fill found (map (◌++◌ pre) (end_of_path info))
unfolding collect_here fill end_of_path
collect_here-fill none pre found = refl
collect_here-fill (some r) pre found = rw (append-nil pre)

fill-here :
    (info : Option ℕ) (pre : FilePath) (found : List FilePath) (n : ℕ) (f : ℕ → List FilePath)
    → fill (collect_here info pre found) (branches n 0 (λ i. map (◌++◌ pre) (f i)))
      ≡ fill found (map (◌++◌ pre) (end_of_path info ++ branches n 0 f))
fill-here info pre found n f =
    ap (λ g. fill g (branches n 0 (λ i. map (◌++◌ pre) (f i)))) (collect_here-fill info pre found)
    ∙ sym (fill-append found (map (◌++◌ pre) (end_of_path info)) _)
    ∙ ap (fill found) (
        sym (
          map-append (◌++◌ pre) (end_of_path info) (branches n 0 f)
          ∙ ap (◌++◌ (map (◌++◌ pre) (end_of_path info))) (map-branches n 0 (◌++◌ pre) f)))

collect-fill :
    (t : TrieNode) (pre : FilePath) (found : List FilePath)
    → collect_paths_recursive t pre found ≡ fill found (map (◌++◌ pre) (all_paths t))
unfolding collect_paths_recursive fill all_paths
collect-fill null pre found = refl
collect-fill (node ch info) pre found =
    for_children-fill max_children 0 (λ i acc. collect_paths_recursive (ch i) (pre ++ i ∷ []) acc)
      (λ i. map (◌++◌ pre) (map (◌∷◌ i) (all_paths (ch i))))
      (λ i acc.
        collect-fill (ch i) (pre ++ i ∷ []) acc
        ∙ ap (fill acc) (map-append-cons pre i (all_paths (ch i))))
      (collect_here info pre found)
    ∙ fill-here info pre found max_children (λ i. map (◌∷◌ i) (all_paths (ch i)))

fill-take :
    (k : ℕ) (found ps : List FilePath)
    → length found + k ≡ max_accessible_paths
    → fill found ps ≡ found ++ take k ps
unfolding fill
fill-take zero found [] h = sym (append-nil found)
fill-take (suc k) found [] h = sym (append-nil found)
fill-take zero found (p ∷ ps) h =
    let full : ltb (length found) max_accessible_paths ≡ false = ground arith in
    rw full (fill-take zero found ps h)
fill-take (suc k) found (p ∷ ps) h =
    let room : ltb (length found) max_accessible_paths ≡ true = ground arith in
    rw room (
      fill-take k (found ++ p ∷ []) ps (omega (arith, length-append found (p ∷ [])))
      ∙ append_assoc found (p ∷ []) (take k ps))

map-append_nil : (ps : List FilePath) → map (◌++◌ []) ps ≡ ps
map-append_nil [] = refl
map-append_nil (p ∷ ps) = rw (map-append_nil ps)

-- `trie_collect_paths` gives the first ten of the paths of the tree.
pub collect-take : (t : TrieNode) → trie_collect_paths t ≡ take max_accessible_paths (all_paths t)
unfolding trie_collect_paths
collect-take t =
    collect-fill t [] []
    ∙ fill-take max_accessible_paths [] (map (◌++◌ []) (all_paths t)) refl
    ∙ ap (take max_accessible_paths) (map-append_nil (all_paths t))

length-take-le : (n : ℕ) (ps : List FilePath) → length (take n ps) ≤ n
length-take-le n ps = omega (arith, length-take n ps)

count-take-le : (q : FilePath) (n : ℕ) (ps : List FilePath) → count q (take n ps) ≤ count q ps
unfolding count
count-take-le q zero ps = omega arith
count-take-le q (suc n) [] = omega arith
count-take-le q (suc n) (p ∷ ps) = omega (arith, count-take-le q n ps)

-- The list that `trie_collect_paths` gives has at most ten entries, and it names a path at most
-- once, and only if the search finds it.
pub collect_sound :
    (t : TrieNode) (q : FilePath)
    → IsBytes q
    → (length (trie_collect_paths t) ≤ max_accessible_paths)
      × (count q (trie_collect_paths t) ≤ occurs (trie_search t q))
collect_sound t q b =
    rw (collect-take t, ← count-all_paths t q b)
      (
        length-take-le max_accessible_paths (all_paths t),
        count-take-le q max_accessible_paths (all_paths t),
      )

-- In a tree of at most ten paths, `trie_collect_paths` names exactly once every path that the
-- search finds, and no other.
pub collect_complete :
    (t : TrieNode) (q : FilePath)
    → IsBytes q
    → length (all_paths t) ≤ max_accessible_paths
    → count q (trie_collect_paths t) ≡ occurs (trie_search t q)
collect_complete t q b few =
    ap (count q) (collect-take t ∙ take_all max_accessible_paths (all_paths t) few)
    ∙ count-all_paths t q b
