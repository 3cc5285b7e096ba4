-- ===== src/Trie/Free.antt =====
-- trie.c: free_trie, by the nodes that it frees. A node is named by the path that leads to it.
use mathlib.Core.List.{map}
use network_file_system.Base.{
  ◌≡◌, refl, Bool, true, false, List, [], ◌∷◌, ◌++◌, arith, if◌then◌else◌, same,
}
use network_file_system.Common.{FilePath}
use network_file_system.Trie.{TrieNode, null, node, max_children}
use network_file_system.Trie.AllPaths.{
  branches, count, count-append, count-branches_nil, count-branches_cons, IsBytes,
}

-- The nodes in the order in which they are freed: the children one after the other, then the node.
unfoldable free_trie : TrieNode → List FilePath
free_trie null = []
free_trie (node children info) =
    branches max_children 0 (λ i. map (◌∷◌ i) (free_trie (children i))) ++ [] ∷ []

-- Whether a path leads to a node.
unfoldable has_node : TrieNode → FilePath → Bool
has_node null q = false
has_node (node children info) [] = true
has_node (node children info) (c ∷ q) = has_node (children c) q

-- Every node of the tree is freed exactly once, and nothing else is freed.
count-free_trie :
    (t : TrieNode) (q : FilePath)
    → IsBytes q
    → count q (free_trie t) ≡ (if has_node t q then 1 else 0)
unfolding free_trie has_node count same
count-free_trie null q b = refl
count-free_trie (node ch info) [] b = omega (
  arith,
  count-append [] (branches max_children 0 (λ i. map (◌∷◌ i) (free_trie (ch i)))) ([] ∷ []),
  count-branches_nil max_children 0 (λ i. free_trie (ch i)),
)
count-free_trie (node ch info) (c ∷ q) b = ground (
  arith,
  count-append (c ∷ q) (branches max_children 0 (λ i. map (◌∷◌ i) (free_trie (ch i)))) ([] ∷ []),
  count-branches_cons max_children 0 c q (λ i. free_trie (ch i)),
  count-free_trie (ch c) q b.1,
)
