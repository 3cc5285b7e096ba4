-- ===== src/Trie.antt =====
-- trie.c and trie.h: the tree from paths to storage servers that the naming server keeps.
-- `ss_info` points into the array `registered_ss`, so it is an index of that array. A node owns its
-- children, so the tree is a value; `null` is the pointer NULL.
pub mod Lookup
pub mod AllPaths
mod Free
pub mod Collect
pub mod Threads
mod Tests
use network_file_system.Base.{
  ℕ, zero, suc, ◌+◌, Option, none, some, List, [], ◌∷◌, ◌++◌, ltb, ◌==◌, if◌then◌else◌, length,
}
use network_file_system.Common.{FilePath, max_accessible_paths}

abbrev pub max_children : ℕ
max_children = 256

pub data TrieNode : Type 0 where
  null : TrieNode
  node : (ℕ → TrieNode) → Option ℕ → TrieNode

unfoldable pub create_trie_node : TrieNode
create_trie_node = node (λ _. null) none

-- `children[index] = t`
pub set_child : (ℕ → TrieNode) → ℕ → TrieNode → ℕ → TrieNode
set_child children index t i = if i == index then t else children i

-- `if (!t) t = create_trie_node()`
pub child_or_new : TrieNode → TrieNode
unfolding create_trie_node
child_or_new null = create_trie_node
child_or_new (node children info) = node children info

-- The write at the end of a path, `current->ss_info = info`.
pub set_ss_info : TrieNode → Option ℕ → TrieNode
set_ss_info null info = null
set_ss_info (node children _) info = node children info

unfoldable pub trie_insert : TrieNode → FilePath → ℕ → TrieNode
unfolding set_ss_info set_child child_or_new
trie_insert root [] ss_info = set_ss_info root (some ss_info)
trie_insert null (c ∷ path) ss_info = null
trie_insert (node children info) (c ∷ path) ss_info =
    node (set_child children c (trie_insert (child_or_new (children c)) path ss_info)) info

unfoldable pub trie_search : TrieNode → FilePath → Option ℕ
trie_search null path = none
trie_search (node children info) [] = info
trie_search (node children info) (c ∷ path) = trie_search (children c) path

unfoldable pub trie_delete : TrieNode → FilePath → TrieNode
unfolding set_ss_info set_child
trie_delete root [] = set_ss_info root none
trie_delete null (c ∷ path) = null
trie_delete (node children info) (c ∷ path) =
    node (set_child children c (trie_delete (children c) path)) info

-- `for (int i = 0; i < MAX_CHILDREN; i++)`, by the rounds left.
pub for_children : ℕ → ℕ → (ℕ → List FilePath → List FilePath) → List FilePath → List FilePath
for_children zero i visit paths = paths
for_children (suc rounds) i visit paths = for_children rounds (i + 1) visit (visit i paths)

-- A node that ends a path adds it while there is room. `*count` is the length of `paths`.
pub collect_here : Option ℕ → FilePath → List FilePath → List FilePath
collect_here none current paths = paths
collect_here (some _) current paths =
    if ltb (length paths) max_accessible_paths then paths ++ current ∷ [] else paths

-- `current` is `current_path[0 .. level]`.
pub collect_paths_recursive : TrieNode → FilePath → List FilePath → List FilePath
unfolding collect_here
collect_paths_recursive null current paths = paths
collect_paths_recursive (node children info) current paths =
    for_children max_children 0
      (λ i found. collect_paths_recursive (children i) (current ++ i ∷ []) found)
      (collect_here info current paths)

pub trie_collect_paths : TrieNode → List FilePath
unfolding collect_paths_recursive
trie_collect_paths root = collect_paths_recursive root [] []
