-- ===== src/Trie/Tests.antt =====
-- Trees of one path and of two, and the theorems about trees there.
use network_file_system.Base.{◌≡◌, refl, none, some, [], ◌∷◌, if◌then◌else◌, same, take}
use network_file_system.Common.{FilePath, max_accessible_paths}
use network_file_system.Trie.{
  TrieNode, create_trie_node, trie_insert, trie_search, trie_delete, trie_collect_paths,
}
use network_file_system.Trie.Lookup.{create_trie_node-IsNode, search-insert, search-delete}
use network_file_system.Trie.AllPaths.{all_paths}
use network_file_system.Trie.Collect.{collect-take}

-- "ab" leads to server 3, then "a" to server 1 too.
abbrev path_a : FilePath
path_a = 97 ∷ []

abbrev path_ab : FilePath
path_ab = 97 ∷ 98 ∷ []

abbrev one_path : TrieNode
one_path = trie_insert create_trie_node path_ab 3

abbrev two_paths : TrieNode
two_paths = trie_insert one_path path_a 1

both_found : (trie_search two_paths path_ab ≡ some 3) × (trie_search two_paths path_a ≡ some 1)
unfolding trie_search trie_insert create_trie_node
both_found = (refl, refl)

search-insert_example :
    trie_search one_path path_ab
    ≡ (if same path_ab path_ab then some 3 else trie_search create_trie_node path_ab)
search-insert_example = search-insert create_trie_node path_ab path_ab 3 create_trie_node-IsNode

search-delete_example :
    trie_search (trie_delete two_paths path_a) path_ab
    ≡ (if same path_a path_ab then none else trie_search two_paths path_ab)
search-delete_example = search-delete two_paths path_a path_ab

collect-take_example :
    trie_collect_paths two_paths ≡ take max_accessible_paths (all_paths two_paths)
collect-take_example = collect-take two_paths
