-- ===== src/Trie/Lookup.antt =====
-- trie.c: what `trie_search` finds after `trie_insert` and `trie_delete`.
use network_file_system.Base.{ℕ, ◌≡◌, refl, none, some, [], ◌∷◌, arith, if◌then◌else◌, same}
use network_file_system.Common.{FilePath}
use network_file_system.Trie.{
  TrieNode, null, node, create_trie_node, child_or_new, trie_insert, trie_search, trie_delete,
}

-- `create_trie_node` gave the node, and NULL is not one.
abbrev pub IsNode : TrieNode → Type 0
IsNode null = ⊥
IsNode (node _ _) = Unit {0}

pub create_trie_node-IsNode : IsNode create_trie_node
unfolding create_trie_node
create_trie_node-IsNode = tt

pub trie_insert-IsNode :
    (t : TrieNode) (p : FilePath) (r : ℕ) → IsNode t → IsNode (trie_insert t p r)
unfolding trie_insert
trie_insert-IsNode null p r h = absurd h
trie_insert-IsNode (node ch i) [] r h = tt
trie_insert-IsNode (node ch i) (c ∷ p) r h = tt

pub trie_delete-IsNode : (t : TrieNode) (p : FilePath) → IsNode t → IsNode (trie_delete t p)
unfolding trie_delete
trie_delete-IsNode null p h = absurd h
trie_delete-IsNode (node ch i) [] h = tt
trie_delete-IsNode (node ch i) (c ∷ p) h = tt

child_or_new-IsNode : (t : TrieNode) → IsNode (child_or_new t)
unfolding child_or_new
child_or_new-IsNode null = tt
child_or_new-IsNode (node ch i) = tt

pub search-create_trie_node : (q : FilePath) → trie_search create_trie_node q ≡ none
unfolding trie_search create_trie_node
search-create_trie_node [] = refl
search-create_trie_node (c ∷ []) = refl
search-create_trie_node (c ∷ d ∷ q) = refl

search-child_or_new :
    (t : TrieNode) (q : FilePath) → trie_search (child_or_new t) q ≡ trie_search t q
unfolding child_or_new trie_search
search-child_or_new null q = search-create_trie_node q
search-child_or_new (node ch i) q = refl

-- After an insert at `p` the search finds the new server at `p`, and elsewhere what it found before.
pub search-insert :
    (t : TrieNode) (p q : FilePath) (r : ℕ)
    → IsNode t
    → trie_search (trie_insert t p r) q ≡ (if same p q then some r else trie_search t q)
unfolding trie_insert trie_search same
search-insert null p q r h = absurd h
search-insert (node ch i) [] [] r h = refl
search-insert (node ch i) [] (d ∷ q) r h = refl
search-insert (node ch i) (c ∷ p) [] r h = refl
search-insert (node ch i) (c ∷ p) (d ∷ q) r h = ground (
  arith,
  search-insert (child_or_new (ch c)) p q r (child_or_new-IsNode (ch c)),
  search-child_or_new (ch c) q,
)

-- After a delete at `p` the search finds nothing at `p`, and elsewhere what it found before.
pub search-delete :
    (t : TrieNode) (p q : FilePath)
    → trie_search (trie_delete t p) q ≡ (if same p q then none else trie_search t q)
unfolding trie_delete trie_search same
search-delete null [] q = ground arith
search-delete null (c ∷ p) q = ground arith
search-delete (node ch i) [] [] = refl
search-delete (node ch i) [] (d ∷ q) = refl
search-delete (node ch i) (c ∷ p) [] = refl
search-delete (node ch i) (c ∷ p) (d ∷ q) = ground (arith, search-delete (ch c) p q)
