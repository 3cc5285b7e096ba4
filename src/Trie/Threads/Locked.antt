-- ===== src/Trie/Threads/Locked.antt =====
-- trie.c: what a thread does under the lock of one node.
use mathlib.Core.List.{append-nil}
use network_file_system.Base.{
  ℕ, ◌≡◌, refl, sym, ap, ◌∙◌, subst, false, Option, none, some, [], ◌∷◌, ◌++◌, inl, inr, Bool-cases,
  if◌then◌else◌, same, eq_of_same, arith,
}
use network_file_system.Common.{FilePath}
use network_file_system.Trie.{TrieNode, trie_search}
use network_file_system.Trie.Lookup.{
  IsNode, trie_insert-IsNode, trie_delete-IsNode, search-insert, search-delete,
}
use network_file_system.Trie.Threads.{
  Store, create_node, link, Operation, inserting, searching, deleting, Place, Walker, locking,
  following, Progress, walks_on, returns_with, at_end, at_null, at_child, locked, applied,
  result_of,
}
use network_file_system.Trie.Threads.Walks.{
  node_at, find, IsTree, Grows, node_at-Grows, node_at-live, find_beyond, find-write_info,
  write_info-IsTree,
}
use network_file_system.Trie.Threads.Growth.{grown, find-grown, children-grown, grown-IsTree}

module _ (root : ℕ) where
  -- A thread is at the node of what it has of its path, and where it is to follow a child, there is
  -- one.
  abbrev pub Placed : Store → Walker → Type 0
  Placed st (locking p rest) = node_at st root p.before ≡ some p.current
  Placed st (following p index rest) =
      (node_at st root p.before ≡ some p.current)
      × ((b : ℕ) × (st.children p.current index ≡ some b))

  pub Placed-Grows : (st st' : Store) (w : Walker) → Grows st st' → Placed st w → Placed st' w
  Placed-Grows st st' (locking p rest) g e = node_at-Grows st st' root p.current p.before g e
  Placed-Grows st st' (following p index rest) g (e, (b, there)) =
      (node_at-Grows st st' root p.current p.before g e, (b, g p.current index b there))

  -- The nodes hold what the tree holds.
  abbrev pub Agrees : Store → TrieNode → Type 0
  Agrees st t = (q : FilePath) → find st root q ≡ trie_search t q

  pub applied-IsNode :
      (op : Operation) (path : FilePath) (t : TrieNode) → IsNode t → IsNode (applied op path t)
  applied-IsNode (inserting info) path t h = trie_insert-IsNode t path info h
  applied-IsNode searching path t h = h
  applied-IsNode deleting path t h = trie_delete-IsNode t path h

  -- What a thread does under a lock is sound.
  abbrev pub Does : Store → TrieNode → Operation → FilePath → Progress → Type 0
  Does st t op path (walks_on w st') = IsTree root st' × Grows st st' × Agrees st' t × Placed st' w
  Does st t op path (returns_with o st') =
      IsTree root st' × Grows st st' × Agrees st' (applied op path t) × (o ≡ result_of op path t)

  linked_child :
      (current index child : ℕ) (st : Store)
      → (link current index child st).children current index ≡ some child
  linked_child current index child st = ground arith

  module _ (st : Store) (t : TrieNode) (v : IsTree root st) (agrees : Agrees st t)
      (n : IsNode t) where
    at_end-Does :
        (op : Operation) (path : FilePath) (current : ℕ)
        → node_at st root path ≡ some current
        → Does st t op path (at_end op current st)
    unfolding at_end
    at_end-Does (inserting info) path current e = (
      write_info-IsTree root st v current (some info),
      λ x d y h. h,
      λ q.
          find-write_info root st v current path q (some info) e
          ∙ ap (λ o. if same path q then some info else o) (agrees q)
          ∙ sym (search-insert t path q info n),
      refl,
    )
    at_end-Does searching path current e = (
      v,
      λ x d y h. h,
      agrees,
      sym (ap (λ o. elim o [ none ↦ none | some a ↦ st.ss_info a ]) e) ∙ agrees path,
    )
    at_end-Does deleting path current e = (
      write_info-IsTree root st v current none,
      λ x d y h. h,
      λ q.
          find-write_info root st v current path q none e
          ∙ ap (λ o. if same path q then none else o) (agrees q)
          ∙ sym (search-delete t path q),
      refl,
    )

    deleted_nothing :
        (path : FilePath) → find st root path ≡ none → Agrees st (applied deleting path t)
    deleted_nothing path absent q = elim (Bool-cases (same path q)) [
      | inl one ↦
          ap (find st root) (sym (eq_of_same path q one))
          ∙ absent
          ∙ sym (search-delete t path q ∙ rw one refl)
      | inr other ↦ agrees q ∙ sym (search-delete t path q ∙ rw other refl)
    ]

    at_null-Does :
        (op : Operation) (fresh : ℕ) (p : Place) (index : ℕ) (rest : FilePath)
        → st.live fresh ≡ false
        → node_at st root p.before ≡ some p.current
        → st.children p.current index ≡ none
        → Does st t op (p.before ++ (index ∷ rest)) (at_null op fresh p index rest st)
    unfolding at_null
    at_null-Does (inserting info) fresh p index rest new e absent =
        let alive = node_at-live root st v root p.current p.before v.root_live e in
        let grows = children-grown root st v fresh new p.current index absent alive in
        (
          grown-IsTree root st v fresh new p.current index absent alive,
          grows,
          λ q. find-grown root st v fresh new p.current index absent alive q ∙ agrees q,
          (
            node_at-Grows st (grown root st v fresh new p.current index absent alive) root p.current
                p.before grows e,
            (fresh, linked_child p.current index fresh (create_node fresh st)),
          ),
        )
    at_null-Does searching fresh p index rest new e absent = (
      v,
      λ x d y h. h,
      agrees,
      sym (find_beyond st root p.current index p.before rest e absent)
          ∙ agrees (p.before ++ (index ∷ rest)),
    )
    at_null-Does deleting fresh p index rest new e absent = (
      v,
      λ x d y h. h,
      deleted_nothing (p.before ++ (index ∷ rest))
          (find_beyond st root p.current index p.before rest e absent),
      refl,
    )

    at_child-Does :
        (fresh : ℕ) (p : Place) (index : ℕ) (rest : FilePath) (o : Option ℕ)
        → st.live fresh ≡ false
        → node_at st root p.before ≡ some p.current
        → st.children p.current index ≡ o
        → Does st t p.operation (p.before ++ (index ∷ rest)) (at_child fresh p index rest st o)
    unfolding at_child
    at_child-Does fresh p index rest none new e absent =
        at_null-Does p.operation fresh p index rest new e absent
    at_child-Does fresh p index rest (some b) new e there =
        (v, λ x d y h. h, agrees, (e, (b, there)))

    pub locked-Does :
        (fresh : ℕ) (p : Place) (rest : FilePath)
        → st.live fresh ≡ false
        → Placed st (locking p rest)
        → Does st t p.operation (p.before ++ rest) (locked fresh p rest st)
    unfolding locked
    locked-Does fresh p [] new e =
        subst (λ path. Does st t p.operation path (at_end p.operation p.current st))
          (sym (append-nil p.before)) (at_end-Does p.operation p.before p.current e)
    locked-Does fresh p (index ∷ rest) new e =
        at_child-Does fresh p index rest (st.children p.current index) new e refl
