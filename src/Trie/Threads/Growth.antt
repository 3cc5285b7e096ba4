-- ===== src/Trie/Threads/Growth.antt =====
-- trie.c: the nodes in memory when one is added.
use network_file_system.Base.{
  ℕ, ◌≡◌, refl, sym, ap, ◌∙◌, subst, ◌⊎◌, inl, inr, true, false, none, some, [], ◌∷◌, ◌++◌, ◌==◌,
  ◌&&◌, if◌then◌else◌, arith, Option-cases, Bool-cases, ==_iff,
}
use network_file_system.Common.{FilePath}
use network_file_system.Trie.Threads.{Store, create_node, link}
use network_file_system.Trie.Threads.Walks.{
  node_at, node_at-nil, find, IsTree, Grows, node_at-Grows, node_at-live, some_not_none, a_is,
  node_at_there, node_at_step,
}

module _ (root : ℕ) (st : Store) (v : IsTree root st) (fresh : ℕ)
    (new : st.live fresh ≡ false) where
  -- A new child of a node.
  module _ (a c : ℕ) (free : st.children a c ≡ none) (there : st.live a ≡ true) where
    abbrev pub grown : Store
    grown = link a c fresh (create_node fresh st)

    is_dead : (x : ℕ) → (x == fresh) ≡ true → st.live x ≡ false
    is_dead x e = ap st.live ((==_iff x fresh).0 e) ∙ new

    is_free : (x d : ℕ) → ((x == a) && (d == c)) ≡ true → st.children x d ≡ none
    is_free x d e =
        let x_is : x ≡ a = ground arith in let d_is : d ≡ c = ground arith in rw (x_is, d_is) free

    pub children-grown : Grows st grown
    children-grown x d y e = elim (Bool-cases (x == fresh)) [
      | inl is_new ↦ absurd (some_not_none (sym e ∙ v.dead x d (is_dead x is_new)))
      | inr old ↦ elim (Bool-cases ((x == a) && (d == c))) [
        | inl linked ↦ absurd (some_not_none (sym e ∙ is_free x d linked))
        | inr other ↦ rw (other, old) e
      ]
    ]

    not_old : (x : ℕ) → st.live x ≡ true → (x == fresh) ≡ false
    not_old x l = elim (Bool-cases (x == fresh)) [
      | inr old ↦ old
      | inl is_new ↦ absurd (ground (arith, sym l ∙ is_dead x is_new))
    ]

    new_child : (x d y : ℕ) → st.children x d ≡ none → grown.children x d ≡ some y → y ≡ fresh
    new_child x d y absent e = ground arith

    linked_at :
        (x d y : ℕ) → st.children x d ≡ none → grown.children x d ≡ some y → (x ≡ a) × (d ≡ c)
    linked_at x d y absent e = ground arith

    has_child : (x d y : ℕ) → st.children x d ≡ some y → st.live x ≡ true
    has_child x d y e = elim (Bool-cases (st.live x)) [
      | inl alive ↦ alive
      | inr gone ↦ absurd (some_not_none (sym e ∙ v.dead x d gone))
    ]

    node_at_new : (b : ℕ) (p : FilePath) → node_at grown fresh p ≡ some b → b ≡ fresh
    node_at_new b [] e = sym (a_is grown fresh b e)
    node_at_new b (d ∷ p) e =
        let (y, found, rest) = node_at_step grown fresh d b p e in
        absurd (ground (arith, not_old a there, found))

    -- A node that is reached is the new one, or was reached before.
    node_at-back :
        (x b : ℕ) (p : FilePath)
        → st.live x ≡ true
        → node_at grown x p ≡ some b
        → (node_at st x p ≡ some b) ⊎ (b ≡ fresh)
    node_at-back x b [] l e = inl (node_at-nil st x ∙ ap some (a_is grown x b e))
    node_at-back x b (d ∷ p) l e =
        let (y, found, rest) = node_at_step grown x d b p e in
        elim (Option-cases (st.children x d)) [
          | inr (z, old) ↦
              let same_child : z ≡ y = ground (arith, sym (children-grown x d z old) ∙ found) in
              elim (node_at-back y b p (v.closed x d y (old ∙ ap some same_child)) rest) [
                | inl before ↦ inl (node_at_there st x d y p (old ∙ ap some same_child) ∙ before)
                | inr is_new ↦ inr is_new
              ]
          | inl absent ↦ inr (
              node_at_new b p
                (subst (λ n. node_at grown n p ≡ some b) (new_child x d y absent found) rest))
        ]

    -- The new node changes what no path finds.
    pub find-grown : (q : FilePath) → find grown root q ≡ find st root q
    find-grown q = elim (Option-cases (node_at st root q)) [
      | inr (b, old) ↦
          rw
            (
              old,
              node_at-Grows st grown root b q children-grown old,
              not_old b (node_at-live root st v root b q v.root_live old),
            )
            refl
      | inl absent ↦ elim (Option-cases (node_at grown root q)) [
        | inl still ↦ rw (absent, still) refl
        | inr (b, now) ↦ elim (node_at-back root b q v.root_live now) [
          | inl old ↦ absurd (some_not_none (sym old ∙ absent))
          | inr is_new ↦ rw (absent, now, (==_iff b fresh).1 is_new) refl
        ]
      ]
    ]

    abbrev grown_label : ℕ → FilePath
    grown_label x = if x == fresh then v.label a ++ (c ∷ []) else v.label x

    grown-closed : (x d y : ℕ) → grown.children x d ≡ some y → grown.live y ≡ true
    grown-closed x d y e = elim (Option-cases (st.children x d)) [
      | inl absent ↦ rw ((==_iff y fresh).1 (new_child x d y absent e)) refl
      | inr (z, old) ↦
          let same_child : z ≡ y = ground (arith, sym (children-grown x d z old) ∙ e) in
          let alive = v.closed x d y (old ∙ ap some same_child) in rw (not_old y alive) alive
    ]

    grown-labelled :
        (x d y : ℕ) → grown.children x d ≡ some y → grown_label y ≡ grown_label x ++ (d ∷ [])
    grown-labelled x d y e = elim (Option-cases (st.children x d)) [
      | inr (z, old) ↦
          let same_child : z ≡ y = ground (arith, sym (children-grown x d z old) ∙ e) in
          let before = old ∙ ap some same_child in
          rw (not_old y (v.closed x d y before), not_old x (has_child x d y before))
            (v.labelled x d y before)
      | inl absent ↦
          let (x_is, d_is) = linked_at x d y absent e in
          rw (x_is, d_is, (==_iff y fresh).1 (new_child x d y absent e), not_old a there) refl
    ]

    grown-dead : (x d : ℕ) → grown.live x ≡ false → grown.children x d ≡ none
    grown-dead x d l = elim (Bool-cases (x == fresh)) [
      | inl is_new ↦ absurd (ground (arith, rw is_new at l))
      | inr old ↦
          let gone : st.live x ≡ false = rw old at l in
          elim (Bool-cases (x == a)) [
            | inl at_a ↦
                absurd (ground (arith, sym gone ∙ ap st.live ((==_iff x a).0 at_a) ∙ there))
            | inr apart ↦ rw (apart, old) (v.dead x d gone)
          ]
    ]

    pub grown-IsTree : IsTree root grown
    grown-IsTree = record {
      label = grown_label;
      root_live = rw (not_old root v.root_live) v.root_live;
      root_label = rw (not_old root v.root_live) v.root_label;
      closed = grown-closed;
      labelled = grown-labelled;
      dead = grown-dead;
    }
