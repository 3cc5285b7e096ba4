-- ===== src/Trie/Threads/Walks.antt =====
-- trie.c: the nodes in memory as a tree.
use mathlib.Core.List.{append_assoc, append-nil}
use network_file_system.Base.{
  ℕ, ◌≡◌, ◌≢◌, refl, sym, ap, ◌∙◌, inl, inr, true, false, Option, none, some, [], ◌∷◌, ◌++◌, ◌==◌,
  if◌then◌else◌, arith, Option-cases, Bool-cases, same, same_refl, eq_of_same, ==_iff,
}
use network_file_system.Common.{FilePath}
use network_file_system.Trie.Threads.{Store, write_info, new_tree}

-- The node at the end of a path, and what it holds.
pub node_at : Store → ℕ → FilePath → Option ℕ
node_at st a [] = some a
node_at st a (c ∷ p) = elim (st.children a c) [ none ↦ none | some b ↦ node_at st b p ]

abbrev pub info_at : Store → Option ℕ → Option ℕ
info_at st none = none
info_at st (some a) = st.ss_info a

abbrev pub find : Store → ℕ → FilePath → Option ℕ
find st a p = info_at st (node_at st a p)

pub node_at-nil : (st : Store) (a : ℕ) → node_at st a [] ≡ some a
unfolding node_at
node_at-nil st a = refl

pub find-new_tree : (root : ℕ) (q : FilePath) → find (new_tree root).store root q ≡ none
unfolding node_at
find-new_tree root [] = refl
find-new_tree root (c ∷ q) = refl

-- Every node has one place in the tree: the path that leads to it.
pub record IsTree (root : ℕ) (st : Store) : Type 0 where
  pub label : ℕ → FilePath
  pub root_live : st.live root ≡ true
  pub root_label : label root ≡ []
  pub closed : (a c b : ℕ) → st.children a c ≡ some b → st.live b ≡ true
  pub labelled : (a c b : ℕ) → st.children a c ≡ some b → label b ≡ label a ++ (c ∷ [])
  pub dead : (a c : ℕ) → st.live a ≡ false → st.children a c ≡ none

pub some_not_none : {A : Type 0} {a : A} → some a ≢ none
some_not_none e = cc

pub a_is : (st : Store) (a b : ℕ) → node_at st a [] ≡ some b → a ≡ b
unfolding node_at
a_is st a b e = cc

pub node_at_there :
    (st : Store) (a c x : ℕ) (p : FilePath)
    → st.children a c ≡ some x
    → node_at st a (c ∷ p) ≡ node_at st x p
unfolding node_at
node_at_there st a c x p e = ap (λ o. elim o [ none ↦ none | some b ↦ node_at st b p ]) e

pub node_at_absent :
    (st : Store) (a c : ℕ) (p : FilePath) → st.children a c ≡ none → node_at st a (c ∷ p) ≡ none
unfolding node_at
node_at_absent st a c p e = ap (λ o. elim o [ none ↦ none | some b ↦ node_at st b p ]) e

pub node_at_step :
    (st : Store) (a c b : ℕ) (p : FilePath)
    → node_at st a (c ∷ p) ≡ some b
    → (x : ℕ) × (st.children a c ≡ some x) × (node_at st x p ≡ some b)
node_at_step st a c b p e = elim (Option-cases (st.children a c)) [
  | inl absent ↦ absurd (ground (arith, e, node_at_absent st a c p absent))
  | inr (x, there) ↦ (x, there, sym (node_at_there st a c x p there) ∙ e)
]

pub node_at-append :
    (st : Store) (a b : ℕ) (p q : FilePath)
    → node_at st a p ≡ some b
    → node_at st a (p ++ q) ≡ node_at st b q
node_at-append st a b [] q e = ap (λ x. node_at st x q) (a_is st a b e)
node_at-append st a b (c ∷ p) q e =
    let (x, there, rest) = node_at_step st a c b p e in
    node_at_there st a c x (p ++ q) there ∙ node_at-append st x b p q rest

-- What a path finds behind the node of its beginning.
pub find_beyond :
    (st : Store) (root a c : ℕ) (p q : FilePath)
    → node_at st root p ≡ some a
    → st.children a c ≡ none
    → find st root (p ++ (c ∷ q)) ≡ none
find_beyond st root a c p q e absent =
    ap (info_at st) (node_at-append st root a p (c ∷ q) e ∙ node_at_absent st a c q absent)

pub node_at-child :
    (st : Store) (root a c b : ℕ) (p : FilePath)
    → node_at st root p ≡ some a
    → st.children a c ≡ some b
    → node_at st root (p ++ (c ∷ [])) ≡ some b
unfolding node_at
node_at-child st root a c b p e there =
    node_at-append st root a p (c ∷ []) e ∙ node_at_there st a c b [] there

module _ (root : ℕ) (st : Store) (v : IsTree root st) where
  pub node_at-label :
      (a b : ℕ) (p : FilePath) → node_at st a p ≡ some b → v.label b ≡ v.label a ++ p
  node_at-label a b [] e = ap v.label (sym (a_is st a b e)) ∙ sym (append-nil (v.label a))
  node_at-label a b (c ∷ p) e =
      let (x, there, rest) = node_at_step st a c b p e in
      node_at-label x b p rest
      ∙ ap (λ l. l ++ p) (v.labelled a c x there)
      ∙ append_assoc (v.label a) (c ∷ []) p

  pub node_at-live :
      (a b : ℕ) (p : FilePath) → st.live a ≡ true → node_at st a p ≡ some b → st.live b ≡ true
  node_at-live a b [] l e = ap st.live (sym (a_is st a b e)) ∙ l
  node_at-live a b (c ∷ p) l e =
      let (x, there, rest) = node_at_step st a c b p e in
      node_at-live x b p (v.closed a c x there) rest

  -- A path leads to a node only if it is the node's.
  pub node_at_unique :
      (p q : FilePath) (b : ℕ) → node_at st root p ≡ some b → node_at st root q ≡ some b → p ≡ q
  node_at_unique p q b e f =
      sym (ap (λ l. l ++ p) v.root_label)
      ∙ sym (node_at-label root b p e)
      ∙ node_at-label root b q f
      ∙ ap (λ l. l ++ q) v.root_label

-- A write of `ss_info` moves no node.
node_at-write_info :
    (st : Store) (a b : ℕ) (info : Option ℕ) (q : FilePath)
    → node_at (write_info a info st) b q ≡ node_at st b q
unfolding node_at
node_at-write_info st a b info [] = refl
node_at-write_info st a b info (c ∷ q) = elim (Option-cases (st.children b c)) [
  | inl absent ↦
      node_at_absent (write_info a info st) b c q absent ∙ sym (node_at_absent st b c q absent)
  | inr (x, there) ↦
      node_at_there (write_info a info st) b c x q there
      ∙ node_at-write_info st a x info q
      ∙ sym (node_at_there st b c x q there)
]

module _ (root : ℕ) (st : Store) (v : IsTree root st) where
  -- A write at the node of a path changes what that path finds, and nothing else.
  pub find-write_info :
      (a : ℕ) (p q : FilePath) (info : Option ℕ)
      → node_at st root p ≡ some a
      → find (write_info a info st) root q ≡ (if same p q then info else find st root q)
  find-write_info a p q info e =
      ap (info_at (write_info a info st)) (node_at-write_info st a root info q)
      ∙ elim (Option-cases (node_at st root q)) [
        | inl absent ↦ elim (Bool-cases (same p q)) [
          | inl one ↦
              absurd (some_not_none (sym e ∙ ap (node_at st root) (eq_of_same p q one) ∙ absent))
          | inr other ↦ rw (absent, other) refl
        ]
        | inr (b, there) ↦ elim (Bool-cases (b == a)) [
          | inl at_a ↦
              let alike : same p q ≡ true =
                rw (← node_at_unique root st v p q a e (there ∙ ap some ((==_iff b a).0 at_a)))
                  (same_refl p) in
              rw (there, alike, at_a) refl
          | inr elsewhere ↦ elim (Bool-cases (same p q)) [
            | inl one ↦
                let alike = sym e ∙ ap (node_at st root) (eq_of_same p q one) ∙ there in
                absurd (ground (arith, alike, elsewhere))
            | inr other ↦ rw (there, other, elsewhere) refl
          ]
        ]
      ]

  pub write_info-IsTree : (a : ℕ) (info : Option ℕ) → IsTree root (write_info a info st)
  write_info-IsTree a info = record {
    label = v.label;
    root_live = v.root_live;
    root_label = v.root_label;
    closed = v.closed;
    labelled = v.labelled;
    dead = v.dead;
  }

-- Every child stays where it is.
abbrev pub Grows : Store → Store → Type 0
Grows st st' = (x d y : ℕ) → st.children x d ≡ some y → st'.children x d ≡ some y

pub node_at-Grows :
    (st st' : Store) (x b : ℕ) (p : FilePath)
    → Grows st st'
    → node_at st x p ≡ some b
    → node_at st' x p ≡ some b
unfolding node_at
node_at-Grows st st' x b [] g e = e
node_at-Grows st st' x b (d ∷ p) g e =
    let (y, found, rest) = node_at_step st x d b p e in
    node_at_there st' x d y p (g x d y found) ∙ node_at-Grows st st' y b p g rest
