-- ===== src/Base/Places.antt =====
-- One element of a list: it becomes another, or it leaves the list. A statement about
-- all elements.
use mathlib.Core.List.{List, [], ◌∷◌}

module _ {A : Type 0} where
  pub data Becomes (a b : A) : List A → List A → Type 0 where
    here : {xs : List A} → Becomes a b (a ∷ xs) (b ∷ xs)
    there : {xs ys : List A} (x : A) → Becomes a b xs ys → Becomes a b (x ∷ xs) (x ∷ ys)

  pub data Ends (a : A) : List A → List A → Type 0 where
    first : {xs : List A} → Ends a (a ∷ xs) xs
    later : {xs ys : List A} (x : A) → Ends a xs ys → Ends a (x ∷ xs) (x ∷ ys)

module _ {A : Type 0} (P : A → Type 0) where
  abbrev pub All : List A → Type 0
  All [] = Unit {0}
  All (x ∷ xs) = P x × All xs

  pub Becomes-All : {a b : A} {xs ys : List A} → Becomes a b xs ys → All xs → P a × (P b → All ys)
  Becomes-All here (k, ks) = (k, λ k'. (k', ks))
  Becomes-All (there x r) (k, ks) = let (k1, f) = Becomes-All r ks in (k1, λ k'. (k, f k'))

  pub Ends-All : {a : A} {xs ys : List A} → Ends a xs ys → All xs → P a × All ys
  Ends-All first (k, ks) = (k, ks)
  Ends-All (later x r) (k, ks) = let (k1, rest) = Ends-All r ks in (k1, (k, rest))

pub All-map :
    {A : Type 0} {P Q : A → Type 0} → ((a : A) → P a → Q a) → (xs : List A) → All P xs → All Q xs
All-map f [] h = h
All-map f (x ∷ xs) (h, hs) = (f x h, All-map f xs hs)
