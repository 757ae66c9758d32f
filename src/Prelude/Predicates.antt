-- ===== src/Prelude/Predicates.antt =====
-- A predicate on every item of a list, by recursion, so that the tactics read it as a tuple.
use mathlib.Core.List.{List, [], ◌∷◌, ◌++◌, map, reverse, reverse-append}

abbrev pub All {ℓ κ} : {A : Type ℓ} → (A → Type κ) → List A → Type κ
All P [] = Unit
All P (x ∷ xs) = P x × All P xs

module _ {ℓ κ} {A : Type ℓ} (P : A → Type κ) where
  pub All-append : (xs ys : List A) → All P xs → All P ys → All P (xs ++ ys)
  All-append [] ys hx hy = hy
  All-append (x ∷ xs) ys (px, hx) hy = (px, All-append xs ys hx hy)

  pub All-reverse : (xs : List A) → All P xs → All P (reverse xs)
  All-reverse [] h = h
  All-reverse (x ∷ xs) (p, h) =
      rw (reverse-append (x ∷ []) xs) (All-append (reverse xs) (x ∷ []) (All-reverse xs h) (p, tt))

module _ {ℓ κ} {A : Type ℓ} (P Q : A → Type κ) (step : (x : A) → P x → Q x) where
  pub All_mono : (xs : List A) → All P xs → All Q xs
  All_mono [] h = tt
  All_mono (x ∷ xs) (p, h) = (step x p, All_mono xs h)

-- What an update of each item does to a predicate on every item.
module _ {ℓ κ} {A : Type ℓ} (P Q : A → Type κ) (f : A → A) (step : (x : A) → P x → Q (f x)) where
  pub All-map : (xs : List A) → All P xs → All Q (map f xs)
  All-map [] h = tt
  All-map (x ∷ xs) (p, h) = (step x p, All-map xs h)
