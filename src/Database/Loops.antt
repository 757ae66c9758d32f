-- ===== src/Database/Loops.antt =====
-- What a loop of calls establishes and what it keeps, whichever calls fail.
use mathlib.Core.List.{Memᴰ}
use mathlib.Core.Path.{subst}
use drivechain_litwindow.Prelude.{◌≡◌, refl, sym, ap, ◌∙◌, List, [], ◌∷◌, Result, ok, err, All}
use drivechain_litwindow.Database.{World, Action, continue, pure, ◌>>=◌, for_each}

module _ {E T A : Type 0} (P : T → Type 0) (f : A → Action E T (Unit {0})) where
  abbrev Holds : Result E (Unit {0}) × World T → Type 0
  Holds x = P x.1.tables

  continue-keeps :
      (x : Result E (Unit {0}) × World T) (g : Unit {0} → Action E T (Unit {0}))
      → P x.1.tables
      → ((v : World T) → P v.tables → Holds (g tt v))
      → Holds (continue x g)
  continue-keeps (ok tt, v) g h k = k v h
  continue-keeps (err e, v) g h k = h

  pub for_each-keeps :
      (xs : List A)
      → All (λ (a : A). (w : World T) → P w.tables → P (f a w).1.tables) xs
      → (w : World T) → P w.tables
      → P (for_each f xs w).1.tables
  unfolding for_each ◌>>=◌ pure
  for_each-keeps [] h w p = p
  for_each-keeps (a ∷ xs) (k, h) w p =
      continue-keeps (f a w) (λ _. for_each f xs) (k w p) (for_each-keeps xs h)

  continue-ok :
      (x : Result E (Unit {0}) × World T) (g : Unit {0} → Action E T (Unit {0}))
      → (continue x g).0 ≡ ok tt
      → (x.0 ≡ ok tt) × (continue x g ≡ g tt x.1)
  continue-ok (ok tt, v) g h = (refl, refl)
  continue-ok (err e, v) g h = absurd (cc h)

  pub for_each-establishes :
      (xs : List A) (a : A) (w : World T)
      → Memᴰ a xs
      → ((v : World T) → (f a v).0 ≡ ok tt → P (f a v).1.tables)
      → ((b : A) (v : World T) → P v.tables → P (f b v).1.tables)
      → (for_each f xs w).0 ≡ ok tt
      → P (for_each f xs w).1.tables
  unfolding for_each ◌>>=◌
  for_each-establishes [] a w m makes keeps h = elim m [ ]
  for_each-establishes (b ∷ xs) a w (Memᴰ.head e) makes keeps h =
      let (done, later) = continue-ok (f b w) (λ _. for_each f xs) h in
      let here : P (f b w).1.tables =
        subst (λ x. (f x w).0 ≡ ok tt → P (f x w).1.tables) e (makes w) done in
      subst Holds (sym later) (for_each-keeps xs (everywhere xs) (f b w).1 here)
    where
      everywhere :
          (ys : List A) → All (λ (c : A). (v : World T) → P v.tables → P (f c v).1.tables) ys
      everywhere [] = tt
      everywhere (y ∷ ys) = (keeps y, everywhere ys)
  for_each-establishes (b ∷ xs) a w (Memᴰ.tail m) makes keeps h =
      let (done, later) = continue-ok (f b w) (λ _. for_each f xs) h in
      let same_result : (for_each f xs (f b w).1).0 ≡ ok tt =
        ap (λ (x : Result E (Unit {0}) × World T). x.0) (sym later) ∙ h in
      subst Holds (sym later) (for_each-establishes xs a (f b w).1 m makes keeps same_result)
