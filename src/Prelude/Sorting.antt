-- ===== src/Prelude/Sorting.antt =====
-- Choosing and ordering the items of a list, as WHERE and ORDER BY do.
use mathlib.Core.List.{List, [], ◌∷◌, Memᴰ}
use mathlib.Core.Path.{◌≡◌, refl, subst, ap, ◌∙◌}
use mathlib.Core.Logic.{◌⊎◌, inl, inr}
use mathlib.Core.Bool.{Bool, true, false}
use mathlib.Core.Option.{none, some}
use Prim.Native.Nat.{ℕ, zero, suc, ◌≤◌, ◌<◌}
use native.Mathlib.Omega.{arith}
use drivechain_litwindow.Prelude.Tests.{leb, if◌then◌else◌, Bool-cases}
use drivechain_litwindow.Prelude.Lists.{length, get_elem?}

-- Whether a list has an item that passes the test, as a unique constraint asks.
abbrev pub some_item : {A : Type 0} → (A → Bool) → List A → Bool
some_item p [] = false
some_item p (a ∷ rest) = if p a then true else some_item p rest

abbrev pub keep : {A : Type 0} → (A → Bool) → List A → List A
keep p [] = []
keep p (a ∷ rest) = let r = keep p rest in if p a then a ∷ r else r

-- ORDER BY a column: rows with equal keys keep the order of their ids.
abbrev pub insert_by : {A : Type 0} → (A → ℕ) → A → List A → List A
insert_by key a [] = a ∷ []
insert_by key a (b ∷ rest) =
    let later = insert_by key a rest in if leb (key a) (key b) then a ∷ b ∷ rest else b ∷ later

abbrev pub sort_by : {A : Type 0} → (A → ℕ) → List A → List A
sort_by key [] = []
sort_by key (a ∷ rest) = insert_by key a (sort_by key rest)

-- The same with the greatest key first.
abbrev pub insert_desc : {A : Type 0} → (A → ℕ) → A → List A → List A
insert_desc key a [] = a ∷ []
insert_desc key a (b ∷ rest) =
    let later = insert_desc key a rest in if leb (key b) (key a) then a ∷ b ∷ rest else b ∷ later

abbrev pub sort_desc : {A : Type 0} → (A → ℕ) → List A → List A
sort_desc key [] = []
sort_desc key (a ∷ rest) = insert_desc key a (sort_desc key rest)

module _ {A : Type 0} where
  pub mem-insert_by :
      (key : A → ℕ) (r a : A) (xs : List A) → Memᴰ r (insert_by key a xs) → (r ≡ a) ⊎ Memᴰ r xs
  mem-insert_by key r a [] (Memᴰ.head e) = inl e
  mem-insert_by key r a [] (Memᴰ.tail m) = elim m [ ]
  mem-insert_by key r a (b ∷ xs) m = elim (Bool-cases (leb (key a) (key b))) [
    | inl first ↦ at_front (subst (λ (l : List A). Memᴰ r l) (rw first) m)
    | inr later ↦ behind (mem-insert_by key r a xs) (subst (λ (l : List A). Memᴰ r l) (rw later) m)
  ]
    where
      at_front : Memᴰ r (a ∷ b ∷ xs) → (r ≡ a) ⊎ Memᴰ r (b ∷ xs)
      at_front (Memᴰ.head e) = inl e
      at_front (Memᴰ.tail n) = inr n

      behind :
          (Memᴰ r (insert_by key a xs) → (r ≡ a) ⊎ Memᴰ r xs)
          → Memᴰ r (b ∷ insert_by key a xs)
          → (r ≡ a) ⊎ Memᴰ r (b ∷ xs)
      behind ih (Memᴰ.head e) = inr (Memᴰ.head e)
      behind ih (Memᴰ.tail n) = elim (ih n) [ inl e ↦ inl e | inr k ↦ inr (Memᴰ.tail k) ]

  pub mem-sort_by : (key : A → ℕ) (r : A) (xs : List A) → Memᴰ r (sort_by key xs) → Memᴰ r xs
  mem-sort_by key r [] m = elim m [ ]
  mem-sort_by key r (x ∷ xs) m = elim (mem-insert_by key r x (sort_by key xs) m) [
    | inl e ↦ Memᴰ.head e
    | inr n ↦ Memᴰ.tail (mem-sort_by key r xs n)
  ]

  pub mem-get_elem? : (xs : List A) (i : ℕ) {r : A} → get_elem? xs i ≡ some r → Memᴰ r xs
  mem-get_elem? [] i h = cc
  mem-get_elem? (x ∷ xs) zero {r} h = let e : r ≡ x = cc in Memᴰ.head e
  mem-get_elem? (x ∷ xs) (suc i) h = Memᴰ.tail (mem-get_elem? xs i h)

  pub mem-keep :
      (p : A → Bool) (r : A) (xs : List A) → Memᴰ r (keep p xs) → Memᴰ r xs × (p r ≡ true)
  mem-keep p r [] m = elim m [ ]
  mem-keep p r (x ∷ xs) m = elim (Bool-cases (p x)) [
    | inl good ↦ of_kept good (mem-keep p r xs) (subst (λ (l : List A). Memᴰ r l) (rw good) m)
    | inr bad ↦ of_rest (mem-keep p r xs (subst (λ (l : List A). Memᴰ r l) (rw bad) m))
  ]
    where
      of_rest : Memᴰ r xs × (p r ≡ true) → Memᴰ r (x ∷ xs) × (p r ≡ true)
      of_rest (n, q) = (Memᴰ.tail n, q)

      of_kept :
          p x ≡ true
          → (Memᴰ r (keep p xs) → Memᴰ r xs × (p r ≡ true))
          → Memᴰ r (x ∷ keep p xs)
          → Memᴰ r (x ∷ xs) × (p r ≡ true)
      of_kept good ih (Memᴰ.head e) = (Memᴰ.head e, rw e good)
      of_kept good ih (Memᴰ.tail n) = of_rest (ih n)

  pub length-insert_by :
      (key : A → ℕ) (a : A) (xs : List A) → length (insert_by key a xs) ≡ suc (length xs)
  length-insert_by key a [] = refl
  length-insert_by key a (b ∷ xs) = elim (Bool-cases (leb (key a) (key b))) [
    | inl first ↦ rw first
    | inr later ↦ rw later (ap suc (length-insert_by key a xs))
  ]

  pub length-sort_by : (key : A → ℕ) (xs : List A) → length (sort_by key xs) ≡ length xs
  length-sort_by key [] = refl
  length-sort_by key (x ∷ xs) =
      length-insert_by key x (sort_by key xs) ∙ ap suc (length-sort_by key xs)

  pub get_elem?_cases :
      (xs : List A) (i : ℕ)
      → ((length xs ≤ i) × (get_elem? xs i ≡ none))
        ⊎ ((i < length xs) × ((r : A) × (get_elem? xs i ≡ some r)))
  get_elem?_cases [] i = inl (omega arith, refl)
  get_elem?_cases (x ∷ xs) zero = inr (omega arith, (x, refl))
  get_elem?_cases (x ∷ xs) (suc i) = elim (get_elem?_cases xs i) [
    | inl out ↦ inl (omega (arith, out.0), out.1)
    | inr found ↦ inr (omega (arith, found.0), found.1)
  ]
