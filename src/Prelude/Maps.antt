-- ===== src/Prelude/Maps.antt =====
-- A Go map with text keys, as the list of its entries: `lookup` is m[k], `insert` is m[k] = v and
-- `erase` is delete(m, k).
use mathlib.Core.List.{List, [], ◌∷◌}
use mathlib.Core.Path.{◌≡◌, refl}
use mathlib.Core.Bool.{Bool, true, false, not}
use mathlib.Core.Option.{Option, none, some}
use native.Mathlib.Omega.{arith}
use drivechain_litwindow.Prelude.Tests.{if◌then◌else◌}
use drivechain_litwindow.Prelude.Lists.{Bytes, same, same_refl, same_comm, eq_of_same}

abbrev pub Entries : Type 0 → Type 0
Entries V = List (Bytes × V)

abbrev pub lookup : {V : Type 0} → Bytes → Entries V → Option V
lookup k [] = none
lookup k ((j, v) ∷ m) = if same j k then some v else lookup k m

abbrev pub has : {V : Type 0} → Bytes → Entries V → Bool
has k [] = false
has k ((j, v) ∷ m) = if same j k then true else has k m

abbrev pub insert : {V : Type 0} → Bytes → V → Entries V → Entries V
insert k v [] = (k, v) ∷ []
insert k v ((j, w) ∷ m) = let rest = insert k v m in if same j k then (j, v) ∷ m else (j, w) ∷ rest

abbrev pub keep_entries : {V : Type 0} → (Bytes → V → Bool) → Entries V → Entries V
keep_entries p [] = []
keep_entries p ((j, w) ∷ m) = let rest = keep_entries p m in if p j w then (j, w) ∷ rest else rest

abbrev pub erase : {V : Type 0} → Bytes → Entries V → Entries V
erase k m = keep_entries (λ j v. not (same j k)) m

abbrev pub values : {V : Type 0} → Entries V → List V
values [] = []
values ((j, v) ∷ m) = v ∷ values m

-- No key stands twice, as in a map.
abbrev pub Distinct : {V : Type 0} → Entries V → Type 0
Distinct [] = Unit
Distinct ((k, v) ∷ m) = (has k m ≡ false) × Distinct m

-- Every entry stands under a property of its key and value.
abbrev pub AllEntries : {V : Type 0} → (Bytes → V → Type 0) → Entries V → Type 0
AllEntries P [] = Unit
AllEntries P ((k, v) ∷ m) = P k v × AllEntries P m

module _ {V : Type 0} where
  pub lookup-insert :
      (k j : Bytes) (v : V) (m : Entries V)
      → lookup j (insert k v m) ≡ (if same k j then some v else lookup j m)
  lookup-insert k j v [] = refl
  lookup-insert k j v ((i, w) ∷ m) =
      ground
        (arith, lookup-insert k j v m, eq_of_same i k, eq_of_same k j, eq_of_same i j, same_refl j)

  pub has-insert :
      (k j : Bytes) (v : V) (m : Entries V)
      → has j (insert k v m) ≡ (if same k j then true else has j m)
  has-insert k j v [] = refl
  has-insert k j v ((i, w) ∷ m) =
      ground
        (arith, has-insert k j v m, eq_of_same i k, eq_of_same k j, eq_of_same i j, same_refl j)

  pub has-lookup : (k : Bytes) (m : Entries V) → lookup k m ≡ none → has k m ≡ false
  has-lookup k [] h = refl
  has-lookup k ((j, v) ∷ m) h = ground (arith, has-lookup k m)

  pub insert-Distinct : (k : Bytes) (v : V) (m : Entries V) → Distinct m → Distinct (insert k v m)
  insert-Distinct k v [] d = (refl, tt)
  insert-Distinct k v ((j, w) ∷ m) d =
      ground (arith, insert-Distinct k v m, has-insert k j v m, same_comm j k)

  pub has-keep_entries :
      (p : Bytes → V → Bool) (k : Bytes) (m : Entries V)
      → has k m ≡ false
      → has k (keep_entries p m) ≡ false
  has-keep_entries p k [] h = refl
  has-keep_entries p k ((j, w) ∷ m) h = ground (arith, has-keep_entries p k m)

  pub keep_entries-Distinct :
      (p : Bytes → V → Bool) (m : Entries V) → Distinct m → Distinct (keep_entries p m)
  keep_entries-Distinct p [] d = tt
  keep_entries-Distinct p ((j, w) ∷ m) d =
      ground (arith, keep_entries-Distinct p m, has-keep_entries p j m)

  pub lookup-erase :
      (k j : Bytes) (m : Entries V) → lookup j (erase k m) ≡ (if same k j then none else lookup j m)
  lookup-erase k j [] = ground arith
  lookup-erase k j ((i, w) ∷ m) =
      ground
        (arith, lookup-erase k j m, eq_of_same i k, eq_of_same k j, eq_of_same i j, same_refl j)

module _ {V : Type 0} (P : Bytes → V → Type 0) where
  pub insert-AllEntries :
      (k : Bytes) (v : V) (m : Entries V) → P k v → AllEntries P m → AllEntries P (insert k v m)
  insert-AllEntries k v [] p h = (p, tt)
  insert-AllEntries k v ((j, w) ∷ m) p h = ground (arith, insert-AllEntries k v m, eq_of_same j k)

  pub keep_entries-AllEntries :
      (p : Bytes → V → Bool) (m : Entries V) → AllEntries P m → AllEntries P (keep_entries p m)
  keep_entries-AllEntries p [] h = tt
  keep_entries-AllEntries p ((j, w) ∷ m) h = ground (arith, keep_entries-AllEntries p m)

  pub lookup-AllEntries :
      (k : Bytes) (m : Entries V) {v : V} → AllEntries P m → lookup k m ≡ some v → P k v
  lookup-AllEntries k [] h e = cc
  lookup-AllEntries k ((j, w) ∷ m) {v} h e =
      ground (arith, lookup-AllEntries k m {v = v}, eq_of_same j k)

-- What an update that keeps a subset of the entries says of the entries kept.
module _ {V : Type 0} (P : Bytes → V → Type 0) (p : Bytes → V → Bool) where
  pub keep_entries-true :
      (step : (k : Bytes) (v : V) → p k v ≡ true → P k v)
      → (m : Entries V) → AllEntries P (keep_entries p m)
  keep_entries-true step [] = tt
  keep_entries-true step ((j, w) ∷ m) = ground (arith, keep_entries-true step m, step j w)
