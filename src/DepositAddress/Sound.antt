-- ===== src/DepositAddress/Sound.antt =====
-- What a decoded deposit address is known to satisfy.
use mathlib.Core.Path.{subst}
use drivechain_litwindow.Prelude.{
  ℕ, ◌≤◌, ◌≡◌, refl, Option, none, some, List, [], ◌∷◌, Bytes, same, eq_of_same, arith, Result, ok,
  err, Bool-cases, inl, inr, ◌⊎◌,
}
use drivechain_litwindow.Prelude.Int.{ℤ, pos, negsuc}
use drivechain_litwindow.Deniability.Sizes.{parse_int}
use drivechain_litwindow.DepositAddress.{
  DepositError, DepositAddress, check_slot, parse_slot, trim_s, slot_and_address, checksum_of,
  with_checksum, decode_parts, split_underscore, decode_deposit_address,
}

-- A slot, where there is one, lies between 0 and 255.
abbrev pub IsInRange : Option ℤ → Type 0
IsInRange o = (o ≡ none) ⊎ ((n : ℕ) × (o ≡ some (pos n)) × (n ≤ 255))

-- What is known of a decoded address: its slot is in range, and a checksum is the one of its slot and address.
pub record IsSound (sha256 : Bytes → Bytes) (d : DepositAddress) : Type 0 where
  pub in_range : IsInRange d.slot
  pub checked :
      (c : Bytes)
      → d.checksum ≡ some c
      → (z : ℤ) × (d.slot ≡ some z) × (c ≡ checksum_of sha256 z d.address)

check_slot-IsInRange : (o : Option ℤ) (z : ℤ) → check_slot o ≡ ok z → IsInRange (some z)
unfolding check_slot
check_slot-IsInRange none z h = cc
check_slot-IsInRange (some (negsuc n)) z h = cc
check_slot-IsInRange (some (pos n)) z h = inr (n, ground arith, ground arith)

parse_slot-IsInRange : (part : Bytes) (z : ℤ) → parse_slot part ≡ ok z → IsInRange (some z)
unfolding parse_slot
parse_slot-IsInRange part z h = check_slot-IsInRange (parse_int (trim_s part)) z h

module _ (sha256 : Bytes → Bytes) where
  slot_and_address-IsSound :
      (r : Result DepositError ℤ) (address : Bytes) (d : DepositAddress)
      → ((z : ℤ) → r ≡ ok z → IsInRange (some z))
      → slot_and_address r address ≡ ok d
      → IsSound sha256 d
  unfolding slot_and_address
  slot_and_address-IsSound (err e) address d ranged h = cc
  slot_and_address-IsSound (ok z) address d ranged h =
      let e : record { slot = some z; address = address; checksum = none } ≡ d = cc in
      subst (IsSound sha256) e (record { in_range = ranged z refl; checked = λ c q. cc })

  with_checksum-IsSound :
      (r : Result DepositError ℤ) (address checksum : Bytes) (d : DepositAddress)
      → ((z : ℤ) → r ≡ ok z → IsInRange (some z))
      → with_checksum sha256 r address checksum ≡ ok d
      → IsSound sha256 d
  unfolding with_checksum
  with_checksum-IsSound (err e) address checksum d ranged h = cc
  with_checksum-IsSound (ok z) address checksum d ranged h =
      elim (Bool-cases (same checksum (checksum_of sha256 z address))) [
        | inr bad ↦
            let e : record { slot = some z; address = address; checksum = none } ≡ d =
              cc (rw bad at h) in
            subst (IsSound sha256) e (record { in_range = ranged z refl; checked = λ c q. cc })
        | inl good ↦
            let e : record { slot = some z; address = address; checksum = some checksum } ≡ d =
              cc (rw good at h) in
            subst (IsSound sha256) e (record {
              in_range = ranged z refl;
              checked =
                  λ c q. (z, refl, cc (q, eq_of_same checksum (checksum_of sha256 z address) good));
            })
      ]

  decode_parts-IsSound :
      (text : Bytes) (parts : Bytes × List Bytes) (d : DepositAddress)
      → decode_parts sha256 text parts ≡ ok d
      → IsSound sha256 d
  unfolding decode_parts
  decode_parts-IsSound text (p, []) d h =
      let e : record { slot = none; address = text; checksum = none } ≡ d = cc in
      subst (IsSound sha256) e (record { in_range = inl refl; checked = λ c q. cc })
  decode_parts-IsSound text (p, q ∷ []) d h =
      slot_and_address-IsSound (parse_slot p) q d (parse_slot-IsInRange p) h
  decode_parts-IsSound text (p, q ∷ r ∷ []) d h =
      with_checksum-IsSound (parse_slot p) q r d (parse_slot-IsInRange p) h
  decode_parts-IsSound text (p, q ∷ r ∷ s ∷ more) d h = cc

  -- Whatever the text, a decoded slot lies between 0 and 255, and a checksum that is given is the one of the decoded slot and address.
  pub decode-IsSound :
      (text : Bytes) (d : DepositAddress)
      → decode_deposit_address sha256 text ≡ ok d
      → IsSound sha256 d
  unfolding decode_deposit_address
  decode-IsSound text d h = decode_parts-IsSound text (split_underscore text) d h
