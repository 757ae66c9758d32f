-- ===== src/DepositAddress/RoundTrip.antt =====
-- The three formats of a deposit address are read as they are written.
use drivechain_litwindow.Prelude.{
  ℕ, ◌≤◌, ◌≡◌, ◌≢◌, refl, ◌∙◌, none, some, [], ◌∷◌, ◌++◌, Bytes, same, arith, All, All_mono,
  if◌then◌else◌, ok, Bool-cases, inl, inr,
}
use drivechain_litwindow.Prelude.Int.{pos}
use drivechain_litwindow.Deniability.Sizes.{format_int}
use drivechain_litwindow.Deniability.Sizes.RoundTrip.{
  IsDigit, digits, digits-IsDigit, parse_int-format_int,
}
use drivechain_litwindow.DepositAddress.{
  split_underscore, parse_slot, checksum_of, decode_deposit_address,
}

-- No underscore stands in a text.
abbrev pub HasNoUnderscore : Bytes → Type 0
HasNoUnderscore s = All (λ (c : ℕ). c ≢ 95) s

split_underscore-part : (s : Bytes) → HasNoUnderscore s → split_underscore s ≡ (s, [])
unfolding split_underscore
split_underscore-part [] h = refl
split_underscore-part (c ∷ cs) (p, h) = rw (split_underscore-part cs h) (ground (arith, p))

split_underscore-parts :
    (s rest : Bytes)
    → HasNoUnderscore s
    → split_underscore (s ++ b'_' ∷ rest)
      ≡ (s, (split_underscore rest).0 ∷ (split_underscore rest).1)
unfolding split_underscore
split_underscore-parts [] rest h = refl
split_underscore-parts (c ∷ cs) rest (p, h) =
    rw (split_underscore-parts cs rest h) (ground (arith, p))

-- s<slot> of a slot between 0 and 255
unfoldable pub slot_text : ℕ → Bytes
slot_text slot = b's' ∷ format_int (pos slot)

digits_lem : (c : ℕ) → IsDigit c → c ≢ 95
digits_lem c d = λ e. absurd (omega (arith, d, e))

slot_text-HasNoUnderscore : (slot : ℕ) → HasNoUnderscore (slot_text slot)
unfolding slot_text format_int
slot_text-HasNoUnderscore slot = (
  (λ e. absurd (omega (arith, e))),
  All_mono IsDigit (λ (c : ℕ). c ≢ 95) digits_lem (digits slot) (digits-IsDigit slot),
)

parse_slot-slot_text : (slot : ℕ) → slot ≤ 255 → parse_slot (slot_text slot) ≡ ok (pos slot)
unfolding parse_slot slot_text
parse_slot-slot_text slot h =
    rw (parse_int-format_int (pos slot) (omega (arith, h))) (ground (arith, h))

module _ (sha256 : Bytes → Bytes) (slot : ℕ) (address : Bytes) (in_range : slot ≤ 255)
    (plain : HasNoUnderscore address) where
  -- An address alone is read as it is, with no slot and no checksum.
  pub decode-address :
      decode_deposit_address sha256 address
      ≡ ok (record { slot = none; address = address; checksum = none })
  unfolding decode_deposit_address
  decode-address = rw (split_underscore-part address plain) refl

  decode-two : split_underscore (slot_text slot ++ b'_' ∷ address) ≡ (slot_text slot, address ∷ [])
  decode-two =
      split_underscore-parts (slot_text slot) address (slot_text-HasNoUnderscore slot)
      ∙ rw (split_underscore-part address plain) refl

  pub decode-slot_and_address :
      decode_deposit_address sha256 (slot_text slot ++ b'_' ∷ address)
      ≡ ok (record { slot = some (pos slot); address = address; checksum = none })
  unfolding decode_deposit_address
  decode-slot_and_address = rw (decode-two, parse_slot-slot_text slot in_range) refl

  decode-three :
      (checksum : Bytes)
      → HasNoUnderscore checksum
      → split_underscore (slot_text slot ++ b'_' ∷ (address ++ b'_' ∷ checksum))
        ≡ (slot_text slot, address ∷ checksum ∷ [])
  decode-three checksum h =
      split_underscore-parts (slot_text slot) (address ++ b'_' ∷ checksum)
        (slot_text-HasNoUnderscore slot)
      ∙ rw (split_underscore-parts address checksum plain, split_underscore-part checksum h) refl

  -- A text s<slot>_<address>_<checksum>, of a slot up to 255 and parts without underscores, is read back into its slot and address. Its checksum is given exactly when it is the one of the slot and the address; a checksum that is not is dropped without an error.
  pub decode-with_checksum :
      (checksum : Bytes)
      → HasNoUnderscore checksum
      → decode_deposit_address sha256 (slot_text slot ++ b'_' ∷ (address ++ b'_' ∷ checksum))
        ≡ ok (record {
          slot = some (pos slot);
          address = address;
          checksum =
              if same checksum (checksum_of sha256 (pos slot) address) then some checksum else none;
        })
  unfolding decode_deposit_address
  decode-with_checksum checksum h =
      rw (decode-three checksum h, parse_slot-slot_text slot in_range)
        (elim (Bool-cases (same checksum (checksum_of sha256 (pos slot) address))) [
          | inl e ↦ rw e refl
          | inr e ↦ rw e refl
        ])
