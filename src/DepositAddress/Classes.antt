-- ===== src/DepositAddress/Classes.antt =====
-- What the class of an address says: `ClassifyAddress` of
-- litwindow/server/models/addressbook/classify.go.
use drivechain_litwindow.Prelude.{
  ◌≡◌, ◌≢◌, refl, Bool, true, false, ◌&&◌, Option, none, some, [], ◌∷◌, Bytes, arith, Result, ok,
  err, Bool-cases, inl, inr, ◌==◌,
}
use drivechain_litwindow.Prelude.Int.{ℤ}
use drivechain_litwindow.Deniability.Sizes.{trim_space}
use drivechain_litwindow.DepositAddress.{
  DepositError, DepositAddress, AddressType, unspecified, unknown, bitcoin_l1, drivechain_deposit,
  Chain, decode_deposit_address, checksum_of, decode_l1_any, is_deposit_of, is_deposit,
  classify_text, classify_address, count_underscores,
}
use drivechain_litwindow.DepositAddress.Sound.{IsInRange, decode-IsSound}

module _ (sha256 : Bytes → Bytes) (is_address : Bytes → Chain → Bool) where
  -- A deposit address: a slot between 0 and 255, an address of some chain, and their checksum.
  pub record IsDeposit (text : Bytes) : Type 0 where
    pub decoded : DepositAddress
    pub slot : ℤ
    pub is_decoded : decode_deposit_address sha256 text ≡ ok decoded
    pub has_slot : decoded.slot ≡ some slot
    pub in_range : IsInRange decoded.slot
    pub has_checksum : decoded.checksum ≡ some (checksum_of sha256 slot decoded.address)
    pub is_l1 : decode_l1_any sha256 is_address decoded.address ≡ true

  deposit_of :
      (o : Option ℤ) (c : Option Bytes) (address : Bytes)
      → is_deposit_of sha256 is_address o c address ≡ true
      → (z : ℤ) × (t : Bytes) × (o ≡ some z)
        × (c ≡ some t)
        × (decode_l1_any sha256 is_address address ≡ true)
  unfolding is_deposit_of
  deposit_of none c address h = cc
  deposit_of (some z) none address h = cc
  deposit_of (some z) (some t) address h = (z, t, refl, refl, h)

  is_deposit-IsDeposit :
      (text : Bytes) (r : Result DepositError DepositAddress)
      → decode_deposit_address sha256 text ≡ r
      → is_deposit sha256 is_address r ≡ true
      → IsDeposit text
  unfolding is_deposit
  is_deposit-IsDeposit text (err e) k h = cc
  is_deposit-IsDeposit text (ok d) k h =
      let (z, t, s, c, l1) = deposit_of d.slot d.checksum d.address h in
      let sound = decode-IsSound sha256 text d k in
      let (y, e, f) = sound.checked t c in
      let same : z ≡ y = cc in
      record {
        decoded = d;
        slot = y;
        is_decoded = k;
        has_slot = e;
        in_range = sound.in_range;
        has_checksum = cc;
        is_l1 = l1;
      }

  -- What each class says of the text without the spaces around it.
  abbrev pub Says : AddressType → Bytes → Type 0
  Says unspecified text = text ≡ []
  Says unknown text = (text ≢ []) × (decode_l1_any sha256 is_address text ≡ false)
  Says bitcoin_l1 text = decode_l1_any sha256 is_address text ≡ true
  Says drivechain_deposit text = IsDeposit text

  classify_text-Says : (text : Bytes) → Says (classify_text sha256 is_address text) text
  unfolding classify_text
  classify_text-Says [] = refl
  classify_text-Says (c ∷ cs) =
      elim (Bool-cases (
        (count_underscores (c ∷ cs) == 2)
        && is_deposit sha256 is_address (decode_deposit_address sha256 (c ∷ cs)))) [
          | inl e ↦ rw e (
              is_deposit-IsDeposit (c ∷ cs) (decode_deposit_address sha256 (c ∷ cs)) refl
                (ground arith))
          | inr e ↦ elim (Bool-cases (decode_l1_any sha256 is_address (c ∷ cs))) [
            | inl l1 ↦ rw (e, l1) l1
            | inr no_l1 ↦ rw (e, no_l1) ((λ e. cc), no_l1)
          ]
        ]

  -- The class of a text says what it is, without the spaces around it: empty, an address of a chain, neither, or a deposit address, whose slot lies between 0 and 255, whose address is one of a chain, and whose checksum is that of the slot and the address.
  pub classify_address-Says :
      (text : Bytes) → Says (classify_address sha256 is_address text) (trim_space text)
  unfolding classify_address
  classify_address-Says text = classify_text-Says (trim_space text)
