-- ===== src/DepositAddress.antt =====
-- The addresses of sidechain deposits: litwindow/server/drivechain/utils.go, the classes of
-- litwindow/server/models/addressbook/classify.go, and the deposit of
-- litwindow/server/api/wallet/wallet.go. The hash is SHA-256, as a function of the text.
pub mod RoundTrip
pub mod Sound
pub mod Deposits
pub mod Classes
mod Tests
use drivechain_litwindow.Prelude.{
  ℕ, ◌+◌, ◌-◌, ◌*◌, ◌/◌, ◌%◌, ◌^◌, Bool, true, false, not, ◌&&◌, Option, none, some, List, [], ◌∷◌,
  ◌++◌, Bytes, codes, same, length, take, ltb, ◌==◌, if◌then◌else◌, Result, ok, err,
}
use drivechain_litwindow.Prelude.Int.{ℤ, pos, negsuc}
use drivechain_litwindow.Deniability.Sizes.{format_int, parse_int, trim_space}

pub data DepositError : Type 0 where
  slot_not_a_number : DepositError
  slot_out_of_range : DepositError
  invalid_format : DepositError

-- the three results beside the error
pub record DepositAddress : Type 0 where
  pub slot : Option ℤ
  pub address : Bytes
  pub checksum : Option Bytes

-- strings.Split at underscores: the part before the first one, and the other parts
unfoldable pub split_underscore : Bytes → Bytes × List Bytes
split_underscore [] = ([], [])
split_underscore (c ∷ cs) =
    let (part, parts) = split_underscore cs in
    if c == b'_' then ([], part ∷ parts) else (c ∷ part, parts)

-- strings.TrimPrefix of "s"
unfoldable pub trim_s : Bytes → Bytes
trim_s [] = []
trim_s (c ∷ cs) = if c == b's' then cs else c ∷ cs

-- hex.EncodeToString
abbrev pub hex_digit : ℕ → ℕ
hex_digit n = if ltb n 10 then 48 + n else 87 + n

unfoldable pub encode_hex : Bytes → Bytes
encode_hex [] = []
encode_hex (b ∷ bs) = hex_digit (b / 16) ∷ hex_digit (b % 16) ∷ encode_hex bs

unfoldable pub check_slot : Option ℤ → Result DepositError ℤ
check_slot none = err slot_not_a_number
check_slot (some (negsuc n)) = err slot_out_of_range
check_slot (some (pos n)) = if ltb 255 n then err slot_out_of_range else ok (pos n)

unfoldable pub parse_slot : Bytes → Result DepositError ℤ
unfolding check_slot trim_s
parse_slot part = check_slot (parse_int (trim_s part))

unfoldable pub slot_and_address : Result DepositError ℤ → Bytes → Result DepositError DepositAddress
slot_and_address (err e) address = err e
slot_and_address (ok slot) address =
    ok (record { slot = some slot; address = address; checksum = none })

module _ (sha256 : Bytes → Bytes) where
  -- the checksum of s<slot>_<address>_
  unfoldable pub checksum_of : ℤ → Bytes → Bytes
  unfolding encode_hex
  checksum_of slot address =
      encode_hex
        (take 3 (sha256 (codes "s" ++ format_int slot ++ codes "_" ++ address ++ codes "_")))

  unfoldable pub with_checksum :
      Result DepositError ℤ → Bytes → Bytes → Result DepositError DepositAddress
  unfolding checksum_of
  with_checksum (err e) address checksum = err e
  with_checksum (ok slot) address checksum =
      if not (same checksum (checksum_of slot address))
      then ok (record { slot = some slot; address = address; checksum = none })
      else ok (record { slot = some slot; address = address; checksum = some checksum })

  -- by the number of parts
  unfoldable pub decode_parts : Bytes → Bytes × List Bytes → Result DepositError DepositAddress
  unfolding slot_and_address with_checksum parse_slot
  decode_parts text (p, []) = ok (record { slot = none; address = text; checksum = none })
  decode_parts text (p, q ∷ []) = slot_and_address (parse_slot p) q
  decode_parts text (p, q ∷ r ∷ []) = with_checksum (parse_slot p) q r
  decode_parts text (p, q ∷ r ∷ s ∷ more) = err invalid_format

  unfoldable pub decode_deposit_address : Bytes → Result DepositError DepositAddress
  unfolding decode_parts split_underscore
  decode_deposit_address text = decode_parts text (split_underscore text)

pub data AddressType : Type 0 where
  unspecified : AddressType
  unknown : AddressType
  bitcoin_l1 : AddressType
  drivechain_deposit : AddressType

-- the chains whose parameters `decodeL1Any` tries, in its order
pub data Chain : Type 0 where
  main_net sig_net test_net_3 regression_net : Chain

-- strings.Count of underscores
unfoldable pub count_underscores : Bytes → ℕ
count_underscores [] = 0
count_underscores (c ∷ cs) = if c == b'_' then count_underscores cs + 1 else count_underscores cs

-- btcutil.DecodeAddress says of a text and a chain whether it is an address of it
module _ (sha256 : Bytes → Bytes) (is_address : Bytes → Chain → Bool) where
  unfoldable pub decode_l1_any_of : List Chain → Bytes → Bool
  decode_l1_any_of [] s = false
  decode_l1_any_of (p ∷ ps) s = if is_address s p then true else decode_l1_any_of ps s

  unfoldable pub decode_l1_any : Bytes → Bool
  unfolding decode_l1_any_of
  decode_l1_any s = decode_l1_any_of (main_net ∷ sig_net ∷ test_net_3 ∷ regression_net ∷ []) s

  -- err == nil && slot != nil && checksum != nil, and an address
  unfoldable pub is_deposit_of : Option ℤ → Option Bytes → Bytes → Bool
  unfolding decode_l1_any
  is_deposit_of none checksum address = false
  is_deposit_of (some slot) none address = false
  is_deposit_of (some slot) (some checksum) address = decode_l1_any address

  unfoldable pub is_deposit : Result DepositError DepositAddress → Bool
  unfolding is_deposit_of
  is_deposit (err e) = false
  is_deposit (ok d) = is_deposit_of d.slot d.checksum d.address

  unfoldable pub classify_text : Bytes → AddressType
  unfolding is_deposit decode_deposit_address count_underscores decode_l1_any
  classify_text [] = unspecified
  classify_text (c ∷ cs) =
      let s = c ∷ cs in
      if (count_underscores s == 2) && is_deposit (decode_deposit_address sha256 s)
      then drivechain_deposit
      else if decode_l1_any s
      then bitcoin_l1
      else unknown

  unfoldable pub classify_address : Bytes → AddressType
  unfolding classify_text
  classify_address s = classify_text (trim_space s)
