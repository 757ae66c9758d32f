-- ===== src/M4/Parser/Proposal.antt =====
-- The M3 message: a bundle's hash and its sidechain survive the parse.
use mathlib.Core.List.{reverse-reverse}
use drivechain_litwindow.Prelude.{
  ℕ, zero, suc, ◌+◌, ◌*◌, ◌/◌, ◌%◌, ◌-◌, ◌<◌, ◌≡◌, refl, ap, ◌∙◌, Bytes, [], ◌∷◌, ◌++◌, reverse,
  length, get_or, take, drop, arith, ok, All, All-reverse, length-append, ltb, if◌then◌else◌,
}
use drivechain_litwindow.M4.Message.{M3Message, op_return}
use drivechain_litwindow.M4.Parser.{parse_m3_bytes, m3_message, hex, hex_digit, uint32_le}
use drivechain_litwindow.M4.Parser.Votes.{IsByte}

-- The value of a lower-case hexadecimal digit.
abbrev pub digit_value : ℕ → ℕ
digit_value c = if ltb c 97 then c - b'0' else c - 87

abbrev pub unhex : Bytes → Bytes
unhex (h ∷ l ∷ rest) = (16 * digit_value h + digit_value l) ∷ unhex rest
unhex _ = []

digit_value-hex_digit : (d : ℕ) → d < 16 → digit_value (hex_digit d) ≡ d
digit_value-hex_digit d h = ground arith

unhex-hex : (bs : Bytes) → All IsByte bs → unhex (hex bs) ≡ bs
unfolding hex
unhex-hex [] h = refl
unhex-hex (b ∷ bs) (hb, hs) =
    let hi = digit_value-hex_digit (b / 16) (omega arith) in
    let lo = digit_value-hex_digit (b % 16) (omega arith) in
    cc (unhex-hex bs hs, hi, lo, (let e : 16 * (b / 16) + b % 16 ≡ b = omega arith in e))

-- The OP_RETURN output that proposes a bundle with the 32 bytes of its hash, for a sidechain.
abbrev pub proposal : Bytes → ℕ → Bytes
proposal hash slot = op_return ∷ 0x43 ∷ 0xA9 ∷ 0x5A ∷ 0xD4 ∷ (hash ++ slot ∷ [])

take-append_length : (xs ys : Bytes) (n : ℕ) → length xs ≡ n → take n (xs ++ ys) ≡ xs
take-append_length [] ys zero h = refl
take-append_length [] ys (suc n) h = absurd (omega arith)
take-append_length (x ∷ xs) ys zero h = absurd (omega arith)
take-append_length (x ∷ xs) ys (suc n) h =
    ap (λ (r : Bytes). x ∷ r) (take-append_length xs ys n (omega arith))

get_or-append_length : (xs : Bytes) (y n : ℕ) → length xs ≡ n → get_or (xs ++ y ∷ []) n 0 ≡ y
get_or-append_length [] y zero h = refl
get_or-append_length [] y (suc n) h = absurd (omega arith)
get_or-append_length (x ∷ xs) y zero h = absurd (omega arith)
get_or-append_length (x ∷ xs) y (suc n) h = get_or-append_length xs y n (omega arith)

split_last : (xs : Bytes) (n : ℕ) → length xs ≡ suc n → xs ≡ take n xs ++ get_or xs n 0 ∷ []
split_last [] n h = absurd (omega arith)
split_last (x ∷ []) zero h = refl
split_last (x ∷ y ∷ xs) zero h = absurd (omega arith)
split_last (x ∷ xs) (suc n) h = ap (λ (r : Bytes). x ∷ r) (split_last xs n (omega arith))

-- An M3 script with the 32 bytes of a hash is read as the hexadecimal of the reversed hash and as the sidechain of the last byte.
pub parse_m3-proposal :
    (hash : Bytes) (slot : ℕ)
    → length hash ≡ 32
    → (m : M3Message) × (parse_m3_bytes (proposal hash slot) ≡ ok m)
      × (m.sidechain_slot ≡ slot)
      × (m.bundle_hash ≡ hex (reverse hash))
unfolding parse_m3_bytes m3_message
parse_m3-proposal hash slot h = (
  record {
    id = 0;
    block_height = 0;
    block_hash = [];
    block_time = 0;
    sidechain_slot = slot;
    bundle_hash = hex (reverse hash);
    created_at = 0;
  },
  ground (
    arith,
    length-append hash (slot ∷ []),
    take-append_length hash (slot ∷ []) 32 h,
    get_or-append_length hash slot 32 h,
  ),
  refl,
  refl,
)

All-take : (n : ℕ) (bs : Bytes) → All IsByte bs → All IsByte (take n bs)
All-take zero bs h = tt
All-take (suc n) [] h = tt
All-take (suc n) (b ∷ bs) (hb, hs) = (hb, All-take n bs hs)

header_bytes :
    (a b c d : ℕ)
    → IsByte a
    → IsByte b
    → IsByte c
    → IsByte d
    → uint32_le (a ∷ b ∷ c ∷ d ∷ []) ≡ 0xD45AA943
    → (a ≡ 0x43) × (b ≡ 0xA9) × (c ≡ 0x5A) × (d ≡ 0xD4)
header_bytes a b c d ha hb hc hd e = omega arith

-- What the checks of `ParseM3Bytes` establish.
checked :
    (script : Bytes) {m : M3Message}
    → parse_m3_bytes script ≡ ok m
    → (length script ≡ 38)
      × (get_or script 0 0 ≡ op_return)
      × (uint32_le (take 4 (drop 1 script)) ≡ 0xD45AA943)
unfolding parse_m3_bytes
checked script p = ground arith

returned : (script : Bytes) {m : M3Message} → parse_m3_bytes script ≡ ok m → m ≡ m3_message script
unfolding parse_m3_bytes
returned script p = ground arith

unhex-reverse : (hash : Bytes) → All IsByte hash → reverse (unhex (hex (reverse hash))) ≡ hash
unhex-reverse hash h =
    ap reverse (unhex-hex (reverse hash) (All-reverse IsByte hash h)) ∙ reverse-reverse hash

-- A script of bytes that parses is the proposal of the hash and the sidechain of its message: nothing of it is lost.
pub parse_m3-lossless :
    (script : Bytes) {m : M3Message}
    → All IsByte script
    → parse_m3_bytes script ≡ ok m
    → script ≡ proposal (reverse (unhex m.bundle_hash)) m.sidechain_slot
unfolding m3_message
parse_m3-lossless (o ∷ a ∷ b ∷ c ∷ d ∷ rest) {m} (ho, (ha, (hb, (hc, (hd, hs))))) p =
    let script = o ∷ a ∷ b ∷ c ∷ d ∷ rest in
    let (len, first, header) = checked script p in
    let hash = ap (λ (k : M3Message). k.bundle_hash) (returned script p) in
    let slot = ap (λ (k : M3Message). k.sidechain_slot) (returned script p) in
    let (ea, eb, ec, ed) = header_bytes a b c d ha hb hc hd header in
    let back =
      ap (λ (h : Bytes). reverse (unhex h)) hash
      ∙ unhex-reverse (take 32 rest) (All-take 32 rest hs) in
    let last = split_last rest 32 (omega arith) in cc (first, ea, eb, ec, ed, back, last, slot)
parse_m3-lossless [] h p = absurd (omega (arith, (checked [] p).0))
parse_m3-lossless (o ∷ []) h p = absurd (omega (arith, (checked (o ∷ []) p).0))
parse_m3-lossless (o ∷ a ∷ []) h p = absurd (omega (arith, (checked (o ∷ a ∷ []) p).0))
parse_m3-lossless (o ∷ a ∷ b ∷ []) h p = absurd (omega (arith, (checked (o ∷ a ∷ b ∷ []) p).0))
parse_m3-lossless (o ∷ a ∷ b ∷ c ∷ []) h p =
    absurd (omega (arith, (checked (o ∷ a ∷ b ∷ c ∷ []) p).0))
