-- ===== src/Deniability/Sizes.antt =====
-- The column of target sizes: `encodeTargetSizes` and `parseTargetUTXOSizes`. A text is the list of
-- its code points; `strconv.FormatInt`, `strconv.ParseInt`, `strings.Split` and `strings.TrimSpace`
-- are Go's.
pub mod Parts
pub mod RoundTrip
use drivechain_litwindow.Prelude.{
  ℕ, zero, suc, ◌+◌, ◌-◌, ◌*◌, ◌/◌, ◌%◌, ◌^◌, Bool, true, false, not, ◌&&◌, ◌||◌, Option, none,
  some, List, [], ◌∷◌, ◌++◌, reverse, map, Bytes, length, ltb, leb, ◌==◌, if◌then◌else◌, Result, ok,
  err, ◌≡◌, refl,
}
use drivechain_litwindow.Prelude.Int.{ℤ, pos, negsuc}

-- the digits of a number, the last one first, with the rounds left: 19 digits hold an int64
unfoldable pub digits_rev : ℕ → ℕ → Bytes
digits_rev zero n = []
digits_rev (suc fuel) n =
    let more = digits_rev fuel (n / 10) in if ltb n 10 then (48 + n) ∷ [] else (48 + n % 10) ∷ more

unfoldable pub format_int : ℤ → Bytes
unfolding digits_rev
format_int (pos n) = reverse (digits_rev 20 n)
format_int (negsuc n) = b'-' ∷ reverse (digits_rev 20 (suc n))

-- `strings.Join` with a comma
unfoldable pub join_comma : List Bytes → Bytes
join_comma [] = []
join_comma (p ∷ []) = p
join_comma (p ∷ q ∷ ps) = p ++ b',' ∷ join_comma (q ∷ ps)

unfoldable pub encode_target_sizes : List ℤ → Option Bytes
unfolding format_int join_comma
encode_target_sizes [] = none
encode_target_sizes (s ∷ ss) = some (join_comma (map format_int (s ∷ ss)))

-- `strings.Split` at commas: the part before the first comma, and the other parts
unfoldable pub split_comma : Bytes → Bytes × List Bytes
split_comma [] = ([], [])
split_comma (c ∷ cs) =
    let (part, parts) = split_comma cs in
    if c == b',' then ([], part ∷ parts) else (c ∷ part, parts)

-- `unicode.IsSpace`
abbrev pub is_space : ℕ → Bool
is_space c =
    (leb 9 c && leb c 13)
    || (c == 32)
    || (c == 0x85)
    || (c == 0xA0)
    || (c == 0x1680)
    || (leb 0x2000 c && leb c 0x200A)
    || (c == 0x2028)
    || (c == 0x2029)
    || (c == 0x202F)
    || (c == 0x205F)
    || (c == 0x3000)

unfoldable pub trim_left : Bytes → Bytes
trim_left [] = []
trim_left (c ∷ cs) = let rest = trim_left cs in if is_space c then rest else c ∷ cs

unfoldable pub trim_space : Bytes → Bytes
unfolding trim_left
trim_space s = reverse (trim_left (reverse (trim_left s)))

-- the number of a text of digits
unfoldable pub parse_digits : ℕ → Bytes → Option ℕ
parse_digits acc [] = some acc
parse_digits acc (c ∷ cs) =
    let rest = parse_digits (10 * acc + (c - 48)) cs in if leb 48 c && leb c 57 then rest else none

-- a text with a digit at least
unfoldable pub parse_uint : Bytes → Option ℕ
unfolding parse_digits
parse_uint [] = none
parse_uint (c ∷ cs) = parse_digits 0 (c ∷ cs)

abbrev pub signed : Bool → Option ℕ → Option ℤ
signed negative none = none
signed false (some n) = if ltb n (2 ^ 63) then some (pos n) else none
signed true (some zero) = some (pos 0)
signed true (some (suc n)) = if ltb n (2 ^ 63) then some (negsuc n) else none

-- `strconv.ParseInt` of base 10 and 64 bits
unfoldable pub parse_int : Bytes → Option ℤ
unfolding parse_uint
parse_int [] = none
parse_int (c ∷ cs) =
    if c == b'-'
    then signed true (parse_uint cs)
    else if c == b'+'
    then signed false (parse_uint cs)
    else signed false (parse_uint (c ∷ cs))

pub data SizeError : Type 0 where
  invalid_size : Bytes → SizeError

abbrev pub add_size : Bytes → Option ℤ → Result SizeError (List ℤ) → Result SizeError (List ℤ)
add_size p none rest = err (invalid_size p)
add_size p (some v) (ok vs) = ok (v ∷ vs)
add_size p (some v) (err e) = err e

unfoldable pub parse_part : Bytes → Result SizeError (List ℤ) → Result SizeError (List ℤ)
unfolding parse_int
parse_part [] rest = rest
parse_part (c ∷ cs) rest = add_size (c ∷ cs) (parse_int (c ∷ cs)) rest

-- the loop over the parts: an empty one is skipped, and the first that is no number is the error
unfoldable pub parse_parts : List Bytes → Result SizeError (List ℤ)
unfolding parse_part trim_space
parse_parts [] = ok []
parse_parts (p ∷ ps) = parse_part (trim_space p) (parse_parts ps)

unfoldable pub parse_text : Bytes → Result SizeError (List ℤ)
unfolding parse_parts split_comma
parse_text [] = ok []
parse_text (c ∷ cs) = let (part, parts) = split_comma (c ∷ cs) in parse_parts (part ∷ parts)

unfoldable pub parse_target_utxo_sizes : Option Bytes → Result SizeError (List ℤ)
unfolding parse_text
parse_target_utxo_sizes none = ok []
parse_target_utxo_sizes (some text) = parse_text text
