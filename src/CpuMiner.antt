-- ===== src/CpuMiner.antt =====
-- The encodings of litwindow/server/cpuminer/util.go. A byte slice is a list of bytes; Go panics
-- where a write is out of range, which no call in the package is.
pub mod Encoding
pub mod Merkle
pub mod Scan
pub mod Coinbase
pub mod Script
pub mod Work
mod Tests
use drivechain_litwindow.Prelude.{
  ℕ, zero, suc, ◌+◌, ◌-◌, ◌*◌, ◌/◌, ◌%◌, ◌^◌, Bool, true, false, not, ◌&&◌, ◌||◌, Option, none,
  some, List, [], ◌∷◌, ◌++◌, Bytes, length, get_or, ltb, leb, ◌==◌, if◌then◌else◌, Result, ok, err,
}

-- p[i] = v
unfoldable pub put : Bytes → ℕ → ℕ → Bytes
put [] i v = []
put (b ∷ p) zero v = v ∷ p
put (b ∷ p) (suc i) v = b ∷ put p i v

-- p[i], p[j] = p[j], p[i]
unfoldable pub swap : Bytes → ℕ → ℕ → Bytes
unfolding put
swap p i j = put (put p i (get_or p j 0)) j (get_or p i 0)

-- the loop of `reverseBytes`, with rounds
unfoldable pub reverse_from : ℕ → ℕ → ℕ → Bytes → Option Bytes
unfolding swap
reverse_from zero i j p = none
reverse_from (suc rounds) i j p =
    let more = reverse_from rounds (i + 1) (j - 1) (swap p i j) in if ltb i j then more else some p

-- of an empty slice j is -1 in the source: the loop ends at once all the same
unfoldable pub reverse_bytes : Bytes → Option Bytes
unfolding reverse_from
reverse_bytes p = reverse_from (length p + 1) 0 (length p - 1) p

pub data HexError : Type 0 where
  empty_text : HexError
  odd_length : HexError
  buffer_too_small : ℕ → ℕ → HexError
  invalid_hex : HexError

unfoldable pub hex_value : ℕ → Option ℕ
hex_value c =
    if leb b'0' c && leb c b'9'
    then some (c - 48)
    else if leb b'a' c && leb c b'f'
    then some (c - 87)
    else if leb b'A' c && leb c b'F'
    then some (c - 55)
    else none

abbrev pub byte_and : Option ℕ → Option ℕ → Option Bytes → Option Bytes
byte_and (some hi) (some lo) (some rest) = some ((16 * hi + lo) ∷ rest)
byte_and _ _ _ = none

-- hex.DecodeString of a text of even length
unfoldable pub decode_string : Bytes → Option Bytes
unfolding hex_value
decode_string [] = some []
decode_string (c ∷ []) = none
decode_string (c ∷ d ∷ rest) = byte_and (hex_value c) (hex_value d) (decode_string rest)

-- copy(p, decoded)
unfoldable pub copied : Bytes → Bytes → Bytes
copied p [] = p
copied [] (b ∷ bs) = []
copied (x ∷ p) (b ∷ bs) = b ∷ copied p bs

unfoldable pub copy_decoded : Bytes → Option Bytes → Result HexError Bytes
unfolding copied
copy_decoded p none = err invalid_hex
copy_decoded p (some decoded) = ok (copied p decoded)

-- `decodeHex`: the buffer with the decoded bytes at its start
unfoldable pub decode_hex : Bytes → Bytes → Result HexError Bytes
unfolding decode_string copy_decoded
decode_hex p [] = err empty_text
decode_hex p (c ∷ cs) =
    let text = c ∷ cs in
    if not (length text % 2 == 0)
    then err odd_length
    else if ltb (length p) (length text / 2)
    then err (buffer_too_small (length text / 2) (length p))
    else copy_decoded p (decode_string text)

-- the low bytes of a number, the lowest first
unfoldable pub low_bytes : ℕ → ℕ → Bytes
low_bytes zero n = []
low_bytes (suc k) n = n % 256 ∷ low_bytes k (n / 256)

-- the bytes that `varint_encode` writes; it returns how many they are
unfoldable pub varint_encode : ℕ → Bytes
unfolding low_bytes
varint_encode n =
    if ltb n 0xfd
    then n % 256 ∷ []
    else if leb n 0xffff
    then 0xfd ∷ n % 256 ∷ n / 256 % 256 ∷ []
    else if leb n 0xffffffff
    then 0xfe ∷ low_bytes 4 n
    else 0xff ∷ low_bytes 8 n

-- `le32enc`
unfoldable pub le32enc : ℕ → Bytes
le32enc x = x % 256 ∷ x / 2 ^ 8 % 256 ∷ x / 2 ^ 16 % 256 ∷ x / 2 ^ 24 % 256 ∷ []

-- `sha256d`, of a hash function
unfoldable pub sha256d : (Bytes → Bytes) → Bytes → Bytes
sha256d sha256 bytes = sha256 (sha256 bytes)
