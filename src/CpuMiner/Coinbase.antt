-- ===== src/CpuMiner/Coinbase.antt =====
-- The coinbase transaction that `gbtWorkDecode` in litwindow/server/cpuminer/miner.go builds. The
-- source writes into a slice of 256 bytes, which is long enough for the scripts of an address; here
-- the bytes follow one another.
use drivechain_litwindow.Prelude.{
  ℕ, zero, suc, ◌+◌, ◌/◌, ◌%◌, ◌^◌, ◌&&◌, Option, none, some, List, [], ◌∷◌, ◌++◌, Bytes, length,
  get_or, take, drop, ltb, leb, ◌==◌, if◌then◌else◌, Result, ok, err,
}
use drivechain_litwindow.CpuMiner.{put, le32enc, decode_hex, HexError}

unfoldable pub zeros : ℕ → Bytes
zeros zero = []
zeros (suc n) = 0 ∷ zeros n

abbrev pub cons_byte : ℕ → Option Bytes → Option Bytes
cons_byte b none = none
cons_byte b (some bs) = some (b ∷ bs)

-- the loop over the bytes of a height, with rounds: a byte 0 follows a last byte of 0x80 or more
unfoldable pub height_bytes : ℕ → ℕ → Option Bytes
height_bytes zero n = none
height_bytes (suc rounds) n =
    let more = height_bytes rounds (n / 256) in
    if n == 0
    then some []
    else cons_byte (n % 256) (if ltb n 0x100 && leb 0x80 n then cons_byte 0 more else more)

abbrev pub with_length : Option Bytes → Option Bytes
with_length none = none
with_length (some bs) = some (length bs % 256 ∷ bs)

-- The script of the input, which says the height (BIP 34), for a height that is not negative: shifted
-- to the right a negative one stays negative, and the source writes on until its slice ends.
unfoldable pub height_script : ℕ → Option Bytes
unfolding height_bytes
height_script height =
    if leb 1 height && leb height 16
    then some ((height + 0x50) % 256 ∷ 0x00 ∷ [])
    else with_length (height_bytes 10 height)

-- the output of the witness commitment
unfoldable pub witness_output : Option Bytes → Bytes
unfolding zeros
witness_output none = []
witness_output (some commitment) =
    zeros 8 ++ 38 ∷ 0x6a ∷ 0x24 ∷ 0xaa ∷ 0x21 ∷ 0xa9 ∷ 0xed ∷ commitment

unfoldable pub output_count : Option Bytes → ℕ
output_count none = 1
output_count (some commitment) = 2

-- version, one input, no previous output
unfoldable pub coinbase_start : Bytes
unfolding le32enc zeros
coinbase_start = le32enc 1 ++ 1 ∷ (zeros 32 ++ le32enc 0xffffffff)

-- sequence, outputs and lock time
unfoldable pub coinbase_end : ℕ → Bytes → Option Bytes → Bytes
unfolding le32enc output_count witness_output
coinbase_end value pk_script commitment =
    le32enc 0xffffffff
    ++ output_count commitment
      ∷ (le32enc (value % 2 ^ 32)
          ++ (le32enc (value / 2 ^ 32)
              ++ length pk_script % 256 ∷ (pk_script ++ (witness_output commitment ++ le32enc 0))))

unfoldable pub coinbase : ℕ → Bytes → Bytes → Option Bytes → Bytes
unfolding coinbase_start coinbase_end
coinbase value script pk_script commitment =
    coinbase_start ++ length script % 256 ∷ (script ++ coinbase_end value pk_script commitment)

-- how long the push of a signature is, from cbtx[41] and the length of the signature
unfoldable pub push_length : ℕ → ℕ → ℕ
push_length script_length sig_length =
    if ltb ((script_length + sig_length % 256) % 256) 76
    then 1
    else if ltb 100 (script_length + 2 + sig_length)
    then 0
    else 2

unfoldable pub push_of : ℕ → ℕ → Bytes
push_of zero sig_length = []
push_of (suc zero) sig_length = sig_length % 256 ∷ []
push_of (suc (suc n)) sig_length = 0x4c ∷ sig_length % 256 ∷ []

-- room is made for the signature at the end of the script, and cbtx[41] grows by what is inserted
unfoldable pub insert_signature : Bytes → Bytes → Bytes
unfolding push_length push_of put
insert_signature cbtx [] = cbtx
insert_signature cbtx (c ∷ cs) =
    let xsig = c ∷ cs in
    let script_length = get_or cbtx 41 0 in
    let script_end = 42 + script_length in
    let push = push_length script_length (length xsig) in
    put (take script_end cbtx ++ (push_of push (length xsig) ++ (xsig ++ drop script_end cbtx))) 41
      ((script_length + (length xsig + push)) % 256)

pub data AuxError : Type 0 where
  aux_too_long : ℕ → AuxError
  invalid_aux : HexError → AuxError

-- the auxiliary data of one value, if it fits
unfoldable pub aux_fits : Bytes → ℕ → Result HexError Bytes → Result AuxError Bytes
aux_fits xsig n (err e) = err (invalid_aux e)
aux_fits xsig n (ok buf) = if leb (length xsig + n) 100 then ok (xsig ++ take n buf) else ok xsig

unfoldable pub add_aux : Bytes → Bytes → Result AuxError Bytes
unfolding aux_fits zeros
add_aux xsig s =
    let n = length s / 2 in
    if ltb 100 n then err (aux_too_long n) else aux_fits xsig n (decode_hex (zeros 100) s)

-- the loop over the values of coinbaseaux, in the order in which Go ranges over them
unfoldable pub add_all_from :
    Result AuxError Bytes → (Bytes → Result AuxError Bytes) → Result AuxError Bytes
add_all_from (err e) rest = err e
add_all_from (ok xsig) rest = rest xsig

unfoldable pub add_all_aux : List Bytes → Bytes → Result AuxError Bytes
unfolding add_aux add_all_from
add_all_aux [] xsig = ok xsig
add_all_aux (s ∷ rest) xsig = add_all_from (add_aux xsig s) (add_all_aux rest)
