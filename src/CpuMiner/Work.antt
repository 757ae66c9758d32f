-- ===== src/CpuMiner/Work.antt =====
-- `gbtWorkDecode` of litwindow/server/cpuminer/miner.go: a unit of work from a block template.
use drivechain_litwindow.Prelude.{
  ℕ, ◌+◌, ◌*◌, ◌/◌, ◌^◌, Bool, true, false, not, Option, none, some, List, [], ◌∷◌, ◌++◌, Bytes,
  codes, same, length, get_or, ltb, ◌==◌, if◌then◌else◌, Result, ok, err, some_item,
}
use drivechain_litwindow.DepositAddress.{encode_hex}
use drivechain_litwindow.CpuMiner.{
  HexError, hex_value, decode_hex, reverse_bytes, varint_encode, sha256d,
}
use drivechain_litwindow.CpuMiner.Merkle.{Tree, merkle_loop}
use drivechain_litwindow.CpuMiner.Coinbase.{
  zeros, height_script, coinbase, insert_signature, AuxError, add_all_aux,
}

pub record Work : Type 0 where
  pub version : ℕ
  pub prevblock : Bytes
  pub timestamp : ℕ
  pub bits : ℕ
  pub nonce : ℕ
  pub merkleroot : Bytes
  pub target : ℕ
  pub height : ℕ
  pub txs : Bytes
  pub work_id : Bytes

pub record GbtTransaction : Type 0 where
  pub tx_data : Bytes
  pub hash : Bytes
  pub txid : Bytes

-- the values of coinbaseaux stand in the order in which Go ranges over the map
pub record GbtRpcResponse : Type 0 where
  pub previous_blockhash : Bytes
  pub bits : Bytes
  pub height : ℕ
  pub curtime : ℕ
  pub version : ℕ
  pub rules : List Bytes
  pub mutables : List Bytes
  pub transactions : List GbtTransaction
  pub coinbase_txn : Bytes
  pub coinbase_value : ℕ
  pub coinbase_aux : List Bytes
  pub work_id : Bytes

-- What the decoding takes from libraries: SHA-256, blockchain.CompactToBig, the payment script of a
-- coinbase address, and chainhash.NewHashFromStr.
pub record Chain : Type 0 where
  pub sha256 : Bytes → Bytes
  pub compact_to_big : ℕ → ℕ
  pub pay_to_addr : Bytes → Option Bytes
  pub hash_from_str : Bytes → Option Bytes

pub data WorkError : Type 0 where
  invalid_bits : WorkError
  coinbase_txn_not_implemented : WorkError
  no_payout_address : WorkError
  invalid_coinbase_address : WorkError
  invalid_transaction_hash : HexError → WorkError
  invalid_coinbase_aux : AuxError → WorkError
  invalid_txid : HexError → WorkError
  invalid_transaction : HexError → WorkError
  invalid_previous_blockhash : WorkError

infixl 5 ◌>>=◌
abbrev ◌>>=◌ : {A B : Type 0} → Result WorkError A → (A → Result WorkError B) → Result WorkError B
ok a >>= f = f a
err e >>= f = err e

abbrev pub or_error {ℓ} : {A : Type ℓ} → WorkError → Option A → Result WorkError A
or_error e none = err e
or_error e (some a) = ok a

abbrev pub wrapped : {E A : Type 0} → (E → WorkError) → Result E A → Result WorkError A
wrapped wrap (err e) = err (wrap e)
wrapped wrap (ok a) = ok a

-- a loop that ends, so that there is a value
abbrev pub ended : Option Bytes → Bytes
ended none = []
ended (some bytes) = bytes

abbrev pub root_of : Option Tree → Bytes
root_of none = []
root_of (some tree) = tree 0

unfoldable pub contains : Bytes → List Bytes → Bool
contains word words = some_item (λ (w : Bytes). same w word) words

-- strconv.ParseUint of base 16 and 32 bits
unfoldable pub parse_hex : ℕ → Bytes → Option ℕ
unfolding hex_value
parse_hex n [] = some n
parse_hex n (c ∷ cs) = elim (hex_value c) [ none ↦ none | some d ↦ parse_hex (16 * n + d) cs ]

unfoldable pub fits_uint32 : Option ℕ → Option ℕ
fits_uint32 none = none
fits_uint32 (some n) = if ltb n (2 ^ 32) then some n else none

unfoldable pub parse_bits : Bytes → Option ℕ
unfolding parse_hex fits_uint32
parse_bits [] = none
parse_bits (c ∷ cs) = fits_uint32 (parse_hex 0 (c ∷ cs))

-- the 32 bytes of a hash in hexadecimal, in the opposite order
unfoldable pub reversed_hash : (HexError → WorkError) → Bytes → Result WorkError Bytes
unfolding zeros
reversed_hash wrap text = do
  bytes ← wrapped wrap (decode_hex (zeros 32) text)
  ok (ended (reverse_bytes bytes))

unfoldable pub witness_hashes : List GbtTransaction → Result WorkError (List Bytes)
unfolding reversed_hash
witness_hashes [] = ok []
witness_hashes (tx ∷ rest) = do
  hash ← reversed_hash invalid_transaction_hash tx.hash
  hashes ← witness_hashes rest
  ok (hash ∷ hashes)

-- a slice of hashes, the places behind them filled with zeros
unfoldable pub tree_of : List Bytes → Tree
tree_of hashes i = get_or hashes i (zeros 32)

module _ (c : Chain) where
  unfoldable pub merkle_root : List Bytes → Bytes
  unfolding tree_of
  merkle_root hashes =
      root_of (merkle_loop (sha256d c.sha256) (length hashes + 1) (length hashes) (tree_of hashes))

  -- the witness commitment: the coinbase's own hash is zero there, and so is the reserved value
  unfoldable pub commitment : Bool → List GbtTransaction → Result WorkError (Option Bytes)
  unfolding witness_hashes merkle_root
  commitment false txs = ok none
  commitment true txs = do
    hashes ← witness_hashes txs
    ok (some (sha256d c.sha256 (merkle_root (zeros 32 ∷ hashes) ++ zeros 32)))

  -- the bytes of the coinbase, with the signature and the auxiliary data in its script
  unfoldable pub coinbase_of : GbtRpcResponse → Bool → Bytes → Bytes → Result WorkError Bytes
  unfolding commitment
  coinbase_of val segwit address sig = do
    pk_script ← or_error invalid_coinbase_address (c.pay_to_addr address)
    witness ← commitment segwit val.transactions
    xsig ← wrapped invalid_coinbase_aux (add_all_aux val.coinbase_aux sig)
    ok (
        insert_signature
          (coinbase val.coinbase_value (ended (height_script val.height)) pk_script witness) xsig)

  unfoldable pub leaf : Bool → GbtTransaction → Result WorkError Bytes
  unfolding reversed_hash
  leaf true tx = reversed_hash invalid_txid tx.txid
  leaf false tx = do
    bytes ← wrapped invalid_transaction (decode_hex (zeros (length tx.tx_data / 2)) tx.tx_data)
    ok (sha256d c.sha256 bytes)

  unfoldable pub leaves : Bool → List GbtTransaction → Result WorkError (List Bytes)
  unfolding leaf
  leaves segwit [] = ok []
  leaves segwit (tx ∷ rest) = do
    hash ← leaf segwit tx
    hashes ← leaves segwit rest
    ok (hash ∷ hashes)

  -- the transactions of the block in hexadecimal: the count, the coinbase, and the others unless the
  -- server wants the coinbase alone; the server sends whole bytes, text of an odd length is not
  -- refused here
  unfoldable pub all_data : List GbtTransaction → Bytes
  all_data [] = []
  all_data (tx ∷ rest) = tx.tx_data ++ all_data rest

  unfoldable pub block_text : GbtRpcResponse → Bytes → Bytes
  unfolding all_data
  block_text val cbtx =
      encode_hex (varint_encode (1 + length val.transactions))
      ++ (encode_hex cbtx
          ++ (if contains (codes "submit/coinbase") val.mutables
              then []
              else all_data val.transactions))

  unfoldable pub work_of : GbtRpcResponse → ℕ → Bytes → List Bytes → Bytes → Work
  unfolding merkle_root block_text
  work_of val bits cbtx hashes prev = record {
    version = val.version;
    prevblock = prev;
    timestamp = val.curtime;
    bits = bits;
    nonce = 0;
    merkleroot = merkle_root (sha256d c.sha256 cbtx ∷ hashes);
    target = c.compact_to_big bits;
    height = val.height;
    txs = block_text val cbtx;
    work_id = val.work_id;
  }

  unfoldable pub decode_with : GbtRpcResponse → ℕ → Bool → Bytes → Bytes → Result WorkError Work
  unfolding coinbase_of leaves work_of
  decode_with val bits segwit address sig = do
    cbtx ← coinbase_of val segwit address sig
    hashes ← leaves segwit val.transactions
    prev ← or_error invalid_previous_blockhash (c.hash_from_str val.previous_blockhash)
    ok (work_of val bits cbtx hashes prev)

  unfoldable pub checked : GbtRpcResponse → Bytes → Bytes → ℕ → Result WorkError Work
  unfolding decode_with contains
  checked val address sig bits =
      if not (length val.coinbase_txn == 0)
      then err coinbase_txn_not_implemented
      else if length address == 0
      then err no_payout_address
      else decode_with val bits (contains (codes "segwit") val.rules) address sig

  unfoldable pub gbt_work_decode : GbtRpcResponse → Bytes → Bytes → Result WorkError Work
  unfolding checked parse_bits
  gbt_work_decode val address sig =
      or_error invalid_bits (parse_bits val.bits) >>= checked val address sig
