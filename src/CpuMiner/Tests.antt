-- ===== src/CpuMiner/Tests.antt =====
-- The theorems on the miner at concrete inputs, with a short hash in place of SHA-256.
use drivechain_litwindow.Prelude.{
  ℕ, suc, ◌≡◌, refl, true, none, some, [], ◌∷◌, Bytes, codes, same, length, get_or, arith, ok,
}
use drivechain_litwindow.CpuMiner.{reverse_bytes, varint_encode, sha256d, decode_hex}
use drivechain_litwindow.CpuMiner.Merkle.{
  Tree, merkle_loop, MerkleRoot, first, merkle_loop-MerkleRoot,
}
use drivechain_litwindow.CpuMiner.Scan.{
  Job, Scanned, IsResult, scanhash_sha256d, scanhash_sha256d-IsResult, is_solution, first_nonce,
  max_nonce, Tries, routines_share_nothing,
}
use drivechain_litwindow.CpuMiner.Coinbase.{height_script, coinbase, insert_signature, add_all_aux}
use drivechain_litwindow.CpuMiner.Script.{Says, height_script-Says}
use drivechain_litwindow.CpuMiner.Work.{
  Work, GbtRpcResponse, Chain, ended, work_of, gbt_work_decode,
}

reversed : reverse_bytes (1 ∷ 2 ∷ 3 ∷ 4 ∷ []) ≡ some (4 ∷ 3 ∷ 2 ∷ 1 ∷ [])
unfolding reverse_bytes
reversed = refl

abbrev odd : Bytes
odd = 1 ∷ 2 ∷ 3 ∷ []

varints :
    (varint_encode 0xfc ≡ 0xfc ∷ [])
    × (varint_encode 0xfd ≡ 0xfd ∷ 0xfd ∷ 0 ∷ [])
    × (varint_encode 0x10000 ≡ 0xfe ∷ 0 ∷ 0 ∷ 1 ∷ 0 ∷ [])
unfolding varint_encode
varints = (refl, refl, refl)

-- the length of what is hashed and its first byte
abbrev short_hash : Bytes → Bytes
short_hash [] = 0 ∷ []
short_hash (b ∷ bs) = suc (length bs) ∷ b ∷ []

abbrev three : Tree
three i = i ∷ []

merkle_loop-MerkleRoot_example :
    (t : Tree) × (merkle_loop short_hash 4 3 three ≡ some t)
    × MerkleRoot short_hash (first 3 three) (t 0)
merkle_loop-MerkleRoot_example =
    merkle_loop-MerkleRoot short_hash 4 3 three (omega arith) (omega arith)

-- a nonce solves the block if its lowest byte is 3 or less
abbrev job : Job
job = record {
  header = [];
  sha256 = λ bytes. bytes;
  hash_to_big = λ bytes. get_or bytes 0 0;
  testing_target = none;
  target = 3;
  time_left = λ rounds. true;
}

solved : scanhash_sha256d job 250 300 ≡ some (record { found = true; nonce = 256; hashes = 6 })
unfolding scanhash_sha256d is_solution
solved = refl

scanhash_sha256d-IsResult_example :
    (r : Scanned) × (scanhash_sha256d job 250 300 ≡ some r) × IsResult job 250 300 r
scanhash_sha256d-IsResult_example = scanhash_sha256d-IsResult job 250 300 (omega arith)

tried : Tries 2 1 3_000_000_000
unfolding first_nonce max_nonce
tried = omega arith

routines_share_nothing_example : ◌≡◌ {A = ℕ} 1 1
routines_share_nothing_example =
    routines_share_nothing 2 1 1 3_000_000_000 (omega arith) (omega arith) (omega arith)
      (omega arith) tried tried

-- heights 1, 127 and 128
heights :
    (height_script 1 ≡ some (0x51 ∷ 0 ∷ []))
    × (height_script 127 ≡ some (1 ∷ 127 ∷ []))
    × (height_script 128 ≡ some (2 ∷ 128 ∷ 0 ∷ []))
unfolding height_script
heights = (refl, refl, refl)

height_script-Says_example :
    (script : Bytes) × (height_script 2_900_000 ≡ some script) × Says 2_900_000 script
height_script-Says_example = height_script-Says 2_900_000 (omega arith)

abbrev script : Bytes
script = 2 ∷ 128 ∷ 0 ∷ []

abbrev signature : Bytes
signature = 7 ∷ 8 ∷ []

abbrev chain : Chain
chain = record {
  sha256 = short_hash;
  compact_to_big = λ bits. bits;
  pay_to_addr = λ address. some (0 ∷ 20 ∷ []);
  hash_from_str = λ text. some text;
}

abbrev template : GbtRpcResponse
template = record {
  previous_blockhash = codes "00";
  bits = codes "1d00ffff";
  height = 20;
  curtime = 1;
  version = 2;
  rules = [];
  mutables = [];
  transactions = record { tx_data = codes "0aff"; hash = []; txid = [] } ∷ [];
  coinbase_txn = [];
  coinbase_value = 50;
  coinbase_aux = [];
  work_id = [];
}

abbrev decoded : Work
decoded =
    work_of chain template 0x1d00ffff (coinbase 50 (ended (height_script 20)) (0 ∷ 20 ∷ []) none)
      (sha256d short_hash (10 ∷ 255 ∷ []) ∷ []) (codes "00")

is_decoded : gbt_work_decode chain template (codes "addr") [] ≡ ok decoded
unfolding gbt_work_decode decode_hex insert_signature add_all_aux same
is_decoded = refl
