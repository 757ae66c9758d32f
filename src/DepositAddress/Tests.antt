-- ===== src/DepositAddress/Tests.antt =====
-- The theorems on deposit addresses at concrete inputs, with a short hash in place of SHA-256.
use drivechain_litwindow.Prelude.{
  ◌+◌, ◌≡◌, refl, Bool, true, false, none, some, [], ◌∷◌, ◌++◌, Bytes, codes, same, length, arith,
  ok, if◌then◌else◌, ◌==◌,
}
use drivechain_litwindow.Prelude.Int.{pos}
use drivechain_litwindow.Deniability.Engine.{enforcer}
use drivechain_litwindow.Deniability.Sizes.{format_int, parse_int, trim_space}
use drivechain_litwindow.DepositAddress.{
  DepositAddress, Chain, decode_deposit_address, checksum_of, classify_address, drivechain_deposit,
  unknown,
}
use drivechain_litwindow.DepositAddress.RoundTrip.{HasNoUnderscore, slot_text, decode-with_checksum}
use drivechain_litwindow.DepositAddress.Deposits.{
  DepositRequest, DepositTransaction, Wallets, Agrees, deposit_transaction,
  create_sidechain_deposit, with_checksum_text, transaction_to, create_sidechain_deposit-checksum,
  deposit_transaction-Agrees,
}

abbrev short_hash : Bytes → Bytes
short_hash s = 1 ∷ 0xab ∷ length s ∷ []

abbrev address : Bytes
address = codes "13tq"

-- s9_13tq_ has eight characters
good_checksum : checksum_of short_hash (pos 9) address ≡ codes "01ab08"
unfolding checksum_of format_int
good_checksum = refl

address-HasNoUnderscore : HasNoUnderscore address
address-HasNoUnderscore = omega arith

decode-with_checksum_example :
    decode_deposit_address short_hash (slot_text 9 ++ b'_' ∷ (address ++ b'_' ∷ codes "01ab08"))
    ≡ ok (record {
      slot = some (pos 9);
      address = address;
      checksum =
          if same (codes "01ab08") (checksum_of short_hash (pos 9) address)
          then some (codes "01ab08")
          else none;
    })
decode-with_checksum_example =
    decode-with_checksum short_hash 9 address (omega arith) address-HasNoUnderscore (codes "01ab08")
      (omega arith)

abbrev request : DepositRequest
request = record {
  wallet_id = codes "w";
  slot = pos 0;
  destination = codes "s9_13tq";
  amount = 1;
  fee = 1;
}

abbrev wallets : Wallets
wallets = record {
  wallet_type = λ id. some enforcer;
  is_connected = true;
  is_available = true;
  new_amount = λ bits. some (pos (1000 + bits));
  create_deposit_transaction = λ tx. some (codes "txid");
}

create_sidechain_deposit-checksum_example :
    (deposit_transaction short_hash wallets (with_checksum_text request 9 address (codes "bad"))
      ≡ transaction_to 9 address
          (wallets.new_amount request.amount)
          (wallets.new_amount request.fee))
    × (create_sidechain_deposit short_hash wallets
          (with_checksum_text request 9 address (codes "01ab08"))
        ≡ create_sidechain_deposit short_hash wallets
            (with_checksum_text request 9 address (codes "bad")))
create_sidechain_deposit-checksum_example =
    create_sidechain_deposit-checksum short_hash wallets request 9 address (codes "01ab08")
      (codes "bad") (omega arith) address-HasNoUnderscore (omega arith) (omega arith)

abbrev asked : DepositTransaction
asked = record { sidechain_id = 9; address = address; value_sats = 1001; fee_sats = 1001 }

asked_for : deposit_transaction short_hash wallets request ≡ ok asked
unfolding deposit_transaction decode_deposit_address parse_int
asked_for = refl

deposit_transaction-Agrees_example :
    (d : DepositAddress) × (decode_deposit_address short_hash request.destination ≡ ok d)
    × Agrees request d asked
deposit_transaction-Agrees_example =
    deposit_transaction-Agrees short_hash wallets request {tx = asked} asked_for

-- an address of each chain is one that starts with 1
abbrev starts_with_1 : Bytes → Chain → Bool
starts_with_1 [] chain = false
starts_with_1 (c ∷ cs) chain = c == b'1'

classes :
    (classify_address short_hash starts_with_1 (codes " s9_13tq_01ab08 ") ≡ drivechain_deposit)
    × (classify_address short_hash starts_with_1 (codes "s9_13tq_bad") ≡ unknown)
unfolding classify_address decode_deposit_address parse_int trim_space format_int same
classes = (refl, refl)
