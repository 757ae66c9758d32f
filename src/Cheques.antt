-- ===== src/Cheques.antt =====
-- litwindow/server/models/cheques/cheques.go, and the table of migrations/016_cheques.sql with the
-- column of 025_cheques_wallet_id.sql: its derivation index and its address are each unique over all
-- wallets. Amounts are below 2 ^ 63, which the driver stores.
pub mod Operations
pub mod Index
pub mod Recovery
pub mod Sweep
pub mod Requests
pub mod Deletion
pub mod Funding
pub mod Missing
pub mod Scan
pub mod Swept
pub mod Broadcast
pub mod Tests
use drivechain_litwindow.Prelude.{
  ℕ, suc, ◌+◌, ◌%◌, ◌^◌, Bool, true, false, not, ◌&&◌, ◌||◌, Option, none, some, List, [], ◌∷◌,
  ◌++◌, map, Bytes, length, same, ltb, leb, ◌==◌, if◌then◌else◌, keep, some_item, sort_desc, Result,
  ok, err,
}
use drivechain_litwindow.Deniability.Sizes.{join_comma, split_comma}

-- A row of `cheques`
pub record ChequeRow : Type 0 where
  pub id : ℕ
  pub wallet_id : Bytes
  pub derivation_index : ℕ  -- uint32
  pub expected_amount_sats : ℕ
  pub address : Bytes
  pub funded_txid : Option Bytes
  pub actual_amount_sats : Option ℕ
  pub created_at : ℕ
  pub funded_at : Option ℕ
  pub swept_txid : Option Bytes
  pub swept_at : Option ℕ

pub record Cheque : Type 0 where
  pub row : ChequeRow
  pub funded_txids : List Bytes

pub record Tables : Type 0 where
  pub cheques : List ChequeRow
  pub next_cheque : ℕ

-- `sql.ErrNoRows`, and the errors that wrap another one or stand for a failed call.
pub data ChequeError : Type 0 where
  no_rows call_failed : ChequeError
  empty_wallet_id empty_address : ChequeError
  create_failed update_funding_failed update_swept_failed : ChequeError
  max_index_failed delete_failed list_failed create_recovered_failed : ChequeError
  get_cheque get_by_address_failed check_existing : ChequeError → ChequeError

-- `err == sql.ErrNoRows`: a wrapped error is another one
abbrev pub is_no_rows : ChequeError → Bool
is_no_rows no_rows = true
is_no_rows _ = false

-- `IsFunded`
unfoldable pub is_funded : Cheque → Bool
is_funded c = elim c.row.actual_amount_sats [
  | none ↦ false
  | some n ↦ leb c.row.expected_amount_sats n
]

abbrev has_txids : List Bytes → Bool
has_txids [] = false
has_txids (t ∷ ts) = true

-- `IsPartiallyFunded`
unfoldable pub is_partially_funded : Cheque → Bool
unfolding is_funded
is_partially_funded c = has_txids c.funded_txids && not (is_funded c)

abbrev pub txids_of : Option Bytes → List Bytes
txids_of none = []
txids_of (some []) = []
txids_of (some (c ∷ cs)) = let (part, parts) = split_comma (c ∷ cs) in part ∷ parts

-- `scanCheque`; the columns that may be NULL keep that in the row
unfoldable pub scan_cheque : ChequeRow → Cheque
unfolding split_comma
scan_cheque r = record { row = r; funded_txids = txids_of r.funded_txid }

abbrev pub is_cheque : Bytes → ℕ → ChequeRow → Bool
is_cheque wallet_id id r = same r.wallet_id wallet_id && r.id == id

abbrev pub has_address : Bytes → Bytes → ChequeRow → Bool
has_address wallet_id address r = same r.wallet_id wallet_id && same r.address address

abbrev pub first_row : List ChequeRow → Option ChequeRow
first_row [] = none
first_row (r ∷ rs) = some r

-- whether the unique index or the unique address is taken, by a cheque of any wallet
abbrev pub is_taken : ℕ → Bytes → List ChequeRow → Bool
is_taken index address rs =
    some_item (λ (r : ChequeRow). r.derivation_index == index || same r.address address) rs

-- INSERT INTO cheques
unfoldable pub insert_cheque :
    Bytes → ℕ → ℕ → Bytes → Option Bytes → Option ℕ → Option ℕ → ℕ → Tables → Option (Tables × ℕ)
insert_cheque wallet_id index expected address txid amount funded_at now t =
    if is_taken index address t.cheques
    then none
    else some (
      record t {
        cheques =
            t.cheques
            ++ record {
              id = t.next_cheque;
              wallet_id = wallet_id;
              derivation_index = index;
              expected_amount_sats = expected;
              address = address;
              funded_txid = txid;
              actual_amount_sats = amount;
              created_at = now;
              funded_at = funded_at;
              swept_txid = none;
              swept_at = none;
            }
              ∷ [];
        next_cheque = suc t.next_cheque;
      },
      t.next_cheque,
    )

abbrev pub update_rows : (ChequeRow → Bool) → (ChequeRow → ChequeRow) → Tables → Tables × ℕ
update_rows p f t = (
  record t { cheques = map (λ (r : ChequeRow). if p r then f r else r) t.cheques },
  length (keep p t.cheques),
)

-- UPDATE cheques SET funded_txid = ?, actual_amount_sats = ?, funded_at = COALESCE(funded_at, ?)
abbrev pub funded_row : List Bytes → ℕ → ℕ → ChequeRow → ChequeRow
funded_row txids amount now r = record r {
  funded_txid = some (join_comma txids);
  actual_amount_sats = some amount;
  funded_at = elim r.funded_at [ none ↦ some now | some t ↦ some t ];
}

abbrev pub greater : ℕ → Option ℕ → Option ℕ
greater i none = some i
greater i (some n) = some (if ltb n i then i else n)

-- SELECT MAX(derivation_index) FROM cheques WHERE wallet_id = ?
unfoldable pub max_index : Bytes → List ChequeRow → Option ℕ
max_index wallet_id [] = none
max_index wallet_id (r ∷ rs) =
    let later = max_index wallet_id rs in
    if same r.wallet_id wallet_id then greater r.derivation_index later else later

-- the index after the greatest, as uint32 numbers; 0 without any
unfoldable pub index_after : Option ℕ → ℕ
index_after none = 0
index_after (some n) = (n % 2 ^ 32 + 1) % 2 ^ 32

abbrev pub is_empty : Bytes → Bool
is_empty [] = true
is_empty (c ∷ cs) = false
