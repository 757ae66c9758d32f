-- ===== src/Cheques/Broadcast.antt =====
-- What `SweepCheque` has broadcast when it returns.
use drivechain_litwindow.Prelude.{
  ℕ, [], ◌∷◌, ◌≡◌, refl, ap, ◌∙◌, inl, inr, Bool, true, false, Option, none, some, List, Bytes,
  Bool-cases, Result, ok, err,
}
use drivechain_litwindow.Database.{
  Driver, World, Action, pure, raise, attempted, logged, ◌>>=◌, ◌>>◌,
}
use drivechain_litwindow.Cheques.{Cheque, Tables, ChequeError}
use drivechain_litwindow.Cheques.Operations.{get_by_address}
use drivechain_litwindow.Cheques.Sweep.{
  Unspent, SweepTx, SweepError, Btcd, build_sweep_tx, sign_sweep_tx,
}
use drivechain_litwindow.Cheques.Swept.{Pays, OnOk, build_sweep_tx-Pays, sign_sweep_tx-Pays}
use drivechain_litwindow.Cheques.Requests.{
  RequestError, sweep_failed, get_wallet_type, bitcoind_not_available, invalid_wif,
  create_address_failed, query_utxos_failed, no_funds_found, serialize_failed, broadcast_failed,
  Services, SweepChequeResponse, guarded, answered, internally, of_sweep, is_unswept, amounts,
  is_some_unspent, fee_rate, mark_swept, sweep_cheque,
}

-- What holds of an answer; with an error, what holds of the error, and the tables `t` as they were.
abbrev pub Answer :
    {A : Type 0}
    → Tables
    → (A → Type 0)
    → (RequestError → Type 0)
    → Result RequestError A × World Tables
    → Type 0
Answer t P F (ok a, w) = P a
Answer t P F (err e, w) = F e × (w.tables ≡ t)

Answer-ok :
    {A : Type 0} (t : Tables) (P : A → Type 0) (F : RequestError → Type 0)
    (x : Result RequestError A × World Tables) {a : A}
    → x.0 ≡ ok a
    → P a
    → Answer t P F x
Answer-ok t P F (ok c, w) {a} h p = let same_answer : c ≡ a = cc h in rw same_answer p
Answer-ok t P F (err e, w) {a} h p = absurd (cc h)

module _ {B : Type 0} (P : B → Type 0) (F : RequestError → Type 0) (w : World Tables) where
  Answer-guarded :
      (b : Bool) (e : RequestError) (f : Unit {0} → Action RequestError Tables B)
      → (b ≡ false → F e)
      → (b ≡ true → Answer w.tables P F (f tt w))
      → Answer w.tables P F ((guarded b e >>= f) w)
  unfolding guarded pure raise ◌>>=◌
  Answer-guarded true e f bad h = h refl
  Answer-guarded false e f bad h = (bad refl, refl)

  Answer-answered :
      {A : Type 0} (e : RequestError) (o : Option A) (f : A → Action RequestError Tables B)
      → (o ≡ none → F e)
      → ((a : A) → o ≡ some a → Answer w.tables P F (f a w))
      → Answer w.tables P F ((answered e o >>= f) w)
  unfolding answered pure raise ◌>>=◌
  Answer-answered e none f bad h = (bad refl, refl)
  Answer-answered e (some a) f bad h = h a refl

  Answer-of_sweep :
      {A : Type 0} (Q : A → Type 0) (x : Result SweepError A) (f : A → Action RequestError Tables B)
      → OnOk Q x
      → ((e : SweepError) → x ≡ err e → F (sweep_failed e))
      → ((a : A) → x ≡ ok a → Q a → Answer w.tables P F (f a w))
      → Answer w.tables P F ((of_sweep x >>= f) w)
  unfolding of_sweep pure raise ◌>>=◌
  Answer-of_sweep Q (ok a) f q bad h = h a refl q
  Answer-of_sweep Q (err e) f q bad h = (bad e refl, refl)

-- The transaction that was broadcast.
pub record Broadcast (s : Services) (b : Btcd) (wif : Bytes) (rate : ℕ)
    (response : SweepChequeResponse) : Type 0 where
  pub key : Bytes
  pub address : Bytes
  pub utxos : List Unspent
  pub tx : SweepTx
  pub hex : Bytes
  pub of_wif : b.decode_wif wif ≡ some key
  pub of_key : s.address_of_key key ≡ some address
  pub listed : s.unspent address ≡ some utxos
  pub pays : Pays b tx utxos (fee_rate rate)
  pub serialized : b.serialize tx ≡ some hex
  pub sent : s.send_raw_transaction hex ≡ some response.txid
  pub reported : response.amount_sats ≡ s.sats_of_sum (amounts utxos)

-- The reason of an error: each says what failed before the node accepted a transaction. None of them
-- comes from the database.
pub data IsRefused (s : Services) (b : Btcd) (wallet_id wif destination : Bytes) (rate : ℕ)
    : RequestError → Type 0 where
  no_wallet :
      s.has_wallet wallet_id ≡ false → IsRefused s b wallet_id wif destination rate get_wallet_type
  no_key : b.decode_wif wif ≡ none → IsRefused s b wallet_id wif destination rate invalid_wif
  no_address :
      (key : Bytes)
      → b.decode_wif wif ≡ some key
      → s.address_of_key key ≡ none
      → IsRefused s b wallet_id wif destination rate create_address_failed
  no_node :
      s.has_bitcoind ≡ false → IsRefused s b wallet_id wif destination rate bitcoind_not_available
  no_list :
      (key address : Bytes)
      → b.decode_wif wif ≡ some key
      → s.address_of_key key ≡ some address
      → s.unspent address ≡ none
      → IsRefused s b wallet_id wif destination rate query_utxos_failed
  no_funds :
      (key address : Bytes)
      → b.decode_wif wif ≡ some key
      → s.address_of_key key ≡ some address
      → s.unspent address ≡ some []
      → IsRefused s b wallet_id wif destination rate no_funds_found
  not_built :
      (key address : Bytes) (us : List Unspent) (e : SweepError)
      → b.decode_wif wif ≡ some key
      → s.address_of_key key ≡ some address
      → s.unspent address ≡ some us
      → build_sweep_tx b destination us (fee_rate rate) ≡ err e
      → IsRefused s b wallet_id wif destination rate (sweep_failed e)
  not_signed :
      (key address : Bytes) (us : List Unspent) (tx : SweepTx) (e : SweepError)
      → b.decode_wif wif ≡ some key
      → s.address_of_key key ≡ some address
      → s.unspent address ≡ some us
      → build_sweep_tx b destination us (fee_rate rate) ≡ ok tx
      → sign_sweep_tx b tx wif address us ≡ err e
      → IsRefused s b wallet_id wif destination rate (sweep_failed e)
  not_serialized :
      (key address : Bytes) (us : List Unspent) (tx signed : SweepTx)
      → b.decode_wif wif ≡ some key
      → s.address_of_key key ≡ some address
      → s.unspent address ≡ some us
      → build_sweep_tx b destination us (fee_rate rate) ≡ ok tx
      → sign_sweep_tx b tx wif address us ≡ ok signed
      → b.serialize signed ≡ none
      → IsRefused s b wallet_id wif destination rate serialize_failed
  not_accepted :
      (key address : Bytes) (us : List Unspent) (tx signed : SweepTx) (hex : Bytes)
      → b.decode_wif wif ≡ some key
      → s.address_of_key key ≡ some address
      → s.unspent address ≡ some us
      → build_sweep_tx b destination us (fee_rate rate) ≡ ok tx
      → sign_sweep_tx b tx wif address us ≡ ok signed
      → b.serialize signed ≡ some hex
      → s.send_raw_transaction hex ≡ none
      → IsRefused s b wallet_id wif destination rate broadcast_failed

empty_list : (us : List Unspent) → is_some_unspent us ≡ false → us ≡ []
empty_list [] h = refl
empty_list (u ∷ us) h = absurd (cc h)

module _ (d : Driver) (s : Services) where
  -- marking never fails the request
  marked :
      (wallet_id address txid : Bytes) (response : SweepChequeResponse) (w : World Tables)
      → ((internally (attempted (get_by_address d wallet_id address)) >>= λ found.
            mark_swept d s wallet_id txid found >> pure response)
          w).0
        ≡ ok response
  unfolding internally attempted mark_swept logged pure ◌>>=◌
  marked wallet_id address txid response w =
      of_found (get_by_address d wallet_id address w).0 (get_by_address d wallet_id address w).1
    where
      of_found :
          (found : Result ChequeError Cheque) (v : World Tables)
          → ((mark_swept d s wallet_id txid found >> pure response) v).0 ≡ ok response
      of_found (err e) v = refl
      of_found (ok c) v = elim (Bool-cases (is_unswept c)) [
        | inl unswept ↦ rw unswept refl
        | inr swept ↦ rw swept refl
      ]

  -- Whichever calls fail and whatever is answered: when SweepCheque returns a transaction id, the node has accepted a transaction under this id that spends exactly the outputs listed for the address of the key, one input each, and pays in its only output, which is not empty, all that they hold less the fee for their number, as uint64 numbers. It returns an error only for a reason that comes before the node has accepted the transaction, which the error names, and then no row has changed: a failure to find the cheque or to mark it as swept afterwards does not fail the request.
  pub sweep_cheque-Answer :
      (b : Btcd) (wallet_id wif destination : Bytes) (rate : ℕ) (w : World Tables)
      → Answer w.tables
          (Broadcast s b wif rate)
          (IsRefused s b wallet_id wif destination rate)
          (sweep_cheque d s b wallet_id wif destination rate w)
  unfolding sweep_cheque
  sweep_cheque-Answer b wallet_id wif destination rate w =
      let P = Broadcast s b wif rate in
      let F = IsRefused s b wallet_id wif destination rate in
      let rate' = fee_rate rate in
      Answer-guarded P F w (s.has_wallet wallet_id) get_wallet_type _ no_wallet (λ known.
        Answer-answered P F w invalid_wif (b.decode_wif wif) _ no_key (λ key k.
          Answer-answered P F w create_address_failed (s.address_of_key key) _ (no_address key k)
            (λ address a.
              Answer-guarded P F w s.has_bitcoind bitcoind_not_available _ no_node (λ running.
                Answer-answered P F w query_utxos_failed (s.unspent address) _
                  (no_list key address k a)
                  (λ us l.
                    Answer-guarded P F w (is_some_unspent us) no_funds_found _
                      (λ none_listed.
                        let empty : us ≡ [] = empty_list us none_listed in
                        no_funds key address k a (l ∙ ap some empty))
                      (λ funded.
                        Answer-of_sweep P F w (λ t. Pays b t us rate')
                          (build_sweep_tx b destination us rate') _
                          (build_sweep_tx-Pays b destination us rate')
                          (λ e bad. not_built key address us e k a l bad)
                          (λ tx made built.
                            Answer-of_sweep P F w (λ t. Pays b t us rate')
                              (sign_sweep_tx b tx wif address us) _
                              (sign_sweep_tx-Pays b tx wif address us rate' built)
                              (λ e bad. not_signed key address us tx e k a l made bad)
                              (λ signed done pays.
                                Answer-answered P F w serialize_failed (b.serialize signed) _
                                  (not_serialized key address us tx signed k a l made done)
                                  (λ hex h.
                                    Answer-answered P F w broadcast_failed
                                      (s.send_raw_transaction hex) _
                                      (not_accepted key address us tx signed hex k a l made done h)
                                      (λ txid t.
                                        Answer-ok w.tables P F _ (marked wallet_id address txid _ w)
                                          (record {
                                            key = key;
                                            address = address;
                                            utxos = us;
                                            tx = signed;
                                            hex = hex;
                                            of_wif = k;
                                            of_key = a;
                                            listed = l;
                                            pays = pays;
                                            serialized = h;
                                            sent = t;
                                            reported = refl;
                                          })))))))))))
