-- ===== src/Cheques/Scan/Found.antt =====
-- What a scan for funded cheques finds, and that it misses none.
use mathlib.Core.List.{Memᴰ}
use drivechain_litwindow.Prelude.{
  ℕ, zero, suc, ◌+◌, ◌%◌, ◌^◌, ◌≡◌, ◌≤◌, ◌<◌, refl, ap, sym, ◌∙◌, inl, inr, arith, Option, none,
  some, List, [], ◌∷◌, ◌++◌, map, Bytes, Option-cases, Bool-cases, ltb,
}
use drivechain_litwindow.Cheques.Sweep.{Unspent}
use drivechain_litwindow.Cheques.Scan.{
  ChequeRecovery, Node, last_txid, recovery_of, recovery_listed, recovery_derived, recovery_at,
  appended, scan_from, scanned, scan_for_funds,
}

-- What a recovery says: the address of its index has outputs, it has their sum, and the transaction
-- of the last of them.
pub record IsRecovery (n : Node) (seed : Bytes) (r : ChequeRecovery) : Type 0 where
  pub earlier : List Unspent
  pub last : Unspent
  pub derived : n.address_at seed r.index ≡ some r.address
  pub listed : n.unspent r.address ≡ some (earlier ++ last ∷ [])
  pub amounts : r.amount ≡ n.sats_of_sum (map (λ (u : Unspent). u.amount) (earlier ++ last ∷ []))
  pub of_last : r.txid ≡ last.txid

last_txid-append :
    (t : Bytes) (us : List Unspent) (u : Unspent) → last_txid t (us ++ u ∷ []) ≡ u.txid
last_txid-append t [] u = refl
last_txid-append t (x ∷ us) u = last_txid-append x.txid us u

split_last :
    (u : Unspent) (us : List Unspent)
    → (xs : List Unspent) × ((x : Unspent) × (u ∷ us ≡ xs ++ x ∷ []))
split_last u [] = ([], (u, refl))
split_last u (v ∷ us) = let (xs, (x, e)) = split_last v us in (u ∷ xs, (x, ap (λ l. u ∷ l) e))

recovery_of-IsRecovery :
    (n : Node) (seed : Bytes) (i : ℕ) (address : Bytes) (us : List Unspent) {r : ChequeRecovery}
    → n.address_at seed i ≡ some address
    → n.unspent address ≡ some us
    → recovery_of n i address us ≡ some r
    → (r.index ≡ i) × IsRecovery n seed r
unfolding recovery_of
recovery_of-IsRecovery n seed i address [] derived listed h = absurd (cc h)
recovery_of-IsRecovery n seed i address (u ∷ us) {r} derived listed h =
    let total : List Unspent → ℕ = λ l. n.sats_of_sum (map (λ (x : Unspent). x.amount) l) in
    let (xs, (x, e)) = split_last u us in
    let same_index : r.index ≡ i = cc in
    let same_address : r.address ≡ address = cc in
    let same_amount : r.amount ≡ total (u ∷ us) = cc in
    let same_txid : r.txid ≡ last_txid [] (u ∷ us) = cc in
    (
      same_index,
      record {
        earlier = xs;
        last = x;
        derived = rw (same_index, same_address) derived;
        listed = rw same_address (listed ∙ ap some e);
        amounts = same_amount ∙ ap total e;
        of_last = same_txid ∙ ap (last_txid []) e ∙ last_txid-append [] xs x;
      },
    )

recovery_at-IsRecovery :
    (n : Node) (seed : Bytes) (i : ℕ) {r : ChequeRecovery}
    → recovery_at n seed i ≡ some r
    → (r.index ≡ i) × IsRecovery n seed r
unfolding recovery_at recovery_derived recovery_listed
recovery_at-IsRecovery n seed i {r} h = elim (Option-cases (n.address_at seed i)) [
  | inl underived ↦ absurd (cc (rw underived at h))
  | inr (address, derived) ↦ elim (Option-cases (n.unspent address)) [
    | inl unlisted ↦ absurd (no_recovery (rw unlisted at (rw derived at h)))
    | inr (us, listed) ↦
        recovery_of-IsRecovery n seed i address us derived listed (rw listed at (rw derived at h))
  ]
]
  where
    no_recovery : (let o : Option ChequeRecovery = none in o) ≡ some r → ⊥
    no_recovery e = cc

-- an address that has outputs is recovered
recovery_at-listed :
    (n : Node) (seed : Bytes) (i : ℕ) (address : Bytes) (u : Unspent) (us : List Unspent)
    → n.address_at seed i ≡ some address
    → n.unspent address ≡ some (u ∷ us)
    → (r : ChequeRecovery) × (recovery_at n seed i ≡ some r) × (r.index ≡ i)
unfolding recovery_at recovery_derived recovery_listed recovery_of
recovery_at-listed n seed i address u us derived listed = rw (derived, listed) (_, refl, refl)

mem-appended :
    (o : Option ChequeRecovery) {r : ChequeRecovery} {rs : List ChequeRecovery}
    → Memᴰ r rs
    → Memᴰ r (appended o rs)
mem-appended none m = m
mem-appended (some x) m = Memᴰ.tail m

module _ (n : Node) (seed : Bytes) where
  scan_from-found :
      (rounds i : ℕ) (r : ChequeRecovery)
      → Memᴰ r (scan_from n seed rounds i)
      → (i ≤ r.index) × (r.index < i + rounds) × IsRecovery n seed r
  unfolding scan_from
  scan_from-found zero i r m = elim m [ ]
  scan_from-found (suc rounds) i r m = elim (Option-cases (recovery_at n seed i)) [
    | inl nothing ↦
        let (lo, hi, found) = scan_from-found rounds (i + 1) r (rw nothing at m) in
        (omega arith, omega arith, found)
    | inr (r', here) ↦ of_mem (λ q. scan_from-found rounds (i + 1) r q) r' here (rw here at m)
  ]
    where
      of_mem :
          (Memᴰ r (scan_from n seed rounds (i + 1))
            → (i + 1 ≤ r.index) × (r.index < i + 1 + rounds) × IsRecovery n seed r)
          → (r' : ChequeRecovery) → recovery_at n seed i ≡ some r'
          → Memᴰ r (r' ∷ scan_from n seed rounds (i + 1))
          → (i ≤ r.index) × (r.index < i + suc rounds) × IsRecovery n seed r
      of_mem rest r' here (Memᴰ.head e) =
          let same_r : recovery_at n seed i ≡ some r = here ∙ ap some (sym e) in
          let (at, found) = recovery_at-IsRecovery n seed i same_r in
          (omega arith, omega arith, found)
      of_mem rest r' here (Memᴰ.tail later) =
          let (lo, hi, found) = rest later in (omega arith, omega arith, found)

  scan_from-complete :
      (rounds i j : ℕ) {r : ChequeRecovery}
      → i ≤ j
      → j < i + rounds
      → recovery_at n seed j ≡ some r
      → Memᴰ r (scan_from n seed rounds i)
  unfolding scan_from
  scan_from-complete zero i j lo hi h = absurd (omega arith)
  scan_from-complete (suc rounds) i j {r} lo hi h = elim (Bool-cases (ltb i j)) [
    | inl later ↦
        mem-appended (recovery_at n seed i)
          (scan_from-complete rounds (i + 1) j (ground arith) (omega arith) h)
    | inr now ↦
        let same_index : i ≡ j = ground arith in
        let here : recovery_at n seed i ≡ some r = ap (recovery_at n seed) same_index ∙ h in
        rw here (Memᴰ.head refl)
  ]

-- If ScanForFunds returns recoveries for a wallet, the wallet has a seed, every one of them is that of an index below the count and says the address, the sum and the last transaction of the outputs that the node lists there, and conversely every index below the count whose address has outputs is recovered; an index that fails is skipped and stops nothing.
pub scan_for_funds-Finds :
    (n : Node) (wallet_id : Bytes) (count : ℕ) {rs : List ChequeRecovery}
    → count < 2 ^ 32
    → scan_for_funds n wallet_id count ≡ some rs
    → (seed : Bytes) × (n.wallet_seed wallet_id ≡ some seed)
      × ((r : ChequeRecovery) → Memᴰ r rs → (r.index < count) × IsRecovery n seed r)
      × ((i : ℕ) (address : Bytes) (u : Unspent) (us : List Unspent)
          → i < count
          → n.address_at seed i ≡ some address
          → n.unspent address ≡ some (u ∷ us)
          → (r : ChequeRecovery) × Memᴰ r rs × (r.index ≡ i))
unfolding scan_for_funds scanned
scan_for_funds-Finds n wallet_id count {rs} small h =
    elim (Option-cases (n.wallet_seed wallet_id)) [
      | inl seedless ↦ absurd (no_list (rw seedless at h))
      | inr (seed, seeded) ↦
          let rounds : count % 2 ^ 32 ≡ count = omega arith in
          let same_list : rs ≡ scan_from n seed count 0 =
            of_some (rw seeded at h) ∙ ap (λ (k : ℕ). scan_from n seed k 0) rounds in
          rw same_list (
            seed,
            seeded,
            λ r m. let (lo, hi, found) = scan_from-found n seed count 0 r m in (omega arith, found),
            λ i address u us below derived listed.
                let (r, here, at) = recovery_at-listed n seed i address u us derived listed in
                (r, scan_from-complete n seed count 0 i (omega arith) (omega arith) here, at),
          )
    ]
  where
    no_list : (let o : Option (List ChequeRecovery) = none in o) ≡ some rs → ⊥
    no_list e = cc

    of_some : {xs : List ChequeRecovery} → some xs ≡ some rs → rs ≡ xs
    of_some e = cc
