-- ===== src/CpuMiner/Scan.antt =====
-- The scan for a nonce: `scanhashSha256d` and the division of the nonces by `runRoutine` in
-- litwindow/server/cpuminer/miner.go.
use native.Mathlib.Nat.{mul-le-mul_left, div-mul-le_self, le-div_iff_mul-le, div-le_self}
use drivechain_litwindow.Prelude.{
  ℕ, zero, suc, ◌+◌, ◌-◌, ◌*◌, ◌/◌, ◌%◌, ◌^◌, ◌≤◌, ◌<◌, ◌≡◌, refl, Bool, true, false, ◌&&◌, Option,
  none, some, ◌++◌, Bytes, arith, ltb, leb, ◌==◌, if◌then◌else◌, Bool-cases, inl, inr, ◌⊎◌,
}
use drivechain_litwindow.CpuMiner.{le32enc, sha256d}

-- uint32(0xffffffff/m.routines) * uint32(routineID), and
-- uint32(0xffffffff/m.routines*(routineID+1) - 0x20)
unfoldable pub first_nonce : ℕ → ℕ → ℕ
first_nonce routines id = 0xffffffff / routines % 2 ^ 32 * (id % 2 ^ 32) % 2 ^ 32

unfoldable pub max_nonce : ℕ → ℕ → ℕ
max_nonce routines id = (0xffffffff / routines * (id + 1) + 2 ^ 32 - 0x20) % 2 ^ 32

-- What the scan ends with, and the hashes it has counted.
pub record Scanned : Type 0 where
  pub found : Bool
  pub nonce : ℕ
  pub hashes : ℕ

-- What the scan reads: the first 76 bytes of the header, SHA-256, the number of a hash
-- (blockchain.HashToBig), the targets, and whether there is time left after so many rounds.
pub record Job : Type 0 where
  pub header : Bytes
  pub sha256 : Bytes → Bytes
  pub hash_to_big : Bytes → ℕ
  pub testing_target : Option ℕ
  pub target : ℕ
  pub time_left : ℕ → Bool

-- cmp.Or(getTestingTarget(ctx), work.Target)
unfoldable pub goal_of : Option ℕ → ℕ → ℕ
goal_of none target = target
goal_of (some t) target = t

-- whether the header with a nonce has a hash that is low enough
unfoldable pub is_solution : Job → ℕ → Bool
unfolding goal_of sha256d le32enc
is_solution j nonce =
    leb (j.hash_to_big (sha256d j.sha256 (j.header ++ le32enc nonce)))
      (goal_of j.testing_target j.target)

-- the loop, with rounds; `none` means that the rounds ran out
unfoldable pub scan_from : Job → ℕ → ℕ → ℕ → ℕ → Option Scanned
scan_from j zero max nonce hashes = none
scan_from j (suc rounds) max nonce hashes =
    let next = (nonce + 1) % 2 ^ 32 in
    let more = scan_from j rounds max next (hashes + 1) in
    if ltb nonce max && j.time_left hashes
    then (if is_solution j next
        then some (record { found = true; nonce = next; hashes = hashes + 1 })
        else more)
    else some (record { found = false; nonce = nonce; hashes = hashes })

-- `scanhashSha256d`: the counts of rounds and of hashes are those of this scan
unfoldable pub scanhash_sha256d : Job → ℕ → ℕ → Option Scanned
unfolding scan_from
scanhash_sha256d j nonce max = scan_from j (max - nonce + 1) max nonce 0

-- No nonce after the first one, up to the last one, solves the block.
abbrev pub NoneSolves : Job → ℕ → ℕ → Type 0
NoneSolves j start last = (n : ℕ) → start < n → n ≤ last → is_solution j n ≡ false

-- What a scan between two nonces has found out: the first solution; or that there is none up to where it stopped, which is the end or where the time was over.
pub record IsResult (j : Job) (start max : ℕ) (r : Scanned) : Type 0 where
  pub solution :
      r.found ≡ true
      → (start < r.nonce)
        × (r.nonce ≤ max)
        × (is_solution j r.nonce ≡ true)
        × NoneSolves j start (r.nonce - 1)
  pub no_solution :
      r.found ≡ false
      → NoneSolves j start r.nonce × ((max ≤ r.nonce) ⊎ (j.time_left r.hashes ≡ false))

none_next :
    (j : Job) (start nonce next : ℕ)
    → next ≡ nonce + 1
    → NoneSolves j start nonce
    → is_solution j next ≡ false
    → NoneSolves j start next
none_next j start nonce next e before h n a b = elim (Bool-cases (n == next)) [
  | inl last ↦ let k : n ≡ next = ground arith in rw k h
  | inr earlier ↦ before n a (ground arith)
]

-- A round goes on from a nonce below the last one, which the addition does not wrap.
next_nonce :
    (max nonce : ℕ) (left : Bool)
    → max < 2 ^ 32
    → (ltb nonce max && left) ≡ true
    → (nonce < max) × ((nonce + 1) % 2 ^ 32 ≡ nonce + 1)
next_nonce max nonce left small on = (ground arith, ground arith)

scan_from-IsResult :
    (j : Job) (rounds start max nonce hashes : ℕ)
    → max < 2 ^ 32
    → start ≤ nonce
    → max - nonce < rounds
    → NoneSolves j start nonce
    → (r : Scanned) × (scan_from j rounds max nonce hashes ≡ some r) × IsResult j start max r
unfolding scan_from
scan_from-IsResult j zero start max nonce hashes small le enough before = elim enough [ ]
scan_from-IsResult j (suc rounds) start max nonce hashes small le enough before =
    elim (Bool-cases (ltb nonce max && j.time_left hashes)) [
      | inr over ↦ (
        record { found = false; nonce = nonce; hashes = hashes },
        rw over refl,
        record { solution = λ e. cc; no_solution = λ e. (before, ground arith) },
      )
      | inl on ↦
          let (below, next) = next_nonce max nonce (j.time_left hashes) small on in
          elim (Bool-cases (is_solution j ((nonce + 1) % 2 ^ 32))) [
            | inl good ↦ (
              record { found = true; nonce = (nonce + 1) % 2 ^ 32; hashes = hashes + 1 },
              rw (on, good) refl,
              record {
                solution = λ e. (omega arith, omega arith, good, λ n a b. before n a (omega arith));
                no_solution = λ e. cc;
              },
            )
            | inr bad ↦
                let (r, e, h) =
                  scan_from-IsResult j rounds start max ((nonce + 1) % 2 ^ 32) (hashes + 1) small
                    (omega arith) (omega arith)
                    (none_next j start nonce ((nonce + 1) % 2 ^ 32) next before bad) in
                (r, rw (on, bad) e, h)
          ]
    ]

-- The scan ends, within as many rounds as there are nonces. If it has found a solution, it is the first one after the nonce it began with, and no greater than the last nonce; if not, no nonce up to the one that it stopped at solves the block, and it stopped at the last nonce or when its time was over.
pub scanhash_sha256d-IsResult :
    (j : Job) (nonce max : ℕ)
    → max < 2 ^ 32
    → (r : Scanned) × (scanhash_sha256d j nonce max ≡ some r) × IsResult j nonce max r
unfolding scanhash_sha256d
scanhash_sha256d-IsResult j nonce max small =
    scan_from-IsResult j (max - nonce + 1) nonce max nonce 0 small (omega arith) (omega arith)
      (λ n a b. absurd (omega arith))

-- A nonce that a routine tries: its scan begins after the first nonce and ends at the greatest.
abbrev pub Tries : ℕ → ℕ → ℕ → Type 0
Tries routines id n = (first_nonce routines id < n) × (n ≤ max_nonce routines id)

range_lem :
    (share id routines : ℕ)
    → share * routines ≤ 0xffffffff
    → id < routines
    → 32 ≤ share
    → (share * id < 2 ^ 32) × (share * (id + 1) ≤ 0xffffffff) × (share * id + 32 ≤ share * (id + 1))
range_lem share id routines h l m =
    let below : share * (id + 1) ≤ share * routines = mul-le-mul_left share (omega arith) in
    let step : share * (id + 1) ≡ share * id + share = grind arith in omega arith

without_wrap :
    (share id routines n : ℕ)
    → share * routines ≤ 0xffffffff
    → id < routines
    → routines < 2 ^ 27
    → 32 ≤ share
    → share < 2 ^ 32
    → share % 2 ^ 32 * (id % 2 ^ 32) % 2 ^ 32 < n
    → n ≤ (share * (id + 1) + 2 ^ 32 - 0x20) % 2 ^ 32
    → (share * id < n) × (n + 32 ≤ share * (id + 1))
without_wrap share id routines n fits h few wide small from to =
    let (low, top, gap) = range_lem share id routines fits h wide in
    let e : share % 2 ^ 32 ≡ share = omega arith in
    let f : id % 2 ^ 32 ≡ id = omega arith in
    let from' : share * id % 2 ^ 32 < n = rw (e, f) at from in omega arith

Tries-range :
    (routines id n : ℕ)
    → 0 < routines
    → routines < 2 ^ 27
    → id < routines
    → Tries routines id n
    → (0xffffffff / routines * id < n) × (n + 32 ≤ 0xffffffff / routines * (id + 1))
unfolding first_nonce max_nonce
Tries-range routines id n pos few h (from, to) =
    without_wrap (0xffffffff / routines) id routines n (div-mul-le_self 0xffffffff routines) h few
      ((le-div_iff_mul-le pos).1 (omega arith)) (omega (arith, div-le_self 0xffffffff routines))
      from to

-- No nonce is tried by two routines, if they are at most 2 ^ 27 - 1 in number.
pub routines_share_nothing :
    (routines a b n : ℕ)
    → 0 < routines
    → routines < 2 ^ 27
    → a < routines
    → b < routines
    → Tries routines a n
    → Tries routines b n
    → a ≡ b
routines_share_nothing routines a b n pos few ha hb ta tb =
    let (from_a, to_a) = Tries-range routines a n pos few ha ta in
    let (from_b, to_b) = Tries-range routines b n pos few hb tb in
    let share : ℕ = 0xffffffff / routines in
    elim (Bool-cases (ltb a b)) [
      | inl below ↦
          let m : share * (a + 1) ≤ share * b = mul-le-mul_left share (ground arith) in
          absurd (omega arith)
      | inr not_below ↦ elim (Bool-cases (ltb b a)) [
        | inl above ↦
            let m : share * (b + 1) ≤ share * a = mul-le-mul_left share (ground arith) in
            absurd (omega arith)
        | inr not_above ↦ ground arith
      ]
    ]
