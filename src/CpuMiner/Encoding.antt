-- ===== src/CpuMiner/Encoding.antt =====
-- What the encodings of the miner say.
use drivechain_litwindow.Prelude.{
  ℕ, zero, suc, ◌+◌, ◌-◌, ◌*◌, ◌/◌, ◌^◌, ◌≤◌, ◌<◌, ◌≡◌, refl, ◌∙◌, ap, Option, none, some, [], ◌∷◌,
  Bytes, length, get_or, arith, ltb, leb, ◌==◌, if◌then◌else◌, Bool-cases, inl, inr,
}
use drivechain_litwindow.CpuMiner.{put, swap, reverse_from, reverse_bytes, low_bytes, varint_encode}

length-put : (p : Bytes) (i v : ℕ) → length (put p i v) ≡ length p
unfolding put
length-put [] i v = refl
length-put (b ∷ p) zero v = refl
length-put (b ∷ p) (suc i) v = omega (arith, length-put p i v)

get_or-put :
    (p : Bytes) (i v k : ℕ)
    → i < length p
    → get_or (put p i v) k 0 ≡ (if k == i then v else get_or p k 0)
unfolding put
get_or-put [] i v k h = absurd (omega arith)
get_or-put (b ∷ p) zero v zero h = refl
get_or-put (b ∷ p) zero v (suc k) h = ground arith
get_or-put (b ∷ p) (suc i) v zero h = ground arith
get_or-put (b ∷ p) (suc i) v (suc k) h = ground (arith, get_or-put p i v k)

get_or-swap :
    (p : Bytes) (i j k : ℕ)
    → i < length p
    → j < length p
    → get_or (swap p i j) k 0
      ≡ (if k == j then get_or p i 0 else if k == i then get_or p j 0 else get_or p k 0)
unfolding swap
get_or-swap p i j k h l =
    get_or-put (put p i (get_or p j 0)) j (get_or p i 0) k
      (omega (arith, length-put p i (get_or p j 0)))
    ∙ ground (arith, get_or-put p i (get_or p j 0) k)

-- A slice in which the bytes from i to j stand in the opposite order.
pub record IsReversed (i j : ℕ) (p q : Bytes) : Type 0 where
  pub same_length : length q ≡ length p
  pub inside : (k : ℕ) → i ≤ k → k ≤ j → get_or q k 0 ≡ get_or p (i + j - k) 0
  pub below : (k : ℕ) → k < i → get_or q k 0 ≡ get_or p k 0
  pub above : (k : ℕ) → j < k → get_or q k 0 ≡ get_or p k 0

length-swap : (p : Bytes) (i j : ℕ) → length (swap p i j) ≡ length p
unfolding swap
length-swap p i j =
    length-put (put p i (get_or p j 0)) j (get_or p i 0) ∙ length-put p i (get_or p j 0)

at_index : (p : Bytes) {a b : ℕ} → a ≡ b → get_or p a 0 ≡ get_or p b 0
at_index p e = ap (λ (x : ℕ). get_or p x 0) e

swapped-IsReversed :
    (i j : ℕ) (p q : Bytes)
    → i < j
    → j < length p
    → IsReversed (i + 1) (j - 1) (swap p i j) q
    → IsReversed i j p q
swapped-IsReversed i j p q less h r = record {
  same_length = r.same_length ∙ length-swap p i j;
  inside = λ k a b. inside k a b;
  below = λ k a. r.below k (omega arith) ∙ ground (arith, get_or-swap p i j k);
  above = λ k a. r.above k (omega arith) ∙ ground (arith, get_or-swap p i j k);
}
  where
    inside : (k : ℕ) → i ≤ k → k ≤ j → get_or q k 0 ≡ get_or p (i + j - k) 0
    inside k a b = elim (Bool-cases (k == i)) [
      | inl first ↦
          r.below k (ground arith)
          ∙ ground (arith, get_or-swap p i j k, at_index p {a = j} {b = i + j - k})
      | inr after ↦ elim (Bool-cases (k == j)) [
        | inl last ↦
            r.above k (ground arith)
            ∙ ground (arith, get_or-swap p i j k, at_index p {a = i} {b = i + j - k})
        | inr middle ↦
            r.inside k (ground arith) (ground arith)
            ∙ ground (
              arith,
              get_or-swap p i j (i + 1 + (j - 1) - k),
              at_index p {a = i + 1 + (j - 1) - k} {b = i + j - k},
            )
      ]
    ]

reverse_from-IsReversed :
    (rounds i j : ℕ) (p : Bytes)
    → i ≤ j + 1
    → j + 2 ≤ rounds + i
    → j < length p
    → (q : Bytes) × (reverse_from rounds i j p ≡ some q) × IsReversed i j p q
unfolding reverse_from
reverse_from-IsReversed zero i j p a b h = absurd (omega arith)
reverse_from-IsReversed (suc rounds) i j p a b h = elim (Bool-cases (ltb i j)) [
  | inr done ↦ (
    p,
    rw done refl,
    record {
      same_length = refl;
      inside = λ k l m. at_index p (ground arith);
      below = λ k l. refl;
      above = λ k l. refl;
    },
  )
  | inl more ↦
      let (q, e, r) =
        reverse_from-IsReversed rounds (i + 1) (j - 1) (swap p i j) (ground arith) (ground arith)
          (ground (arith, length-swap p i j)) in
      (q, rw more e, swapped-IsReversed i j p q (ground arith) h r)
]

-- The loop of `reverseBytes` ends, and in its result every byte stands at the opposite place: the length stays, and the byte at any index is the one that was as far from the end.
pub reverse_bytes-opposite :
    (p : Bytes)
    → (q : Bytes) × (reverse_bytes p ≡ some q)
      × (length q ≡ length p)
      × ((k : ℕ) → k < length p → get_or q k 0 ≡ get_or p (length p - 1 - k) 0)
unfolding reverse_bytes reverse_from
reverse_bytes-opposite [] = ([], refl, refl, λ k h. elim h [ ])
reverse_bytes-opposite (b ∷ p) =
    let (q, e, r) =
      reverse_from-IsReversed (length p + 2) 0 (length p) (b ∷ p) (omega arith) (omega arith)
        (omega arith) in
    let rounds : suc (length p) + 1 ≡ length p + 2 = omega arith in
    let last : suc (length p) - 1 ≡ length p = omega arith in
    (
      q,
      rw (rounds, last) e,
      r.same_length,
      λ k h. r.inside k (omega arith) (omega arith) ∙ at_index (b ∷ p) (omega arith),
    )

-- A number below 2 ^ 64 is read back from its varint: one byte, or a byte that says how many follow.
unfoldable pub from_low_bytes : Bytes → ℕ
from_low_bytes [] = 0
from_low_bytes (b ∷ bs) = b + 256 * from_low_bytes bs

from_low_bytes-low_bytes : (k n : ℕ) → n < 256 ^ k → from_low_bytes (low_bytes k n) ≡ n
unfolding from_low_bytes low_bytes
from_low_bytes-low_bytes zero n h = omega arith
from_low_bytes-low_bytes (suc k) n h = omega (arith, from_low_bytes-low_bytes k (n / 256))

-- the number that a varint says, by its first byte
unfoldable pub varint_decode : Bytes → Option ℕ
unfolding from_low_bytes
varint_decode [] = none
varint_decode (b ∷ rest) =
    if ltb b 0xfd
    then some b
    else if length rest == (if b == 0xfd then 2 else if b == 0xfe then 4 else 8)
    then some (from_low_bytes rest)
    else none

-- A uint64 is read back from its varint, which is a number below 253 or a byte that says how many bytes follow.
pub varint_decode-varint_encode : (n : ℕ) → n < 2 ^ 64 → varint_decode (varint_encode n) ≡ some n
unfolding varint_decode varint_encode low_bytes from_low_bytes
varint_decode-varint_encode n h = elim (Bool-cases (ltb n 0xfd)) [
  | inl one ↦ rw one (ground arith)
  | inr more ↦ elim (Bool-cases (leb n 0xffff)) [
    | inl two ↦ rw (more, two) (ap some (from_low_bytes-low_bytes 2 n (ground arith)))
    | inr more' ↦ elim (Bool-cases (leb n 0xffffffff)) [
      | inl four ↦ rw (more, more', four) (ap some (from_low_bytes-low_bytes 4 n (ground arith)))
      | inr eight ↦ rw (more, more', eight) (ap some (from_low_bytes-low_bytes 8 n (omega arith)))
    ]
  ]
]
