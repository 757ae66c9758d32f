-- ===== src/CpuMiner/Merkle.antt =====
-- The Merkle tree of `gbtWorkDecode` in litwindow/server/cpuminer/miner.go, which is hashed in place,
-- and the tree by levels that it stands for. A slice of hashes is a function of the index; the
-- slices have a place for every index that is used (`width-le-size`).
use drivechain_litwindow.Prelude.{
  ℕ, zero, suc, ◌+◌, ◌-◌, ◌*◌, ◌/◌, ◌%◌, ◌≤◌, ◌<◌, ◌≡◌, refl, ap, ◌∙◌, true, Option, none, some,
  List, [], ◌∷◌, ◌++◌, Bytes, arith, ltb, ◌==◌, if◌then◌else◌, Bool-cases, inl, inr,
}

abbrev pub Tree : Type 0
Tree = ℕ → Bytes

unfoldable pub write : Tree → ℕ → Bytes → Tree
write tree i h j = if j == i then h else tree j

-- if n%2 != 0 { copy(merkleTree[n], merkleTree[n-1]) }
unfoldable pub pad : ℕ → Tree → Tree
unfolding write
pad n tree = if n % 2 == 0 then tree else write tree n (tree (n - 1))

module _ (hash : Bytes → Bytes) where
  -- the inner loop: rounds from an index on
  unfoldable pub hash_pairs : ℕ → ℕ → Tree → Tree
  unfolding write
  hash_pairs zero i tree = tree
  hash_pairs (suc rounds) i tree =
      hash_pairs rounds (i + 1) (write tree i (hash (tree (2 * i) ++ tree (2 * i + 1))))

  -- n after the round, from n before it
  abbrev pub half : ℕ → ℕ
  half n = (n + n % 2) / 2

  unfoldable pub merkle_round : ℕ → Tree → Tree
  unfolding pad hash_pairs
  merkle_round n tree = hash_pairs (half n) 0 (pad n tree)

  -- the outer loop, with rounds
  unfoldable pub merkle_loop : ℕ → ℕ → Tree → Option Tree
  unfolding merkle_round
  merkle_loop zero n tree = none
  merkle_loop (suc rounds) n tree =
      let more = merkle_loop rounds (half n) (merkle_round n tree) in
      if ltb 1 n then more else some tree

  -- the specification: the hashes of the pairs of a level, an odd last one paired with itself
  unfoldable pub next_level : List Bytes → List Bytes
  next_level [] = []
  next_level (a ∷ []) = hash (a ++ a) ∷ []
  next_level (a ∷ b ∷ rest) = hash (a ++ b) ∷ next_level rest

  -- the one hash of the last level
  pub data MerkleRoot : List Bytes → Bytes → Type 0 where
    single : (h : Bytes) → MerkleRoot (h ∷ []) h
    level :
        {a b root : Bytes} {rest : List Bytes}
        → MerkleRoot (next_level (a ∷ b ∷ rest)) root
        → MerkleRoot (a ∷ b ∷ rest) root

-- the first hashes of a tree
abbrev pub first : ℕ → Tree → List Bytes
first zero tree = []
first (suc n) tree = tree 0 ∷ first n (λ i. tree (suc i))

first-ext : (n : ℕ) (s t : Tree) → ((i : ℕ) → i < n → s i ≡ t i) → first n s ≡ first n t
first-ext zero s t h = refl
first-ext (suc n) s t h = cc (
  h 0 (omega arith),
  first-ext n (λ i. s (suc i)) (λ i. t (suc i)) (λ i lt. h (suc i) (omega arith)),
)

module _ (hash : Bytes → Bytes) where
  -- Nothing that is read later has been written: the pair of an index stands at twice the index.
  hash_pairs-lem :
      (rounds i : ℕ) (tree : Tree) (j : ℕ)
      → hash_pairs hash rounds i tree j ≡ (
          if ltb j i
          then tree j
          else if ltb j (i + rounds)
          then hash (tree (2 * j) ++ tree (2 * j + 1))
          else tree j)
  unfolding hash_pairs write
  hash_pairs-lem zero i tree j = ground arith
  hash_pairs-lem (suc rounds) i tree j =
      hash_pairs-lem rounds (i + 1) (write tree i (hash (tree (2 * i) ++ tree (2 * i + 1)))) j
      ∙ elim (Bool-cases (j == i)) [
        | inl here ↦
            ground (arith, ap (λ (k : ℕ). hash (tree (2 * k) ++ tree (2 * k + 1))) {x = j} {y = i})
        | inr away ↦ ground arith
      ]

  merkle_round-lem :
      (n : ℕ) (tree : Tree)
      → first (half hash n) (merkle_round hash n tree)
        ≡ first (half hash n) (λ j. hash (pad n tree (2 * j) ++ pad n tree (2 * j + 1)))
  unfolding merkle_round
  merkle_round-lem n tree =
      first-ext (half hash n) _ _
        (λ j lt. hash_pairs-lem (half hash n) 0 (pad n tree) j ∙ ground arith)

  pad-lt : (n : ℕ) (tree : Tree) (i : ℕ) → i < n → pad n tree i ≡ tree i
  unfolding pad write
  pad-lt n tree i h = ground arith

  pad-shift :
      (n : ℕ) (tree : Tree) (i j : ℕ)
      → j ≡ i + 2
      → pad (suc (suc n)) tree j ≡ pad n (λ k. tree (suc (suc k))) i
  unfolding pad write
  pad-shift zero tree i j h = ground (arith, ap tree {x = j} {y = suc (suc i)})
  pad-shift (suc n) tree i j h = ground (
    arith,
    ap tree {x = j} {y = suc (suc i)},
    ap tree {x = suc (suc (suc n)) - 1} {y = suc (suc (suc n - 1))},
  )

  -- The first hashes of the pairs are the next level.
  first-next_level :
      (n : ℕ) (tree : Tree)
      → first (half hash n) (λ j. hash (pad n tree (2 * j) ++ pad n tree (2 * j + 1)))
        ≡ next_level hash (first n tree)
  unfolding next_level
  first-next_level zero tree = refl
  first-next_level (suc zero) tree = unfold pad write in refl
  first-next_level (suc (suc n)) tree =
      let m : half hash (suc (suc n)) ≡ suc (half hash n) = omega arith in
      let tail : first (half hash n) (λ j.
        hash (pad (suc (suc n)) tree (2 * suc j) ++ pad (suc (suc n)) tree (2 * suc j + 1)))
          ≡ next_level hash (first n (λ i. tree (suc (suc i)))) =
        first-ext (half hash n) _ _ (λ j lt. cc (
          pad-shift n tree (2 * j) (2 * suc j) (omega arith),
          pad-shift n tree (2 * j + 1) (2 * suc j + 1) (omega arith),
        ))
        ∙ first-next_level n (λ i. tree (suc (suc i))) in
      let head : pad (suc (suc n)) tree (2 * 0) ≡ tree 0 =
        pad-lt (suc (suc n)) tree 0 (omega arith) in
      let next : pad (suc (suc n)) tree (2 * 0 + 1) ≡ tree 1 =
        pad-lt (suc (suc n)) tree 1 (omega arith) in
      rw m (cc (tail, head, next))

  round_is_next_level :
      (n : ℕ) (tree : Tree)
      → first (half hash n) (merkle_round hash n tree) ≡ next_level hash (first n tree)
  round_is_next_level n tree = merkle_round-lem n tree ∙ first-next_level n tree

  -- The loop over the Merkle tree ends for any number of hashes but none, and leaves the Merkle root of the hashes at index 0, as the tree by levels defines it: each level pairs the hashes of the one below, an odd last one with itself, down to one hash.
  pub merkle_loop-MerkleRoot :
      (rounds n : ℕ) (tree : Tree)
      → n < rounds
      → 0 < n
      → (t : Tree) × (merkle_loop hash rounds n tree ≡ some t)
        × MerkleRoot hash (first n tree) (t 0)
  unfolding merkle_loop
  merkle_loop-MerkleRoot zero n tree h k = absurd (omega arith)
  merkle_loop-MerkleRoot (suc rounds) zero tree h k = absurd (omega arith)
  merkle_loop-MerkleRoot (suc rounds) (suc zero) tree h k = (tree, refl, single (tree 0))
  merkle_loop-MerkleRoot (suc rounds) (suc (suc n)) tree h k =
      let (t, e, r) =
        merkle_loop-MerkleRoot rounds (half hash (suc (suc n)))
          (merkle_round hash (suc (suc n)) tree) (omega arith) (omega arith) in
      let more : ltb 1 (suc (suc n)) ≡ true = ground arith in
      (t, rw more e, level (rw (round_is_next_level (suc (suc n)) tree) at r))

-- make([][]byte, ((1 + txCount + 1) &^ 1))
unfoldable pub tree_size : ℕ → ℕ
tree_size tx_count = (1 + tx_count + 1) / 2 * 2

-- Every index that a round uses is below the size of the slice, in the first round and in all later ones.
width-le-size : (tx_count n : ℕ) → n ≤ 1 + tx_count → n + n % 2 ≤ tree_size tx_count
unfolding tree_size
width-le-size tx_count n h = omega arith
