-- ===== src/M4/Parser/Votes.antt =====
-- The votes of an M4 message: where they stand, and that nothing of the vector is lost.
use drivechain_litwindow.Prelude.{
  ℕ, zero, suc, ◌+◌, ◌/◌, ◌%◌, ◌<◌, ◌≡◌, refl, ap, sym, ◌∙◌, some, none, Bytes, List, [], ◌∷◌, map,
  length, get_elem?, get_or, arith, ok, All,
}
use drivechain_litwindow.M4.Message.{M4Vote, abstain, alarm, upvote, other}
use drivechain_litwindow.M4.Parser.{
  parse_version01, parse_version02, version01_from, version02_from, vote_of_byte, vote_of_word,
  uint16_le,
}

abbrev pub IsByte : ℕ → Type 0
IsByte b = b < 256

-- The word that a vote stands for, `a` for abstain and `b` for alarm.
abbrev pub word_of : ℕ → ℕ → M4Vote → ℕ
word_of a b v = elim v.vote_type [
  | abstain ↦ a
  | alarm ↦ b
  | upvote ↦ elim v.bundle_index [ some i ↦ i | none ↦ 0 ]
  | other t ↦ 0
]

abbrev pub byte_of_vote : M4Vote → ℕ
byte_of_vote v = word_of 0xFF 0xFE v

word_of_byte : (slot b : ℕ) → byte_of_vote (vote_of_byte slot b) ≡ b
unfolding vote_of_byte
word_of_byte slot b = ground arith

version01-bytes :
    (vector : Bytes) (slot : ℕ) → map byte_of_vote (version01_from slot vector) ≡ vector
unfolding version01_from
version01-bytes [] slot = refl
version01-bytes (b ∷ vector) slot = cc (word_of_byte slot b, version01-bytes vector (slot + 1))

-- From the votes of version 1 the vector is read back, whatever it is: no vote is lost, and no two vectors have the same votes.
pub version01-lossless : (vector : Bytes) → map byte_of_vote (parse_version01 vector) ≡ vector
unfolding parse_version01
version01-lossless vector = version01-bytes vector 0

version01_at :
    (vector : Bytes) (slot i : ℕ) {b : ℕ}
    → get_elem? vector i ≡ some b
    → get_elem? (version01_from slot vector) i ≡ some (vote_of_byte (slot + i) b)
unfolding version01_from
version01_at [] slot i h = cc
version01_at (c ∷ vector) slot zero h = ground arith
version01_at (c ∷ vector) slot (suc i) {b} h =
    let e : slot + suc i ≡ slot + 1 + i = omega arith in
    version01_at vector (slot + 1) i h ∙ ap (λ (k : ℕ). some (vote_of_byte k b)) (sym e)

-- The vote at position `i` of version 1 is for sidechain `i` modulo 256, and says what the byte there says.
pub version01-positions :
    (vector : Bytes) (i : ℕ) {b : ℕ}
    → get_elem? vector i ≡ some b
    → get_elem? (parse_version01 vector) i ≡ some (vote_of_byte i b)
unfolding parse_version01
version01-positions vector i {b} h =
    let e : 0 + i ≡ i = omega arith in
    version01_at vector 0 i h ∙ ap (λ (k : ℕ). some (vote_of_byte k b)) e

-- The bytes of the words of a list of votes, low byte first.
abbrev pub bytes_of_votes : List M4Vote → Bytes
bytes_of_votes [] = []
bytes_of_votes (v ∷ vs) =
    let w = word_of 0xFFFF 0xFFFE v in (w % 256) ∷ (w / 256) ∷ bytes_of_votes vs

word_of_word : (i w : ℕ) → word_of 0xFFFF 0xFFFE (vote_of_word i w) ≡ w
unfolding vote_of_word
word_of_word i w = ground arith

version02-bytes :
    (vector : Bytes) (i : ℕ)
    → All IsByte vector
    → length vector % 2 ≡ 0
    → bytes_of_votes (version02_from i vector) ≡ vector
unfolding version02_from
version02-bytes [] i h e = refl
version02-bytes (lo ∷ []) i h e = absurd (omega arith)
version02-bytes (lo ∷ hi ∷ vector) i (l, (h, hs)) e =
    ground
      (arith, word_of_word i (uint16_le lo hi), version02-bytes vector (i + 2) hs (omega arith))

-- From the votes of version 2 the vector is read back, if its items are bytes.
pub version02-lossless :
    (vector : Bytes) {vs : List M4Vote}
    → All IsByte vector
    → parse_version02 vector ≡ ok vs
    → bytes_of_votes vs ≡ vector
unfolding parse_version02
version02-lossless vector h e = ground (arith, version02-bytes vector 0 h)

version02_at :
    (vector : Bytes) (i k : ℕ)
    → suc (k + k) < length vector
    → get_elem? (version02_from i vector) k
      ≡ some (
          vote_of_word
            (i + (k + k))
            (uint16_le (get_or vector (k + k) 0) (get_or vector (suc (k + k)) 0)))
unfolding version02_from
version02_at [] i k h = absurd (omega arith)
version02_at (lo ∷ []) i k h = absurd (omega arith)
version02_at (lo ∷ hi ∷ vector) i zero h = ground arith
version02_at (lo ∷ hi ∷ vector) i (suc k) h =
    let e : suc k + suc k ≡ suc (suc (k + k)) = omega arith in
    let f : i + suc (suc (k + k)) ≡ i + 2 + (k + k) = omega arith in
    rw e (rw f (version02_at vector (i + 2) k (omega arith)))

-- Vote `k` of version 2 is for sidechain `k` modulo 256, and says what the little-endian word at bytes `2 k` and `2 k + 1` says.
pub version02-positions :
    (vector : Bytes) (k : ℕ) {vs : List M4Vote} {v : M4Vote}
    → parse_version02 vector ≡ ok vs
    → suc (k + k) < length vector
    → get_elem? vs k ≡ some v
    → (v.sidechain_slot ≡ k % 256)
      × (word_of 0xFFFF 0xFFFE v
          ≡ uint16_le (get_or vector (k + k) 0) (get_or vector (suc (k + k)) 0))
unfolding parse_version02 vote_of_word
version02-positions vector k p h e = ground (arith, version02_at vector 0 k h)
