-- ===== src/M4/Generate/Positions.antt =====
-- For which sidechain the engine's own parser reads a vote of the generated bytes.
use drivechain_litwindow.Prelude.{
  ℕ, zero, suc, ◌+◌, ◌/◌, ◌%◌, ◌≡◌, refl, ap, ◌∙◌, true, some, List, [], ◌∷◌, map, Bytes, length,
  get_elem?, if◌then◌else◌, ok, arith, Bool-cases, inl, inr, is_ok,
}
use drivechain_litwindow.M4.Message.{M4Message, M4Vote, VotePreference}
use drivechain_litwindow.M4.Parser.{
  parse_m4_bytes, parse_version02, version02_from, vote_of_word, uint16_le,
}
use drivechain_litwindow.M4.Parser.Votes.{word_of}
use drivechain_litwindow.M4.Parser.Ballot.{commitment}
use drivechain_litwindow.M4.Scdb.{Bundle}
use drivechain_litwindow.M4.Generate.{bundles_of, is_empty, word_for, slot_bytes, m4_body}

-- The sidechains that have a pending bundle, of `rounds` from `slot` on.
abbrev pub voting_slots : List Bundle → ℕ → ℕ → List ℕ
voting_slots bs zero slot = []
voting_slots bs (suc rounds) slot =
    let later = voting_slots bs rounds (slot + 1) in
    if is_empty (bundles_of slot bs) then later else slot ∷ later

abbrev pub bytes_of_words : List ℕ → Bytes
bytes_of_words [] = []
bytes_of_words (w ∷ ws) = (w % 256) ∷ (w / 256) ∷ bytes_of_words ws

module _ (prefs : List VotePreference) (bs : List Bundle) where
  slot_bytes-words :
      (rounds slot : ℕ)
      → slot_bytes prefs bs rounds slot
        ≡ bytes_of_words (map (word_for prefs bs) (voting_slots bs rounds slot))
  unfolding slot_bytes
  slot_bytes-words zero slot = refl
  slot_bytes-words (suc rounds) slot = elim (Bool-cases (is_empty (bundles_of slot bs))) [
    | inl skip ↦ rw skip (slot_bytes-words rounds (slot + 1))
    | inr vote ↦ rw vote (
        ap (λ (r : Bytes). (word_for prefs bs slot % 256) ∷ (word_for prefs bs slot / 256) ∷ r)
          (slot_bytes-words rounds (slot + 1)))
  ]

even_words : (ws : List ℕ) → length (bytes_of_words ws) % 2 ≡ 0
even_words [] = refl
even_words (w ∷ ws) = omega (arith, even_words ws)

read_words :
    (ws : List ℕ) (i k : ℕ) {w : ℕ}
    → get_elem? ws k ≡ some w
    → get_elem? (version02_from i (bytes_of_words ws)) k ≡ some (vote_of_word (i + (k + k)) w)
unfolding version02_from
read_words [] i k h = cc
read_words (x ∷ ws) i zero {w} h =
    let e : uint16_le (x % 256) (x / 256) ≡ w = omega (arith, (let f : x ≡ w = cc in f)) in
    rw e (ap (λ (j : ℕ). some (vote_of_word j w)) (omega arith))
read_words (x ∷ ws) i (suc k) {w} h =
    read_words ws (i + 2) k h ∙ ap (λ (j : ℕ). some (vote_of_word j w)) (omega arith)

map_at :
    (f : ℕ → ℕ) (xs : List ℕ) (k : ℕ) {x : ℕ}
    → get_elem? xs k ≡ some x
    → get_elem? (map f xs) k ≡ some (f x)
map_at f [] k h = cc
map_at f (y ∷ xs) zero h = ground arith
map_at f (y ∷ xs) (suc k) h = map_at f xs k h

vote_of_word-reads :
    (k w : ℕ)
    → ((vote_of_word (0 + (k + k)) w).sidechain_slot ≡ k % 256)
      × (word_of 0xFFFF 0xFFFE (vote_of_word (0 + (k + k)) w) ≡ w)
unfolding vote_of_word
vote_of_word-reads k w = ground arith

parsed_votes :
    (ws : List ℕ) {m : M4Message}
    → parse_m4_bytes (commitment (0x02 ∷ bytes_of_words ws)) ≡ ok m
    → m.votes ≡ version02_from 0 (bytes_of_words ws)
unfolding parse_m4_bytes parse_version02
parsed_votes ws h = ground (arith, even_words ws)

even_ok : (b : Bytes) → length b % 2 ≡ 0 → is_ok (parse_m4_bytes (commitment (0x02 ∷ b))) ≡ true
unfolding parse_m4_bytes parse_version02
even_ok b even = ground arith

-- The parser accepts the generated bytes, whatever the preferences and the bundles.
pub generated_ok :
    (prefs : List VotePreference) (bs : List Bundle)
    → is_ok (parse_m4_bytes (commitment (m4_body prefs bs))) ≡ true
unfolding m4_body
generated_ok prefs bs =
    rw (slot_bytes-words prefs bs 256 0)
      (even_ok _ (even_words (map (word_for prefs bs) (voting_slots bs 256 0))))

-- Read back by the parser, the word generated for the `k`-th sidechain that has a pending bundle is the vote at position `k`, with the same word, but for sidechain `k` modulo 256: for another sidechain than the one it was generated for, if some sidechain below has no pending bundle.
pub generated_positions :
    (prefs : List VotePreference) (bs : List Bundle) (k : ℕ) {slot : ℕ} {m : M4Message}
    → parse_m4_bytes (commitment (m4_body prefs bs)) ≡ ok m
    → get_elem? (voting_slots bs 256 0) k ≡ some slot
    → (v : M4Vote) × (get_elem? m.votes k ≡ some v)
      × (v.sidechain_slot ≡ k % 256)
      × (word_of 0xFFFF 0xFFFE v ≡ word_for prefs bs slot)
unfolding m4_body
generated_positions prefs bs k {slot} {m} parsed h =
    let ws = map (word_for prefs bs) (voting_slots bs 256 0) in
    let body = parsed_votes ws (rw (slot_bytes-words prefs bs 256 0) at parsed) in
    let w = word_for prefs bs slot in
    (
      vote_of_word (0 + (k + k)) w,
      rw body (read_words ws 0 k (map_at (word_for prefs bs) (voting_slots bs 256 0) k h)),
      (vote_of_word-reads k w).0,
      (vote_of_word-reads k w).1,
    )
