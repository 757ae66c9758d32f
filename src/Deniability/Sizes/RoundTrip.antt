-- ===== src/Deniability/Sizes/RoundTrip.antt =====
-- What is encoded as a column of target sizes is parsed back.
use drivechain_litwindow.Prelude.{
  ℕ, zero, suc, ◌+◌, ◌-◌, ◌*◌, ◌/◌, ◌^◌, ◌≤◌, ◌<◌, ◌≡◌, ◌≢◌, refl, sym, ap, ◌∙◌, inl, inr, ◌⊎◌,
  false, ◌&&◌, none, some, List, [], ◌∷◌, ◌++◌, reverse, map, Bytes, ltb, leb, arith, All,
  All-reverse, All_mono, Bool-cases, Result, ok,
}
use mathlib.Core.List.{reverse-append, reverse-reverse}
use drivechain_litwindow.Prelude.Int.{ℤ, pos, negsuc}
use drivechain_litwindow.Deniability.Sizes.Parts.{HasNoComma, split_comma-join_comma}
use drivechain_litwindow.Deniability.Sizes.{
  digits_rev, format_int, join_comma, encode_target_sizes, split_comma, trim_left, trim_space,
  parse_digits, parse_uint, signed, parse_int, SizeError, add_size, parse_part, parse_parts,
  parse_text, parse_target_utxo_sizes,
}

-- An int64
abbrev pub IsInt64 : ℤ → Type 0
IsInt64 (pos n) = n < 2 ^ 63
IsInt64 (negsuc n) = n < 2 ^ 63

abbrev pub IsDigit : ℕ → Type 0
IsDigit c = (48 ≤ c) × (c ≤ 57)

-- The number of digits whose last one stands first.
abbrev value_rev : Bytes → ℕ
value_rev [] = 0
value_rev (c ∷ cs) = 10 * value_rev cs + (c - 48)

digits_rev-IsDigit : (fuel n : ℕ) → All IsDigit (digits_rev fuel n)
unfolding digits_rev
digits_rev-IsDigit zero n = tt
digits_rev-IsDigit (suc fuel) n = elim (Bool-cases (ltb n 10)) [
  | inl last ↦ rw last (ground arith)
  | inr more ↦ rw more (omega arith, digits_rev-IsDigit fuel (n / 10))
]

-- Enough rounds give all digits.
value_rev-digits_rev : (fuel n : ℕ) → n < 10 ^ fuel → value_rev (digits_rev fuel n) ≡ n
unfolding digits_rev
value_rev-digits_rev zero n h = omega arith
value_rev-digits_rev (suc fuel) n h = elim (Bool-cases (ltb n 10)) [
  | inl last ↦ rw last (ground arith)
  | inr more ↦ rw more (omega (arith, value_rev-digits_rev fuel (n / 10) (omega arith)))
]

parse_digits-append :
    (acc : ℕ) (xs : Bytes) (c : ℕ) {n : ℕ}
    → parse_digits acc xs ≡ some n
    → IsDigit c
    → parse_digits acc (xs ++ c ∷ []) ≡ some (10 * n + (c - 48))
unfolding parse_digits
parse_digits-append acc [] c h k = ground arith
parse_digits-append acc (x ∷ xs) c h k = elim (Bool-cases (leb 48 x && leb x 57)) [
  | inl digit ↦ rw digit (parse_digits-append (10 * acc + (x - 48)) xs c (rw digit at h) k)
  | inr not_digit ↦ absurd (cc (h, not_digit))
]

parse_digits-reverse :
    (ds : Bytes) → All IsDigit ds → parse_digits 0 (reverse ds) ≡ some (value_rev ds)
unfolding parse_digits
parse_digits-reverse [] h = refl
parse_digits-reverse (d ∷ ds) (p, h) =
    rw (reverse-append (d ∷ []) ds)
      (parse_digits-append 0 (reverse ds) d (parse_digits-reverse ds h) p)

-- A digit or a minus: neither a comma nor a space.
abbrev IsPlain : ℕ → Type 0
IsPlain c = (c ≡ 45) ⊎ IsDigit c

trim_left-plain : (s : Bytes) → All IsPlain s → trim_left s ≡ s
unfolding trim_left
trim_left-plain [] h = refl
trim_left-plain (c ∷ cs) (p, h) = ground arith

trim_space-plain : (s : Bytes) → All IsPlain s → trim_space s ≡ s
unfolding trim_space
trim_space-plain s h =
    rw (trim_left-plain s h, trim_left-plain (reverse s) (All-reverse IsPlain s h))
      (reverse-reverse s)

parse_int-digits :
    (s : Bytes) → All IsDigit s → s ≢ [] → parse_int s ≡ signed false (parse_digits 0 s)
unfolding parse_int parse_uint
parse_int-digits [] h k = absurd (k refl)
parse_int-digits (c ∷ cs) (p, h) k = ground arith

parse_uint-digits : (s : Bytes) → s ≢ [] → parse_uint s ≡ parse_digits 0 s
unfolding parse_uint
parse_uint-digits [] k = absurd (k refl)
parse_uint-digits (c ∷ cs) k = refl

-- The digits of a number below 2 ^ 63 + 1, in the order of the text.
abbrev pub digits : ℕ → Bytes
digits n = reverse (digits_rev 20 n)

pub digits-IsDigit : (n : ℕ) → All IsDigit (digits n)
digits-IsDigit n = All-reverse IsDigit (digits_rev 20 n) (digits_rev-IsDigit 20 n)

digits_rev-some : (fuel n : ℕ) → digits_rev (suc fuel) n ≢ []
unfolding digits_rev
digits_rev-some fuel n = elim (Bool-cases (ltb n 10)) [
  | inl last ↦ rw last (λ e. cc)
  | inr more ↦ rw more (λ e. cc)
]

pub digits-some : (n : ℕ) → digits n ≢ []
digits-some n e = digits_rev-some 19 n (sym (reverse-reverse (digits_rev 20 n)) ∙ ap reverse e)

parse_digits-digits : (n : ℕ) → n ≤ 2 ^ 63 → parse_digits 0 (digits n) ≡ some n
parse_digits-digits n h =
    parse_digits-reverse (digits_rev 20 n) (digits_rev-IsDigit 20 n)
    ∙ ap some (value_rev-digits_rev 20 n (omega (arith, h)))

pub parse_int-format_int : (s : ℤ) → IsInt64 s → parse_int (format_int s) ≡ some s
unfolding format_int parse_int
parse_int-format_int (pos n) h =
    parse_int-digits (digits n) (digits-IsDigit n) (digits-some n)
    ∙ rw (parse_digits-digits n (omega (arith, h))) (ground (arith, h))
parse_int-format_int (negsuc n) h =
    rw
      (
        parse_uint-digits (digits (suc n)) (digits-some (suc n)),
        parse_digits-digits (suc n) (omega (arith, h)),
      )
      (ground (arith, h))

format_int-IsPlain : (s : ℤ) → All IsPlain (format_int s)
unfolding format_int
format_int-IsPlain (pos n) = All_mono IsDigit IsPlain (λ c p. inr p) (digits n) (digits-IsDigit n)
format_int-IsPlain (negsuc n) =
    (inl refl, All_mono IsDigit IsPlain (λ c p. inr p) (digits (suc n)) (digits-IsDigit (suc n)))

format_int-some : (s : ℤ) → format_int s ≢ []
unfolding format_int
format_int-some (pos n) = digits-some n
format_int-some (negsuc n) = λ e. cc

parse_part-some :
    (s : Bytes) (rest : Result SizeError (List ℤ))
    → s ≢ []
    → parse_part s rest ≡ add_size s (parse_int s) rest
unfolding parse_part
parse_part-some [] rest h = absurd (h refl)
parse_part-some (c ∷ cs) rest h = refl

parse_parts-format_int : (ss : List ℤ) → All IsInt64 ss → parse_parts (map format_int ss) ≡ ok ss
unfolding parse_parts
parse_parts-format_int [] h = refl
parse_parts-format_int (s ∷ ss) (p, h) =
    ap (λ (x : Bytes). parse_part x (parse_parts (map format_int ss)))
      (trim_space-plain (format_int s) (format_int-IsPlain s))
    ∙ parse_part-some (format_int s) (parse_parts (map format_int ss)) (format_int-some s)
    ∙ rw (parse_int-format_int s p, parse_parts-format_int ss h) refl

join_comma-some : (p : Bytes) (ps : List Bytes) → p ≢ [] → join_comma (p ∷ ps) ≢ []
unfolding join_comma
join_comma-some [] ps h = absurd (h refl)
join_comma-some (c ∷ cs) [] h = h
join_comma-some (c ∷ cs) (q ∷ ps) h = λ e. cc

parse_text-some :
    (s : Bytes) → s ≢ [] → parse_text s ≡ parse_parts ((split_comma s).0 ∷ (split_comma s).1)
unfolding parse_text
parse_text-some [] h = absurd (h refl)
parse_text-some (c ∷ cs) h = refl

no_commas : (ss : List ℤ) → All HasNoComma (map format_int ss)
no_commas [] = tt
no_commas (s ∷ ss) = (
  All_mono IsPlain (λ (c : ℕ). c ≢ 44) (λ c p. plain_lem c p) (format_int s) (format_int-IsPlain s),
  no_commas ss,
)
  where
    plain_lem : (c : ℕ) → IsPlain c → c ≢ 44
    plain_lem c (inl e) = λ f. absurd (omega (arith, e, f))
    plain_lem c (inr d) = λ f. absurd (omega (arith, d, f))

parsed_back :
    (ss : List ℤ) → All IsInt64 ss → parse_target_utxo_sizes (encode_target_sizes ss) ≡ ok ss
unfolding parse_target_utxo_sizes encode_target_sizes
parsed_back [] h = refl
parsed_back (s ∷ ss) h =
    let text = join_comma (map format_int (s ∷ ss)) in
    parse_text-some text (join_comma-some (format_int s) (map format_int ss) (format_int-some s))
    ∙ ap (λ (x : Bytes × List Bytes). parse_parts (x.0 ∷ x.1))
        (split_comma-join_comma (format_int s) (map format_int ss) (no_commas (s ∷ ss)))
    ∙ parse_parts-format_int (s ∷ ss) h

stored_null : (ss : List ℤ) → encode_target_sizes ss ≡ none → ss ≡ []
unfolding encode_target_sizes
stored_null [] h = refl
stored_null (s ∷ ss) h = cc

-- The target sizes that are stored are read back as they were, if they are int64 numbers; no sizes, and nothing else, are stored as NULL.
pub parse-encode_target_sizes :
    (ss : List ℤ)
    → All IsInt64 ss
    → (parse_target_utxo_sizes (encode_target_sizes ss) ≡ ok ss)
      × (encode_target_sizes ss ≡ none → ss ≡ [])
      × (ss ≡ [] → encode_target_sizes ss ≡ none)
unfolding encode_target_sizes
parse-encode_target_sizes ss h = (parsed_back ss h, stored_null ss, λ e. rw e refl)
