-- ===== src/Deniability/Sizes/Parts.antt =====
-- Parts that are joined with commas and split again.
use drivechain_litwindow.Prelude.{ℕ, ◌≡◌, ◌≢◌, refl, ◌∙◌, List, [], ◌∷◌, ◌++◌, Bytes, arith, All}
use drivechain_litwindow.Deniability.Sizes.{join_comma, split_comma}

abbrev pub HasNoComma : Bytes → Type 0
HasNoComma s = All (λ (c : ℕ). c ≢ 44) s

split_comma-part : (s : Bytes) → HasNoComma s → split_comma s ≡ (s, [])
unfolding split_comma
split_comma-part [] h = refl
split_comma-part (c ∷ cs) (p, h) = rw (split_comma-part cs h) (ground (arith, p))

split_comma-parts :
    (s rest : Bytes)
    → HasNoComma s
    → split_comma (s ++ b',' ∷ rest) ≡ (s, (split_comma rest).0 ∷ (split_comma rest).1)
unfolding split_comma
split_comma-parts [] rest h = refl
split_comma-parts (c ∷ cs) rest (p, h) = rw (split_comma-parts cs rest h) (ground (arith, p))

pub split_comma-join_comma :
    (t : Bytes) (ts : List Bytes)
    → All HasNoComma (t ∷ ts)
    → split_comma (join_comma (t ∷ ts)) ≡ (t, ts)
unfolding join_comma
split_comma-join_comma t [] (p, h) = split_comma-part t p
split_comma-join_comma t (u ∷ ts) (p, h) =
    split_comma-parts t (join_comma (u ∷ ts)) p ∙ rw (split_comma-join_comma u ts h) refl
