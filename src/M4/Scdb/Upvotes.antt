-- ===== src/M4/Scdb/Upvotes.antt =====
-- What the votes do to the scores.
use mathlib.Core.List.{Memᴰ}
use mathlib.Core.Path.{subst}
use drivechain_litwindow.Prelude.{
  ℕ, suc, ◌+◌, ◌≤◌, ◌<◌, ◌≡◌, refl, ap, inl, inr, true, none, some, List, [], ◌∷◌, map, length,
  arith, if◌then◌else◌, keep, mem-sort_by, mem-keep, mem-get_elem?, length-sort_by, get_elem?_cases,
  ltb,
}
use drivechain_litwindow.M4.Scdb.{Bundle, Tables}
use drivechain_litwindow.M4.Scdb.Statements.{is_votable, votable, raise_picked, upvote_bundle}
use drivechain_litwindow.M4.Scdb.Evolution.Rows.{FromId, IsWellFormed}

-- The sum of all scores.
abbrev pub total_score : List Bundle → ℕ
total_score [] = 0
total_score (b ∷ bs) = b.work_score + total_score bs

-- How many pending bundles a sidechain has.
abbrev pub pending_count : ℕ → List Bundle → ℕ
pending_count slot bs = length (keep (is_votable slot) bs)

module _ (row : Bundle) (height slot now : ℕ) where
  none_above :
      (bs : List Bundle) (n : ℕ)
      → FromId n bs
      → row.id < n
      → total_score (map (raise_picked (some row) height slot now) bs) ≡ total_score bs
  none_above [] n h below = refl
  none_above (b ∷ bs) n (p, h) below = ground (arith, none_above bs (suc b.id) h (omega arith))

  id_above : (bs : List Bundle) (n : ℕ) → FromId n bs → Memᴰ row bs → n ≤ row.id
  id_above [] n h m = elim m [ ]
  id_above (b ∷ bs) n (p, h) (Memᴰ.head e) = omega (arith, p, ap (λ (x : Bundle). x.id) e)
  id_above (b ∷ bs) n (p, h) (Memᴰ.tail m) = omega (arith, p, id_above bs (suc b.id) h m)

  raised_once :
      (bs : List Bundle) (n : ℕ)
      → FromId n bs
      → Memᴰ row bs
      → is_votable slot row ≡ true
      → total_score (map (raise_picked (some row) height slot now) bs) ≡ total_score bs + 1
  raised_once [] n h m may = elim m [ ]
  raised_once (b ∷ bs) n (p, h) (Memᴰ.head e) may =
      let at : row.id ≡ b.id = ap (λ (x : Bundle). x.id) e in
      let open_b : is_votable slot b ≡ true = subst (λ x. is_votable slot x ≡ true) e may in
      ground (arith, none_above bs (suc b.id) h (omega arith))
  raised_once (b ∷ bs) n (p, h) (Memᴰ.tail m) may =
      ground (arith, raised_once bs (suc b.id) h m may, id_above bs (suc b.id) h m)

unraised :
    (height slot now : ℕ) (bs : List Bundle) → map (raise_picked none height slot now) bs ≡ bs
unraised height slot now [] = refl
unraised height slot now (b ∷ bs) = ap (λ r. b ∷ r) (unraised height slot now bs)

-- In a well-formed table an upvote of index `i` adds one to the sum of all scores if its sidechain has more than `i` pending bundles, and nothing otherwise.
pub upvote_counts_once :
    (height slot i now : ℕ) (t : Tables)
    → IsWellFormed t
    → total_score (upvote_bundle height slot i now t).bundles
      ≡ total_score t.bundles + (if ltb i (pending_count slot t.bundles) then 1 else 0)
unfolding upvote_bundle
upvote_counts_once height slot i now t h =
    let by_height = λ (b : Bundle). b.first_seen_height in
    let chosen = keep (is_votable slot) t.bundles in
    let same_length = length-sort_by by_height chosen in
    elim (get_elem?_cases (votable slot t.bundles) i) [
      | inl (out, gone) ↦ rw (gone, unraised height slot now t.bundles) (ground arith)
      | inr (found, (row, at)) ↦
          let (m, may) =
            mem-keep (is_votable slot) row t.bundles
              (mem-sort_by by_height row chosen (mem-get_elem? (votable slot t.bundles) i at)) in
          rw (at, raised_once row height slot now t.bundles 0 h.ordered m may) (ground arith)
    ]
