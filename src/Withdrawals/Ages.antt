-- ===== src/Withdrawals/Ages.antt =====
-- The age of a pending bundle and the blocks it has left.
use drivechain_litwindow.Prelude.{
  ℕ, zero, suc, ◌+◌, ◌-◌, ◌^◌, ◌≤◌, ◌<◌, ◌≡◌, ap, true, false, some, List, [], ◌∷◌, get_elem?,
  arith,
}
use drivechain_litwindow.Withdrawals.{WithdrawalBundle, is_settled, update_age, update_bundle_ages}

-- What the listing says of a bundle at a height: a pending one has been there since its block, and its age and the blocks it has left make up the period while that lasts, and no block is left after; a settled one stays as it is.
abbrev pub IsAged : ℕ → WithdrawalBundle → WithdrawalBundle → Type 0
IsAged height b c =
    (is_settled b.status ≡ true → c ≡ b)
    × (is_settled b.status ≡ false
        → (c.age + b.block_height ≡ height)
          × (c.m6_id ≡ b.m6_id)
          × (c.blocks_left ≡ 26300 - c.age)
          × (c.status ≡ b.status))

update_age-IsAged :
    (height : ℕ) (b : WithdrawalBundle)
    → b.block_height ≤ height
    → height < 2 ^ 32
    → IsAged height b (update_age height b)
unfolding update_age
update_age-IsAged height b h k = ground arith

-- At a height that is not below a bundle's block, the listing gives the bundle in its place, settled as it was or pending with its age and the blocks it has left.
pub update_bundle_ages-IsAged :
    (bs : List WithdrawalBundle) (height k : ℕ) {b : WithdrawalBundle}
    → b.block_height ≤ height
    → height < 2 ^ 32
    → get_elem? bs k ≡ some b
    → (c : WithdrawalBundle) × (get_elem? (update_bundle_ages bs height) k ≡ some c)
      × IsAged height b c
unfolding update_bundle_ages
update_bundle_ages-IsAged [] height k h l e = cc
update_bundle_ages-IsAged (x ∷ bs) height zero {b} h l e =
    let at : x ≡ b = cc e in
    (update_age height b, ap (λ y. some (update_age height y)) at, update_age-IsAged height b h l)
update_bundle_ages-IsAged (x ∷ bs) height (suc k) h l e =
    update_bundle_ages-IsAged bs height k h l e
