-- ===== src/Pnl/Exact.antt =====
-- Sizes and money of a sell in exact arithmetic: `float64` at whole numbers. (Amounts can be taken
-- in a smallest unit; up to 2 ^ 53 units binary64 does not round.)
use gogocoin.Prelude.{◌≡◌, ◌∙◌, ap, List, [], ◌∷◌, Bool-cases, inl, inr, if◌then◌else◌}
use gogocoin.Prelude.Int.{ℤ, pos, pos_part, neg_part, ◌+ℤ◌, ◌-ℤ◌, ◌*ℤ◌, neg_ℤ, ltb_ℤ, int_laws}
use gogocoin.Float.{◌≼◌, nought}
use gogocoin.Float.Exact.{exact_float}
use gogocoin.Domain.{Position, OrderResult, update_status}
use gogocoin.Pnl.Bookkeeping.{match_size, consume, match_positions, effective_price, sell_data}

-- what an update takes from a position
abbrev pub taken : Position ℤ → Position ℤ → ℤ
taken p q = q.used_size -ℤ p.used_size

abbrev pub taken_size : List (Position ℤ) → List (Position ℤ) → ℤ
taken_size (p ∷ ps) (q ∷ qs) = taken p q +ℤ taken_size ps qs
taken_size ps qs = pos 0

-- the entry cost of what the updates take
abbrev pub taken_cost : List (Position ℤ) → List (Position ℤ) → ℤ
taken_cost (p ∷ ps) (q ∷ qs) = p.entry_price *ℤ taken p q +ℤ taken_cost ps qs
taken_cost ps qs = pos 0

-- The updates move size from `remaining_size` to `used_size` and keep the sum of the two.
abbrev pub IsBalanced : List (Position ℤ) → List (Position ℤ) → Type 0
IsBalanced (p ∷ ps) (q ∷ qs) =
    (q.used_size +ℤ q.remaining_size ≡ p.used_size +ℤ p.remaining_size) × IsBalanced ps qs
IsBalanced ps qs = Unit

taken-consume : (price m : ℤ) (p : Position ℤ) → taken p (consume price m p) ≡ m
unfolding consume update_status
taken-consume price m p = omega int_laws

consume_balanced :
    (price m : ℤ) (p : Position ℤ)
    → let q = consume price m p in q.used_size +ℤ q.remaining_size ≡ p.used_size +ℤ p.remaining_size
unfolding consume update_status
consume_balanced price m p = omega int_laws

regroup_size : (u m s r : ℤ) → u +ℤ s ≡ r -ℤ m → u +ℤ (m +ℤ s) ≡ r
regroup_size u m s r h = omega (int_laws, ap pos_part h, ap neg_part h)

regroup_cost : (c x t d : ℤ) → d ≡ c +ℤ x +ℤ t → d ≡ c +ℤ (x +ℤ t)
regroup_cost c x t d h = h ∙ omega int_laws

-- Nothing is lost: the unmatched size and the sizes taken add up to the size sold, the cost is the
-- entry cost of what was taken, and each position keeps the sum of its used and remaining size.
pub match_positions-conserves :
    (price r cost : ℤ) (ps : List (Position ℤ))
    → let m = match_positions price r cost ps in
      (m.unmatched +ℤ taken_size ps m.touched ≡ r)
      × (m.cost ≡ cost +ℤ taken_cost ps m.touched)
      × IsBalanced ps m.touched
unfolding match_positions
match_positions-conserves price r cost [] = (omega int_laws, omega int_laws, tt)
match_positions-conserves price r cost (p ∷ ps) = elim (Bool-cases (r ≼ nought)) [
  | inl stop ↦ rw stop (omega int_laws, omega int_laws, tt)
  | inr go ↦
      let m = match_size r p in
      let (size, cost_eq, balanced) =
        match_positions-conserves price (r -ℤ m) (cost +ℤ p.entry_price *ℤ m) ps in
      rw (go, taken-consume price m p)
        (
          regroup_size _ _ _ _ size,
          regroup_cost _ _ _ _ cost_eq,
          (consume_balanced price m p, balanced),
        )
]

matched_size : (u t r : ℤ) → u +ℤ t ≡ r → r -ℤ u ≡ t
matched_size u t r h = omega (int_laws, ap pos_part h, ap neg_part h)

zero-add_ℤ : (c t : ℤ) → c ≡ pos 0 +ℤ t → c ≡ t
zero-add_ℤ c t h = h ∙ omega int_laws

-- The PnL of a sell is the revenue of the size that was matched, less its entry cost and the fee;
-- a sell that matches nothing books minus the fee.
pub sell_data-pnl :
    (r : OrderResult ℤ) (ps : List (Position ℤ))
    → let d = sell_data r ps in
      let size = taken_size ps d.positions in
      d.pnl ≡ (
        if ltb_ℤ (pos 0) size
        then effective_price r *ℤ size -ℤ taken_cost ps d.positions -ℤ r.fee
        else neg_ℤ r.fee)
unfolding sell_data
sell_data-pnl r ps =
    let (size, cost, _) = match_positions-conserves (effective_price r) r.filled_size (pos 0) ps in
    rw (matched_size _ _ _ size, zero-add_ℤ _ _ cost)
