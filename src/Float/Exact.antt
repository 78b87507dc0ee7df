-- ===== src/Float/Exact.antt =====
-- Whole numbers as a `Float`: the sums, differences and products are exact. Quotients and constants
-- are rounded towards zero.
use gogocoin.Prelude.{ℕ, zero, suc, ◌*◌, ◌/◌, ◌^◌, refl, false, arith, leb, if◌then◌else◌}
use gogocoin.Prelude.Int.{
  ℤ, pos, pos_part, ◌+ℤ◌, ◌-ℤ◌, ◌*ℤ◌, ◌/ℤ◌, neg_ℤ, ltb_ℤ, leb_ℤ, eqb_ℤ, +ℤ_parts, -ℤ_parts,
}
use gogocoin.Float.Defs.{Float, IsIeee}

-- the whole part of a square root, by a search from `n` down
root_from : ℕ → ℕ → ℕ
root_from zero x = 0
root_from (suc n) x = let rest = root_from n x in if leb (suc n * suc n) x then suc n else rest

unfoldable pub whole_root : ℤ → ℤ
unfolding root_from
whole_root x = pos (root_from (pos_part x) (pos_part x))

-- a stand-in for +Inf, out of the range of binary64
abbrev pub huge : ℤ
huge = pos (2 ^ 1024)

instance abbrev pub exact_float : Float ℤ
exact_float = record {
  add = ◌+ℤ◌;
  sub = ◌-ℤ◌;
  mul = ◌*ℤ◌;
  div = ◌/ℤ◌;
  neg = neg_ℤ;
  sqrt = whole_root;
  floor = λ x. x;
  lt = ltb_ℤ;
  le = leb_ℤ;
  eq = eqb_ℤ;
  is_nan = λ x. false;
  is_inf = λ x. false;
  infinity = huge;
  lit = λ p q. pos (p / q);
  of_int = λ n. n;
}

-- The laws of `IsIeee` can be met.
pub exact-IsIeee : IsIeee ℤ
exact-IsIeee = record {
  nought_finite = (refl, refl);
  one_finite = (refl, refl);
  hundred_finite = (refl, refl);
  eq_refl = λ x h. ground arith;
  le_refl = λ x h. ground arith;
  le_trans = λ x y z h k. ground arith;
  le_of_lt = λ x y h. ground arith;
  not-lt_of_le = λ x y h. ground arith;
  le_of_not-lt = λ x y h k e. ground arith;
  lt_of_not-le = λ x y h k e. ground arith;
  sub_finite = λ x y h k e d. (refl, refl);
  sub_bounds = λ x y h k e d. (ground (arith, -ℤ_parts x y), ground (arith, -ℤ_parts x y));
  sub_self = λ x h. ground (arith, -ℤ_parts x x);
  le-add = λ x y h k e d. ground (arith, +ℤ_parts x y);
}
