-- ===== src/Float/Defs.antt =====
-- The operations of `float64` and of package `math` that the program calls, and their laws.
use gogocoin.Prelude.{ℕ, ◌≡◌, Bool, true, false}
use gogocoin.Prelude.Int.{ℤ}

pub record Float (F : Type 0) : Type 0 where
  pub add : F → F → F
  pub sub : F → F → F
  pub mul : F → F → F
  pub div : F → F → F
  pub neg : F → F
  pub sqrt : F → F
  pub floor : F → F
  pub lt : F → F → Bool
  pub le : F → F → Bool
  pub eq : F → F → Bool
  pub is_nan : F → Bool
  pub is_inf : F → Bool
  pub infinity : F
  -- the number nearest to the decimal constant p / q
  pub lit : ℕ → ℕ → F
  -- `float64(n)` of an `int`
  pub of_int : ℤ → F

module _ {F : Type 0} ⦃fl : Float F⦄ where
  infixl 65 ◌⊕◌ ◌⊖◌
  infixl 70 ◌⊗◌ ◌⊘◌
  infix 50 ◌≺◌ ◌≼◌ ◌≐◌
  abbrev pub ◌⊕◌ : F → F → F
  x ⊕ y = fl.add x y

  abbrev pub ◌⊖◌ : F → F → F
  x ⊖ y = fl.sub x y

  abbrev pub ◌⊗◌ : F → F → F
  x ⊗ y = fl.mul x y

  abbrev pub ◌⊘◌ : F → F → F
  x ⊘ y = fl.div x y

  -- `<`, `<=` and `==`; `x > y` is `y ≺ x`
  abbrev pub ◌≺◌ : F → F → Bool
  x ≺ y = fl.lt x y

  abbrev pub ◌≼◌ : F → F → Bool
  x ≼ y = fl.le x y

  abbrev pub ◌≐◌ : F → F → Bool
  x ≐ y = fl.eq x y

  abbrev pub number : ℕ → F
  number n = fl.lit n 1

  abbrev pub nought : F
  nought = fl.lit 0 1

  abbrev pub IsFinite : F → Type 0
  IsFinite x = (fl.is_nan x ≡ false) × (fl.is_inf x ≡ false)

-- IEEE 754 on comparisons, and on sums and differences of finite numbers that are not negative.
pub record IsIeee (F : Type 0) ⦃fl : Float F⦄ : Type 0 where
  pub nought_finite : IsFinite {F = F} nought
  pub one_finite : IsFinite {F = F} (number 1)
  pub hundred_finite : IsFinite {F = F} (number 100)
  pub eq_refl : (x : F) → IsFinite x → (x ≐ x) ≡ true
  pub le_refl : (x : F) → IsFinite x → (x ≼ x) ≡ true
  pub le_trans : (x y z : F) → (x ≼ y) ≡ true → (y ≼ z) ≡ true → (x ≼ z) ≡ true
  pub le_of_lt : (x y : F) → (x ≺ y) ≡ true → (x ≼ y) ≡ true
  pub not-lt_of_le : (x y : F) → (x ≼ y) ≡ true → (y ≺ x) ≡ false
  pub le_of_not-lt : (x y : F) → IsFinite x → IsFinite y → (x ≺ y) ≡ false → (y ≼ x) ≡ true
  pub lt_of_not-le : (x y : F) → IsFinite x → IsFinite y → (x ≼ y) ≡ false → (y ≺ x) ≡ true
  pub sub_finite :
      (x y : F) → IsFinite x → IsFinite y → (nought ≼ y) ≡ true → (y ≼ x) ≡ true → IsFinite (x ⊖ y)
  pub sub_bounds :
      (x y : F)
      → IsFinite x
      → IsFinite y
      → (nought ≼ y) ≡ true
      → (y ≼ x) ≡ true
      → ((nought ≼ x ⊖ y) ≡ true) × ((x ⊖ y ≼ x) ≡ true)
  pub sub_self : (x : F) → IsFinite x → (x ⊖ x ≼ nought) ≡ true
  pub le-add :
      (x y : F)
      → IsFinite x
      → IsFinite y
      → (nought ≼ x) ≡ true
      → (nought ≼ y) ≡ true
      → (x ≼ x ⊕ y) ≡ true
