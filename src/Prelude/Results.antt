-- ===== src/Prelude/Results.antt =====
-- Go's `(T, error)` results: a value or an error, with the bind of `if err != nil { return err }`.
use mathlib.Core.Path.{◌≡◌, refl}
use mathlib.Core.Bool.{Bool, true, false}
use mathlib.Core.Logic.{◌⊎◌, inl, inr}

pub data Result {ε ℓ} (E : Type ε) (A : Type ℓ) : Type (ε ⊔ ℓ) where
  err : E → Result E A
  ok : A → Result E A

module _ {ε} {E : Type ε} where
  -- `if c { return e }`
  abbrev pub reject_if : Bool → E → Result E (Unit {0})
  reject_if c e = elim c [ true ↦ err e | false ↦ ok tt ]

  -- `fmt.Errorf("...: %w", err)`
  abbrev pub map_err {κ ℓ} : {W : Type κ} {A : Type ℓ} → (E → W) → Result E A → Result W A
  map_err wrap result = elim result [ err e ↦ err (wrap e) | ok a ↦ ok a ]

  infixl 5 ◌>>=◌ ◌>>◌
  abbrev pub ◌>>=◌ {ℓ κ} : {A : Type ℓ} {B : Type κ} → Result E A → (A → Result E B) → Result E B
  result >>= next = elim result [ err e ↦ err e | ok a ↦ next a ]

  abbrev pub ◌>>◌ {κ} : {B : Type κ} → Result E (Unit {0}) → Result E B → Result E B
  check >> rest = elim check [ err e ↦ err e | ok _ ↦ rest ]

  -- To split on a computed result and keep the equation.
  pub Result-cases {ℓ} :
      {A : Type ℓ} (result : Result E A)
      → ((a : A) × (result ≡ ok a)) ⊎ ((e : E) × (result ≡ err e))
  Result-cases (err e) = inr (e, refl)
  Result-cases (ok a) = inl (a, refl)

  pub reject_if-eq-ok : (c : Bool) (e : E) → reject_if c e ≡ ok tt → c ≡ false
  reject_if-eq-ok false e h = refl
  reject_if-eq-ok true e h = cc

  pub map_err-eq-ok {κ ℓ} :
      {W : Type κ} {A : Type ℓ} (wrap : E → W) (result : Result E A) {a : A}
      → map_err wrap result ≡ ok a
      → result ≡ ok a
  map_err-eq-ok wrap (err e) h = cc
  map_err-eq-ok wrap (ok a) h = cc

  -- A chain that succeeds has succeeded at every step.
  pub >>-eq-ok {κ} :
      {B : Type κ} (check : Result E (Unit {0})) (rest : Result E B) {b : B}
      → (check >> rest) ≡ ok b
      → (check ≡ ok tt) × (rest ≡ ok b)
  >>-eq-ok (err e) rest h = cc
  >>-eq-ok (ok _) rest h = (refl, h)

  pub >>=-eq-ok {ℓ κ} :
      {A : Type ℓ} {B : Type κ} (result : Result E A) (next : A → Result E B) {b : B}
      → result >>= next ≡ ok b
      → (a : A) × (result ≡ ok a) × (next a ≡ ok b)
  >>=-eq-ok (err e) next h = cc
  >>=-eq-ok (ok a) next h = (a, refl, h)
