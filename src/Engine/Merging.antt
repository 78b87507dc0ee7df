-- ===== src/Engine/Merging.antt =====
-- The symbols that are subscribed to.
use gogocoin.Prelude.{
  ◌≡◌, refl, sym, ap, ◌∙◌, subst, String, Bool, true, false, List, [], ◌∷◌, ◌++◌, ◌||◌, not, ◌&&◌,
  Bool-cases, inl, inr, str_eq, arith, eq_iff,
}
use gogocoin.Engine.Startup.{is_seen, append_new, merge_symbols}

is_seen-append :
    (s t : String) (out : List String) → is_seen s (out ++ (t ∷ [])) ≡ (is_seen s out || str_eq t s)
is_seen-append s t [] = elim (Bool-cases (str_eq t s)) [
  | inl same ↦ rw same refl
  | inr other ↦ rw other refl
]
is_seen-append s t (u ∷ out) = elim (Bool-cases (str_eq u s)) [
  | inl same ↦ rw same refl
  | inr other ↦ rw other (is_seen-append s t out)
]

-- the texts that are not empty
abbrev pub is_named : String → List String → Bool
is_named s symbols = not (str_eq s "") && is_seen s symbols

or_none : (a b : Bool) → a ≡ (a || (b && false))
or_none a b = ground arith

or_right : (a b : Bool) → (a || b) ≡ false → b ≡ false
or_right a b h = ground arith

skipped_self :
    (empty seen more : Bool)
    → (empty || seen) ≡ true
    → (seen || (not empty && more)) ≡ (seen || (not empty && true))
skipped_self empty seen more h = ground arith

new_self :
    (empty seen more : Bool)
    → (empty || seen) ≡ false
    → ((seen || true) || (not empty && more)) ≡ (seen || (not empty && true))
new_self empty seen more h = ground arith

new_other : (seen named : Bool) → ((seen || false) || named) ≡ (seen || named)
new_other seen named = ground arith

-- a text that is skipped, or written, is seen as the specification says
seen_of_skipped :
    (s t : String) (symbols out : List String)
    → (str_eq t "" || is_seen t out) ≡ true
    → (is_seen s out || is_named s symbols) ≡ (is_seen s out || is_named s (t ∷ symbols))
seen_of_skipped s t symbols out skipped = elim (Bool-cases (str_eq t s)) [
  | inl same ↦
      let skipped' : (str_eq s "" || is_seen s out) ≡ true =
        subst (λ x. (str_eq x "" || is_seen x out) ≡ true) ((eq_iff t s).0 same) skipped in
      rw same (skipped_self (str_eq s "") (is_seen s out) (is_seen s symbols) skipped')
  | inr other ↦ rw other refl
]

seen_of_new :
    (s t : String) (symbols out : List String)
    → (str_eq t "" || is_seen t out) ≡ false
    → ((is_seen s out || str_eq t s) || is_named s symbols)
      ≡ (is_seen s out || is_named s (t ∷ symbols))
seen_of_new s t symbols out new = elim (Bool-cases (str_eq t s)) [
  | inl same ↦
      let new' : (str_eq s "" || is_seen s out) ≡ false =
        subst (λ x. (str_eq x "" || is_seen x out) ≡ false) ((eq_iff t s).0 same) new in
      rw same (new_self (str_eq s "") (is_seen s out) (is_seen s symbols) new')
  | inr other ↦ rw other (new_other (is_seen s out) (is_named s symbols))
]

not_first :
    (t s : String) (out : List String)
    → is_seen t (s ∷ out) ≡ false
    → (str_eq t s ≡ false) × (is_seen t out ≡ false)
not_first t s out new = elim (Bool-cases (str_eq s t)) [
  | inl same ↦ let h = rw same at new in cc
  | inr other ↦ (
    elim (Bool-cases (str_eq t s)) [
      | inl same ↦ let h = (eq_iff s t).1 (sym ((eq_iff t s).0 same)) in cc
      | inr differ ↦ differ
    ],
    rw other at new,
  )
]

is_seen-append_new :
    (s : String) (symbols out : List String)
    → is_seen s (append_new symbols out) ≡ (is_seen s out || is_named s symbols)
unfolding append_new
is_seen-append_new s [] out = or_none (is_seen s out) (not (str_eq s ""))
is_seen-append_new s (t ∷ symbols) out = elim (Bool-cases (str_eq t "" || is_seen t out)) [
  | inl skipped ↦
      rw skipped (is_seen-append_new s symbols out ∙ seen_of_skipped s t symbols out skipped)
  | inr new ↦ rw new (
      is_seen-append_new s symbols (out ++ (t ∷ []))
      ∙ ap (λ b. b || is_named s symbols) (is_seen-append s t out)
      ∙ seen_of_new s t symbols out new)
]

-- what is written is never empty and never written twice
abbrev pub IsDistinct : List String → Type 0
IsDistinct [] = Unit
IsDistinct (s ∷ symbols) = (is_seen s symbols ≡ false) × IsDistinct symbols

IsDistinct-append :
    (t : String) (out : List String)
    → is_seen t out ≡ false
    → IsDistinct out
    → IsDistinct (out ++ (t ∷ []))
IsDistinct-append t [] new _ = (refl, _)
IsDistinct-append t (s ∷ out) new (first, rest) =
    let (other, new') = not_first t s out new in
    (is_seen-append s t out ∙ rw (first, other) refl, IsDistinct-append t out new' rest)

append_new-IsDistinct :
    (symbols out : List String) → IsDistinct out → IsDistinct (append_new symbols out)
unfolding append_new
append_new-IsDistinct [] out distinct = distinct
append_new-IsDistinct (t ∷ symbols) out distinct =
    elim (Bool-cases (str_eq t "" || is_seen t out)) [
      | inl skipped ↦ rw skipped (append_new-IsDistinct symbols out distinct)
      | inr new ↦ rw new (
          append_new-IsDistinct symbols (out ++ (t ∷ []))
            (IsDistinct-append t out (or_right (str_eq t "") (is_seen t out) new) distinct))
    ]

-- The program subscribes to the symbols that are in one of the two lists and not empty, to each once.
pub merge_symbols-IsDistinct :
    (primary extra : List String)
    → IsDistinct (merge_symbols primary extra)
      × ((s : String)
          → is_seen s (merge_symbols primary extra) ≡ (is_named s primary || is_named s extra))
unfolding merge_symbols
merge_symbols-IsDistinct primary extra = (
  append_new-IsDistinct extra (append_new primary []) (append_new-IsDistinct primary [] _),
  λ s.
      is_seen-append_new s extra (append_new primary [])
      ∙ ap (λ b. b || is_named s extra) (is_seen-append_new s primary []),
)
