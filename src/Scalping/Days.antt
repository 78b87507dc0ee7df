-- ===== src/Scalping/Days.antt =====
-- How many trades a list of times has on a day in Japan, and the count that the strategy keeps.
use gogocoin.Prelude.{
  ℕ, suc, ◌≤◌, ◌<◌, ◌≡◌, refl, ap, sym, ◌∙◌, subst, Bool, true, false, Option, none, some, List, [],
  ◌∷◌, All, count_if, ◌==◌, Bool-cases, inl, inr, if◌then◌else◌, arith,
}
use gogocoin.Prelude.Int.{ℤ, pos, ◌+ℤ◌, leb_ℤ}
use gogocoin.Domain.{Time}
use gogocoin.Risk.{jst_day}
use gogocoin.Scalping.Deciding.{is_date}

pub jst_day_mono : (t u : ℕ) → t ≤ u → jst_day t ≤ jst_day u
jst_day_mono t u le = omega arith

eq_self : (n : ℕ) → (n == n) ≡ true
eq_self n = ground arith

eq_of : (m n : ℕ) → (m == n) ≡ true → m ≡ n
eq_of m n h = ground arith

below : (m n : ℕ) → m ≤ n → (m == n) ≡ false → m < n
below m n le other = ground arith

plus_one : (count : ℤ) (n : ℕ) → count ≡ pos n → count +ℤ pos 1 ≡ pos (suc n)
unfolding ◌+ℤ◌
plus_one count n e = ground arith

room_of : (most n : ℕ) (count : ℤ) → count ≡ pos n → leb_ℤ (pos most) count ≡ false → suc n ≤ most
room_of most n count e free = ground arith

-- the trades of a day
abbrev pub trades_on : ℕ → List Time → ℕ
trades_on day = count_if λ t. jst_day t == day

-- the date and the count that the strategy keeps, for the trades so far
abbrev pub IsDated : Option ℕ → ℤ → Time → List Time → Type 0
IsDated none count seen log = log ≡ []
IsDated (some day) count seen log =
    (count ≡ pos (trades_on day log)) × All (λ t. jst_day t ≤ day) log × (day ≤ jst_day seen)

no_trades_on :
    (day later : ℕ) (log : List Time)
    → All (λ t. jst_day t ≤ day) log
    → day < later
    → trades_on later log ≡ 0
no_trades_on day later [] _ before = refl
no_trades_on day later (t ∷ log) (le, rest) before =
    let other : (jst_day t == later) ≡ false = ground arith in
    rw other (no_trades_on day later log rest before)

All-le :
    (day later : ℕ) (log : List Time)
    → All (λ t. jst_day t ≤ day) log
    → day ≤ later
    → All (λ t. jst_day t ≤ later) log
All-le day later [] _ le = _
All-le day later (t ∷ log) (here, rest) le = (omega arith, All-le day later log rest le)

-- the count after a trade at `t`
abbrev pub counted : Option ℕ → ℤ → ℕ → ℤ
counted date count day = if is_date date day then count +ℤ pos 1 else pos 1

pub counted-IsDated :
    (date : Option ℕ) (count : ℤ) (seen t : Time) (log : List Time)
    → IsDated date count seen log
    → seen ≤ t
    → IsDated (some (jst_day t)) (counted date count (jst_day t)) t (t ∷ log)
unfolding ◌+ℤ◌
counted-IsDated none count seen t log empty le =
    let self = eq_self (jst_day t) in
    subst (λ l. IsDated (some (jst_day t)) (pos 1) t (t ∷ l)) (sym empty)
      (rw self (refl, (omega arith, _), omega arith))
counted-IsDated (some day) count seen t log (e, before, known) le =
    let today = jst_day t in
    let self = eq_self today in
    let reached : day ≤ today = omega (arith, jst_day_mono seen t le) in
    let earlier : All (λ x. jst_day x ≤ today) (t ∷ log) =
      (omega arith, All-le day today log before reached) in
    elim (Bool-cases (day == today)) [
      | inl same ↦
          let e' : count ≡ pos (trades_on today log) =
            e ∙ ap (λ x. pos (trades_on x log)) (eq_of day today same) in
          rw (same, self) (plus_one count (trades_on today log) e', earlier, omega arith)
      | inr other ↦
          let fresh = no_trades_on day today log before (below day today reached other) in
          rw (other, self, fresh) (refl, earlier, omega arith)
    ]

unfoldable pub is_limited : Option ℕ → ℤ → ℕ → ℕ → Bool
is_limited date count day most = if is_date date day then leb_ℤ (pos most) count else false

room_today :
    (date : Option ℕ) (count : ℤ) (seen t : Time) (log : List Time) (most : ℕ)
    → 1 ≤ most
    → IsDated date count seen log
    → seen ≤ t
    → is_limited date count (jst_day t) most ≡ false
    → suc (trades_on (jst_day t) log) ≤ most
unfolding is_limited
room_today none count seen t log most some_trades empty le free =
    subst (λ l. suc (trades_on (jst_day t) l) ≤ most) (sym empty) some_trades
room_today (some day) count seen t log most some_trades (e, before, known) le free =
    let today = jst_day t in
    let reached : day ≤ today = omega (arith, jst_day_mono seen t le) in
    elim (Bool-cases (day == today)) [
      | inl same ↦
          let e' : count ≡ pos (trades_on today log) =
            e ∙ ap (λ x. pos (trades_on x log)) (eq_of day today same) in
          room_of most (trades_on today log) count e' (rw same at free)
      | inr other ↦ omega (arith, no_trades_on day today log before (below day today reached other))
    ]

-- a further trade, where the limit was not reached, keeps every day within it
pub within_limit :
    (date : Option ℕ) (count : ℤ) (seen t : Time) (log : List Time) (most : ℕ)
    → 1 ≤ most
    → IsDated date count seen log
    → seen ≤ t
    → is_limited date count (jst_day t) most ≡ false
    → ((day : ℕ) → trades_on day log ≤ most)
    → (day : ℕ) → trades_on day (t ∷ log) ≤ most
within_limit date count seen t log most some_trades dated le free kept day =
    let room = room_today date count seen t log most some_trades dated le free in
    elim (Bool-cases (jst_day t == day)) [
      | inl same ↦
          rw same (subst (λ x. suc (trades_on x log) ≤ most) (eq_of (jst_day t) day same) room)
      | inr other ↦ rw other (kept day)
    ]
