-- ===== src/Persistence/Atomic.antt =====
-- The tables before and after `WithTransaction`.
use gogocoin.Prelude.{◌≡◌, arith, Result, ok, err}
use gogocoin.Persistence.Statements.{Store, DbError, drawn, with_transaction}

-- The two stores hold the same rows; they may differ in the failures that are still to come.
abbrev pub SameTables : {F : Type 0} → Store F → Store F → Type 0
SameTables s t = (s.positions ≡ t.positions) × (s.trades ≡ t.trades)

module _ {F E : Type 0} (wrap : DbError → E) (body : Store F → Result E (Unit {0}) × Store F)
    (s : Store F) where
  -- If `WithTransaction` returns an error, whether of the begin, the body or the commit, the tables
  -- hold what they held before the call.
  pub with_transaction-SameTables :
      {e : E}
      → (with_transaction wrap body s).0 ≡ err e
      → SameTables (with_transaction wrap body s).1 s
  unfolding with_transaction
  with_transaction-SameTables h = ground arith

  -- If it returns no error, the body ran without error on the tables as they were, and the tables
  -- are what the body left.
  pub with_transaction-commits :
      (with_transaction wrap body s).0 ≡ ok tt
      → ((body (drawn s)).0 ≡ ok tt)
        × SameTables (with_transaction wrap body s).1 (body (drawn s)).1
  unfolding with_transaction
  with_transaction-commits h = ground arith
