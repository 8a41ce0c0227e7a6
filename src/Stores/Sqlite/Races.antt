-- ===== src/Stores/Sqlite/Races.antt =====
-- The loop of SQLite's `claim`, whatever other processes do to the file between the ROLLBACK of an
-- attempt and its SELECT.
use exactly_once.Prelude.{
  ℕ, suc, String, ◌≡◌, refl, ◌≢◌, inl, inr, Option-cases, none, some, true, Option, arith,
}
use exactly_once.Errors.{Result, ok, err, store_unavailable}
use exactly_once.Types.{ClaimResult}
use exactly_once.Dict.{lookup, insert, contains}
use exactly_once.Stores.Effects.{Table, EffectRow, selected, inserted, won}
use exactly_once.Stores.Sqlite.{claim_attempts}

module _ (others : ℕ → Table → Table) (mint : ℕ → String) (now : ℕ) (lease : Option ℕ)
    (key : String) (fp : Option String) where
  abbrev attempts : ℕ → Table → Result ClaimResult × Table
  attempts n db = claim_attempts others mint n now lease key fp db

  pub claim-absent :
      (n : ℕ) (db : Table)
      → lookup key db ≡ none
      → attempts (suc n) db
        ≡ (ok (won key fp (mint n) lease), insert key (inserted now fp (mint n) lease) db)
  unfolding claim_attempts
  claim-absent n db e = rw (e, claim_attempts) refl

  pub claim-present :
      (n : ℕ) (db : Table) (row later : EffectRow)
      → lookup key db ≡ some row
      → lookup key (others n db) ≡ some later
      → attempts (suc n) db ≡ (ok (selected key later), others n db)
  unfolding claim_attempts
  claim-present n db row later e f = rw (e, f, claim_attempts) refl

  -- How a claim ends: it inserted the row of a key that had none in the table before it, it read the
  -- row that stands in the table, or it gave up.
  pub data Ends : Result ClaimResult × Table → Type 0 where
    wins :
        (n : ℕ) (db : Table)
        → lookup key db ≡ none
        → Ends (ok (won key fp (mint n) lease), insert key (inserted now fp (mint n) lease) db)
    reads :
        (db : Table) (row : EffectRow) → lookup key db ≡ some row → Ends (ok (selected key row), db)
    gives_up : (db : Table) → Ends (err store_unavailable, db)

  -- A claim with an attempt left gives up only where a peer removed the row it had met, so if no
  -- peer removes the key's row, it is answered.
  pub claim_answers :
      (n : ℕ) (db : Table)
      → ((m : ℕ) (d : Table) → contains d key ≡ true → contains (others m d) key ≡ true)
      → (attempts (suc n) db).0 ≢ err store_unavailable
  claim_answers n db stays h = elim (Option-cases (lookup key db)) [
    | inl e ↦ ground (arith, claim-absent n db e, h)
    | inr (row, e) ↦ elim (Option-cases (lookup key (others n db))) [
      | inl f ↦ ground (arith, stays n db (rw e refl), f)
      | inr (later, f) ↦ ground (arith, claim-present n db row later e f, h)
    ]
  ]
