-- ===== src/Stores/Sqlite/Laws.antt =====
-- The SQLite store of src/exactly_once/stores/sqlite.py as a store that keeps its rows well formed, with
-- no other process between the two transactions of a claim.
use exactly_once.Prelude.{
  ℕ, ◌+◌, String, ◌≡◌, refl, inl, inr, Option-cases, none, some, true, false, Option, arith,
}
use exactly_once.Errors.{ok}
use exactly_once.Types.{State, ClaimResult}
use exactly_once.Dict.{lookup, insert, contains, contains-insert_self}
use exactly_once.Stores.Base.{Env, Exclusive, Keeps}
use exactly_once.Stores.Effects.{Table, EffectRow, selected, inserted, won}
use exactly_once.Stores.Effects.Laws.{
  IsValid, insert-Keeps, inserted-IsRow, upsert-Keeps, renew-Keeps, delete-IsValid, delete_others,
}
use exactly_once.Stores.Sqlite
use exactly_once.Stores.Sqlite.{lease_from, sqlite}
use exactly_once.Stores.Sqlite.Races.{claim-absent, claim-present}

-- A claim with no other process between its steps: an absent row is inserted, a row there is read.
pub claim_new :
    (env : Env) (key : String) (fp : Option String) (ttl : Option ℕ) (s : Table)
    → lookup key s ≡ none
    → Sqlite.claim env key fp ttl s ≡ (
      ok (won key fp env.token (lease_from env.now ttl)),
      insert key (inserted env.now fp env.token (lease_from env.now ttl)) s,
    )
unfolding Sqlite.claim Sqlite.claim_among
claim_new env key fp ttl s e =
    claim-absent (λ n d. d) (λ n. env.token) env.now (lease_from env.now ttl) key fp 99 s e

pub claim_met :
    (env : Env) (key : String) (fp : Option String) (ttl : Option ℕ) (s : Table) (row : EffectRow)
    → lookup key s ≡ some row
    → Sqlite.claim env key fp ttl s ≡ (ok (selected key row), s)
unfolding Sqlite.claim Sqlite.claim_among
claim_met env key fp ttl s row e =
    claim-present (λ n d. d) (λ n. env.token) env.now (lease_from env.now ttl) key fp 99 s row row e
      e

claim-wins :
    (env : Env) (key : String) (fp : Option String) (ttl : Option ℕ) (s : Table) (c : ClaimResult)
    → IsValid s
    → (Sqlite.claim env key fp ttl s).0 ≡ ok c
    → c.state ≡ State.fresh
    → (contains s key ≡ false) × (contains (Sqlite.claim env key fp ttl s).1 key ≡ true)
claim-wins env key fp ttl s c v h fresh = elim (Option-cases (lookup key s)) [
  | inl e ↦ (
    rw e refl,
    rw (claim_new env key fp ttl s e)
        (contains-insert_self key (inserted env.now fp env.token (lease_from env.now ttl)) s),
  )
  | inr (row, e) ↦
      absurd
        ((v.at key row e).not_fresh (ground (arith, claim_met env key fp ttl s row e, h, fresh)))
]

claim-Keeps :
    (env : Env) (key : String) (fp : Option String) (ttl : Option ℕ)
    → Keeps contains IsValid (Sqlite.claim env key fp ttl)
claim-Keeps env key fp ttl s v = elim (Option-cases (lookup key s)) [
  | inl e ↦ rw (claim_new env key fp ttl s e) (
      insert-Keeps key (inserted env.now fp env.token (lease_from env.now ttl)) s
        (inserted-IsRow env.now fp env.token (lease_from env.now ttl)) v)
  | inr (row, e) ↦ rw (claim_met env key fp ttl s row e) (v, λ j h. h)
]

-- With no other process between the two steps of a claim, from a well-formed table a claim answers
-- FRESH only for a key with no row, and leaves one; every method keeps the rows well formed, and
-- none but a release of a key takes its row away.
pub sqlite-Exclusive : Exclusive contains IsValid sqlite
unfolding sqlite Sqlite.commit Sqlite.release Sqlite.heartbeat Sqlite.get
sqlite-Exclusive = record {
  claim_wins = claim-wins;
  claim_keeps = claim-Keeps;
  commit_keeps = λ env key b. upsert-Keeps env.now key b;
  release_valid = λ env key token s v. delete-IsValid key token s v;
  release_keeps = λ env key token s j v. delete_others key token s j;
  heartbeat_keeps = λ env key token ttl. renew-Keeps (env.now + ttl) key token;
  now_keeps = λ env s v. (v, λ j h. h);
  get_keeps = λ env key s v. (v, λ j h. h);
}
