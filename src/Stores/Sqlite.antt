-- ===== src/Stores/Sqlite.antt =====
-- src/exactly_once/stores/sqlite.py. Each transaction is one step, which BEGIN IMMEDIATE and the
-- lock of the connection make it; the SELECT of a claim that lost is a second step.
pub mod Races
pub mod Laws
pub mod Durability
use exactly_once.Prelude.{ℕ, zero, suc, ◌+◌, String, Bool, Option, none, some, List, Bytes}
use exactly_once.Errors.{Result, ok, err, store_unavailable}
use exactly_once.Types.{State, ClaimResult, ClaimRecord}
use exactly_once.Dict.{lookup, insert}
use exactly_once.Stores.Base.{Env, Store}
use exactly_once.Stores.Effects.{
  Table, inserted, won, selected, upsert, delete, renew, select, select_all,
}

abbrev pub max_claim_attempts : ℕ
max_claim_attempts = 100

abbrev pub lease_from : ℕ → Option ℕ → Option ℕ
lease_from now none = none
lease_from now (some ttl) = some (now + ttl)

-- The loop of `claim` with `n` attempts left. `others n` is what other processes do to the file
-- between the ROLLBACK of an attempt and its SELECT, and `mint n` the attempt's token.
unfoldable pub claim_attempts :
    (ℕ → Table → Table)
    → (ℕ → String)
    → ℕ
    → ℕ
    → Option ℕ
    → String
    → Option String
    → Table
    → Result ClaimResult × Table
claim_attempts others mint zero now lease key fp db = (err store_unavailable, db)
claim_attempts others mint (suc n) now lease key fp db =
    let rest = claim_attempts others mint n now lease key fp (others n db) in
    elim (lookup key db) [
      | none ↦ (ok (won key fp (mint n) lease), insert key (inserted now fp (mint n) lease) db)
      | some _ ↦ elim (lookup key (others n db)) [
        | none ↦ rest
        | some row ↦ (ok (selected key row), others n db)
      ]
    ]

unfoldable pub claim_among :
    (ℕ → Table → Table)
    → (ℕ → String)
    → Env
    → String
    → Option String
    → Option ℕ
    → Table
    → Result ClaimResult × Table
unfolding claim_attempts
claim_among others mint env key fp ttl db =
    claim_attempts others mint max_claim_attempts env.now (lease_from env.now ttl) key fp db

-- The same with no other process between the two steps.
unfoldable pub claim : Env → String → Option String → Option ℕ → Table → Result ClaimResult × Table
unfolding claim_among
claim env key fp ttl db = claim_among (λ n d. d) (λ n. env.token) env key fp ttl db

unfoldable pub commit : Env → String → Bytes → Table → Result (Unit {0}) × Table
unfolding upsert
commit env key result db = (ok tt, upsert env.now key result db)

unfoldable pub release : Env → String → Option String → Table → Result (Unit {0}) × Table
unfolding delete
release env key token db = (ok tt, delete key token db)

unfoldable pub heartbeat : Env → String → String → ℕ → Table → Result Bool × Table
unfolding renew
heartbeat env key token ttl db =
    let (renewed, db') = renew (env.now + ttl) key token db in (ok renewed, db')

unfoldable pub get : Env → String → Table → Result (Option ClaimRecord) × Table
unfolding select
get env key db = (ok (select key db), db)

unfoldable pub list : Env → Option State → Table → Result (List ClaimRecord) × Table
unfolding select_all
list env state db = (ok (select_all state db), db)

unfoldable pub sqlite : Store Table
unfolding claim commit release heartbeat get list
sqlite = record {
  claim = claim;
  commit = commit;
  release = release;
  heartbeat = heartbeat;
  now = λ env db. (ok env.now, db);
  get = get;
  list = list;
}
