-- ===== src/Stores/Postgres.antt =====
-- src/exactly_once/stores/postgres.py: transactions under SERIALIZABLE, tried again when they fail to
-- serialize. The synchronous methods go through `_tx`; the asynchronous ones differ in what they
-- try again and in what they turn into StoreUnavailableError.
pub mod Retries
pub mod Laws
pub mod Durability
use exactly_once.Prelude.{ℕ, zero, suc, ◌+◌, String, Bool, Option, none, some, List, Bytes}
use exactly_once.Errors
use exactly_once.Errors.{Result, ok, err, store_unavailable, operational_error, runtime_error}
use exactly_once.Types.{State, ClaimResult, ClaimRecord}
use exactly_once.Dict.{lookup, insert}
use exactly_once.Stores.Base.{Env, Store, Attempt, Link}
use exactly_once.Stores.Effects.{
  EffectRow, Table, inserted, won, selected, upsert, delete, renew, select, select_all,
}

abbrev pub max_retries : ℕ
max_retries = 5

abbrev serial : Errors.Exception
serial = Errors.Exception.serialization_failure

-- `_tx` from attempt `n` on, with so many left. A transaction that fails leaves the table alone.
unfoldable pub tx :
    {A : Type 0} → (ℕ → Attempt) → ℕ → ℕ → (Table → A × Table) → Table → Result A × Table
tx attempt n zero body db = (err runtime_error, db)
tx attempt n (suc left) body db =
    let again = tx attempt (suc n) left body db in
    elim (attempt n) [
      | Attempt.commits ↦ (ok (body db).0, (body db).1)
      | Attempt.serialization_failure ↦ elim left [ zero ↦ (err serial, db) | suc _ ↦ again ]
      | Attempt.connection_lost ↦ (err store_unavailable, db)
      | Attempt.lost_after ↦ (err store_unavailable, (body db).1)
    ]

-- The lease by the server's clock.
abbrev pub lease_from : ℕ → Option ℕ → Option ℕ
lease_from now none = none
lease_from now (some ttl) = some (now + ttl)

-- `_CLAIM_SQL` where it meets no row: the table with the row that it inserts.
abbrev claim_sql : Env → String → Option String → Option ℕ → Table → Table
claim_sql env key fp ttl db =
    insert key (inserted env.now fp env.token (lease_from env.server_now ttl)) db

-- `_SELECT_SQL`: the columns of the row that was met.
abbrev select_sql : String → EffectRow → ClaimResult
select_sql key row = selected key row

-- `_COMMIT_SQL`
abbrev pub commit_sql : Env → String → Bytes → Table → Table
commit_sql env key result db = upsert env.now key result db

-- `_DELETE_SQL` and, for a token, `_DELETE_TOKEN_SQL`
abbrev pub delete_sql : String → Option String → Table → Table
delete_sql key token db = delete key token db

-- `_HEARTBEAT_SQL`, by the server's clock, and whether it met a row
abbrev pub heartbeat_sql : Env → String → String → ℕ → Table → Bool × Table
heartbeat_sql env key token ttl db = renew (env.server_now + ttl) key token db

-- `_do` of `claim`: INSERT … ON CONFLICT DO NOTHING RETURNING, then SELECT.
unfoldable pub claim_body : Env → String → Option String → Option ℕ → Table → ClaimResult × Table
claim_body env key fp ttl db = elim (lookup key db) [
  | none ↦ (won key fp env.token (lease_from env.server_now ttl), claim_sql env key fp ttl db)
  | some row ↦ (select_sql key row, db)
]

unfoldable pub claim : Env → String → Option String → Option ℕ → Table → Result ClaimResult × Table
unfolding tx claim_body
claim env key fp ttl db = tx env.attempt 0 max_retries (claim_body env key fp ttl) db

unfoldable pub commit : Env → String → Bytes → Table → Result (Unit {0}) × Table
unfolding tx upsert
commit env key result db = tx env.attempt 0 max_retries (λ d. (tt, commit_sql env key result d)) db

unfoldable pub release : Env → String → Option String → Table → Result (Unit {0}) × Table
unfolding tx delete
release env key token db = tx env.attempt 0 max_retries (λ d. (tt, delete_sql key token d)) db

unfoldable pub heartbeat : Env → String → String → ℕ → Table → Result Bool × Table
unfolding tx renew
heartbeat env key token ttl db =
    tx env.attempt 0 max_retries (λ d. heartbeat_sql env key token ttl d) db

unfoldable pub now : Env → Table → Result ℕ × Table
unfolding tx
now env db = tx env.attempt 0 max_retries (λ d. (env.server_now, d)) db

-- `get` and `list` do not go through `_tx`, and let a lost connection through as it is raised.
abbrev pub read_over : {A : Type 0} → Link → A → Result A
read_over Link.up a = ok a
read_over Link.lost a = err operational_error
read_over Link.lost_reply a = err operational_error

unfoldable pub get : Env → String → Table → Result (Option ClaimRecord) × Table
unfolding select
get env key db = (read_over env.link (select key db), db)

unfoldable pub list : Env → Option State → Table → Result (List ClaimRecord) × Table
unfolding select_all
list env state db = (read_over env.link (select_all state db), db)

unfoldable pub postgres : Store Table
unfolding claim commit release heartbeat now get list
postgres = record {
  claim = claim;
  commit = commit;
  release = release;
  heartbeat = heartbeat;
  now = now;
  get = get;
  list = list;
}

-- The loop of `aclaim`: a lost connection is not turned into StoreUnavailableError.
unfoldable pub atx :
    {A : Type 0} → (ℕ → Attempt) → ℕ → ℕ → (Table → A × Table) → Table → Result A × Table
atx attempt n zero body db = (err runtime_error, db)
atx attempt n (suc left) body db =
    let again = atx attempt (suc n) left body db in
    elim (attempt n) [
      | Attempt.commits ↦ (ok (body db).0, (body db).1)
      | Attempt.serialization_failure ↦ elim left [ zero ↦ (err serial, db) | suc _ ↦ again ]
      | Attempt.connection_lost ↦ (err operational_error, db)
      | Attempt.lost_after ↦ (err operational_error, (body db).1)
    ]

unfoldable pub aclaim : Env → String → Option String → Option ℕ → Table → Result ClaimResult × Table
unfolding atx claim_body
aclaim env key fp ttl db = atx env.attempt 0 max_retries (claim_body env key fp ttl) db

-- The other asynchronous methods make one attempt, and raise what it raises.
unfoldable pub once_tx : {A : Type 0} → Attempt → (Table → A × Table) → Table → Result A × Table
once_tx Attempt.commits body db = (ok (body db).0, (body db).1)
once_tx Attempt.serialization_failure body db = (err serial, db)
once_tx Attempt.connection_lost body db = (err operational_error, db)
once_tx Attempt.lost_after body db = (err operational_error, (body db).1)

unfoldable pub acommit : Env → String → Bytes → Table → Result (Unit {0}) × Table
unfolding once_tx upsert
acommit env key result db = once_tx (env.attempt 0) (λ d. (tt, commit_sql env key result d)) db

unfoldable pub arelease : Env → String → Option String → Table → Result (Unit {0}) × Table
unfolding once_tx delete
arelease env key token db = once_tx (env.attempt 0) (λ d. (tt, delete_sql key token d)) db

unfoldable pub aheartbeat : Env → String → String → ℕ → Table → Result Bool × Table
unfolding once_tx renew
aheartbeat env key token ttl db =
    once_tx (env.attempt 0) (λ d. heartbeat_sql env key token ttl d) db

unfoldable pub anow : Env → Table → Result ℕ × Table
unfolding once_tx
anow env db = once_tx (env.attempt 0) (λ d. (env.server_now, d)) db

-- `aget` and `alist` are those of base.py, which run the synchronous methods.
unfoldable pub apostgres : Store Table
unfolding aclaim acommit arelease aheartbeat anow get list
apostgres = record {
  claim = aclaim;
  commit = acommit;
  release = arelease;
  heartbeat = aheartbeat;
  now = anow;
  get = get;
  list = list;
}
