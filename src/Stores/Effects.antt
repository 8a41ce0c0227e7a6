-- ===== src/Stores/Effects.antt =====
-- The table `effects` of the SQL stores, src/exactly_once/stores/sqlite.py and postgres.py: its rows
-- under their PRIMARY KEY, and the statements that both stores run on it.
pub mod Laws
pub mod Durability
use exactly_once.Prelude.{
  ℕ, ◌+◌, ◌≡◌, String, Bool, true, false, Option, none, some, List, [], ◌∷◌, Bytes, ◌&&◌, not,
  is_some, str_eq, if◌then◌else◌,
}
use exactly_once.Types.{State, ClaimResult, ClaimRecord, is_state}
use exactly_once.Dict.{Dict, lookup, insert, remove}

-- The columns but for `key`.
pub record EffectRow : Type 0 where
  pub state : State
  pub result : Option Bytes
  pub fingerprint : Option String
  pub created_at : ℕ
  pub updated_at : ℕ
  pub token : Option String
  pub lease_expires_at : Option ℕ

abbrev pub Table : Type 0
Table = Dict EffectRow

-- SQL's `token = ?`, which no row with a NULL token meets.
abbrev pub token_is : Option String → String → Bool
token_is none token = false
token_is (some t) token = str_eq t token

abbrev pub inserted : ℕ → Option String → String → Option ℕ → EffectRow
inserted now fp token lease = record {
  state = State.in_flight;
  result = none;
  fingerprint = fp;
  created_at = now;
  updated_at = now;
  token = some token;
  lease_expires_at = lease;
}

abbrev pub won : String → Option String → String → Option ℕ → ClaimResult
won key fp token lease = record {
  state = State.fresh;
  key = key;
  result = none;
  fingerprint = fp;
  token = some token;
  lease_expires_at = lease;
}

-- The claim result of a row that was selected.
abbrev pub selected : String → EffectRow → ClaimResult
selected key row = record {
  state = row.state;
  key = key;
  result = row.result;
  fingerprint = row.fingerprint;
  token = row.token;
  lease_expires_at = row.lease_expires_at;
}

abbrev pub row_to_record : String → EffectRow → ClaimRecord
row_to_record key row = record {
  key = key;
  state = row.state;
  result = row.result;
  fingerprint = row.fingerprint;
  created_at = some row.created_at;
  updated_at = some row.updated_at;
  token = row.token;
  lease_expires_at = row.lease_expires_at;
}

-- The row of a key that is committed with no claim before it.
abbrev pub backfilled : ℕ → Bytes → EffectRow
backfilled now result = record {
  state = State.committed;
  result = some result;
  fingerprint = none;
  created_at = now;
  updated_at = now;
  token = none;
  lease_expires_at = none;
}

-- ON CONFLICT(key) DO UPDATE
abbrev pub overwritten : ℕ → Bytes → EffectRow → EffectRow
overwritten now result row = record row {
  state = State.committed;
  result = some result;
  updated_at = now;
  lease_expires_at = none;
}

-- INSERT … ON CONFLICT(key) DO UPDATE, unless the row is committed.
unfoldable pub upsert : ℕ → String → Bytes → Table → Table
upsert now key result db = elim (lookup key db) [
  | none ↦ insert key (backfilled now result) db
  | some row ↦
      if is_state row.state State.committed then db else insert key (overwritten now result row) db
]

-- The WHERE clause of the two DELETE statements.
abbrev pub deletes : Option String → EffectRow → Bool
deletes none row = is_state row.state State.in_flight
deletes (some token) row = is_state row.state State.in_flight && token_is row.token token

unfoldable pub delete : String → Option String → Table → Table
delete key token db = elim (lookup key db) [
  | none ↦ db
  | some row ↦ if deletes token row then remove key db else db
]

-- The UPDATE of a heartbeat, and whether it met a row.
unfoldable pub renew : ℕ → String → String → Table → Bool × Table
renew deadline key token db = elim (lookup key db) [
  | none ↦ (false, db)
  | some row ↦
      if is_state row.state State.in_flight && token_is row.token token
      then (true, insert key (record row { lease_expires_at = some deadline }) db)
      else (false, db)
]

unfoldable pub select : String → Table → Option ClaimRecord
select key db = elim (lookup key db) [ none ↦ none | some row ↦ some (row_to_record key row) ]

abbrev pub in_state : Option State → EffectRow → Bool
in_state none row = true
in_state (some state) row = is_state row.state state

unfoldable pub select_all : Option State → Table → List ClaimRecord
select_all state [] = []
select_all state ((key, row) ∷ db) =
    let rest = select_all state db in
    if in_state state row then row_to_record key row ∷ rest else rest
