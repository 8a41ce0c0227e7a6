-- ===== src/Stores/Memory.antt =====
-- src/exactly_once/stores/memory.py: a dict under a lock. The lock makes each method one step.
pub mod Laws
pub mod Durability
use exactly_once.Prelude.{
  ℕ, ◌+◌, String, Bool, true, false, Option, none, some, List, [], ◌∷◌, Bytes, ◌||◌, not, is_some,
  str_eq, if◌then◌else◌,
}
use exactly_once.Errors.{Result, ok}
use exactly_once.Types.{State, ClaimResult, ClaimRecord, is_state}
use exactly_once.Dict.{Dict, lookup, insert, remove}
use exactly_once.Stores.Base.{Env, Store}

abbrev pub MemoryStore : Type 0
MemoryStore = Dict ClaimRecord

-- `now + lease_ttl if lease_ttl is not None else None`
abbrev pub lease_from : ℕ → Option ℕ → Option ℕ
lease_from now none = none
lease_from now (some ttl) = some (now + ttl)

-- `row.token != token`
abbrev pub token_is : Option String → String → Bool
token_is none token = false
token_is (some t) token = str_eq t token

-- What `claim` answers for a record that is there.
abbrev pub observed : String → ClaimRecord → ClaimResult
observed key row = record {
  state = row.state;
  key = key;
  result = row.result;
  fingerprint = row.fingerprint;
  token = row.token;
  lease_expires_at = row.lease_expires_at;
}

abbrev pub claimed_row : Env → String → Option String → Option ℕ → ClaimRecord
claimed_row env key fp ttl = record {
  key = key;
  state = State.in_flight;
  result = none;
  fingerprint = fp;
  created_at = some env.now;
  updated_at = some env.now;
  token = some env.token;
  lease_expires_at = lease_from env.now ttl;
}

abbrev pub won : Env → String → Option String → Option ℕ → ClaimResult
won env key fp ttl = record {
  state = State.fresh;
  key = key;
  result = none;
  fingerprint = fp;
  token = some env.token;
  lease_expires_at = lease_from env.now ttl;
}

unfoldable pub claim :
    Env → String → Option String → Option ℕ → MemoryStore → Result ClaimResult × MemoryStore
claim env key fp ttl db = elim (lookup key db) [
  | none ↦ (ok (won env key fp ttl), insert key (claimed_row env key fp ttl) db)
  | some row ↦ (ok (observed key row), db)
]

-- The record of a key that is committed with no claim before it.
abbrev pub backfilled : Env → String → Bytes → ClaimRecord
backfilled env key result = record {
  key = key;
  state = State.committed;
  result = some result;
  fingerprint = none;
  created_at = some env.now;
  updated_at = some env.now;
  token = none;
  lease_expires_at = none;
}

unfoldable pub commit : Env → String → Bytes → MemoryStore → Result (Unit {0}) × MemoryStore
commit env key result db = elim (lookup key db) [
  | none ↦ (ok tt, insert key (backfilled env key result) db)
  | some row ↦ if is_state row.state State.committed then (ok tt, db) else (
    ok tt,
    insert key
        (record row { state = State.committed; result = some result; updated_at = some env.now })
        db,
  )
]

-- With a token the record is dropped only if it still has that token.
abbrev pub may_release : ClaimRecord → Option String → Bool
may_release row none = true
may_release row (some token) = token_is row.token token

unfoldable pub release :
    Env → String → Option String → MemoryStore → Result (Unit {0}) × MemoryStore
release env key token db = elim (lookup key db) [
  | none ↦ (ok tt, db)
  | some row ↦
      if is_state row.state State.in_flight
      then (if may_release row token then (ok tt, remove key db) else (ok tt, db))
      else (ok tt, db)
]

unfoldable pub heartbeat : Env → String → String → ℕ → MemoryStore → Result Bool × MemoryStore
heartbeat env key token ttl db = elim (lookup key db) [
  | none ↦ (ok false, db)
  | some row ↦
      if not (is_state row.state State.in_flight) || not (token_is row.token token)
      then (ok false, db)
      else (ok true, insert key (record row { lease_expires_at = some (env.now + ttl) }) db)
]

-- `Store.now` of base.py, which the class does not override.
unfoldable pub now : Env → MemoryStore → Result ℕ × MemoryStore
now env db = (ok env.now, db)

unfoldable pub get : Env → String → MemoryStore → Result (Option ClaimRecord) × MemoryStore
get env key db = (ok (lookup key db), db)

abbrev pub in_state : Option State → ClaimRecord → Bool
in_state none row = true
in_state (some state) row = is_state row.state state

unfoldable pub rows_in : Option State → MemoryStore → List ClaimRecord
rows_in state [] = []
rows_in state ((key, row) ∷ db) =
    let rest = rows_in state db in if in_state state row then row ∷ rest else rest

unfoldable pub list : Env → Option State → MemoryStore → Result (List ClaimRecord) × MemoryStore
unfolding rows_in
list env state db = (ok (rows_in state db), db)

unfoldable pub memory : Store MemoryStore
unfolding claim commit release heartbeat now get list
memory = record {
  claim = claim;
  commit = commit;
  release = release;
  heartbeat = heartbeat;
  now = now;
  get = get;
  list = list;
}

abbrev pub present : MemoryStore → String → Bool
present db key = is_some (lookup key db)
