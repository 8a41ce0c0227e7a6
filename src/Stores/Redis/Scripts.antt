-- ===== src/Stores/Redis/Scripts.antt =====
-- The hashes and the Lua scripts of src/exactly_once/stores/redis.py, which a Redis server runs as one
-- step each. Times are numbers where Redis keeps their decimal text.
use exactly_once.Prelude.{
  ℕ, ◌+◌, ◌*◌, String, Bool, true, false, Option, none, some, [], ◌∷◌, Bytes, ◌&&◌, ltb, leb,
  str_eq, str_append, if◌then◌else◌,
}
use exactly_once.Types.{State, ClaimResult, ClaimRecord, is_state}
use exactly_once.Dict.{Dict, lookup, insert, remove}
use exactly_once.Stores.Base.{Env}

-- A hash; `none` is a field that is not set. Past `expires_at` the server has dropped it.
pub record Hash : Type 0 where
  pub state : State
  pub result : Option Bytes
  pub fingerprint : Option String
  pub created_at : Option ℕ
  pub updated_at : Option ℕ
  pub token : Option String
  pub lease_expires_at : Option ℕ
  pub expires_at : Option ℕ

abbrev pub Database : Type 0
Database = Dict Hash

abbrev pub expired : ℕ → Option ℕ → Bool
expired now none = false
expired now (some t) = leb t now

abbrev if_live : ℕ → Hash → Option Hash
if_live now h = if expired now h.expires_at then none else some h

unfoldable pub find : ℕ → String → Database → Option Hash
find now k db = elim (lookup k db) [ none ↦ none | some h ↦ if_live now h ]

-- `_b` and `_s`, for which an empty value is no value.
abbrev pub b_or_none : Option Bytes → Option Bytes
b_or_none none = none
b_or_none (some []) = none
b_or_none (some (b ∷ bs)) = some (b ∷ bs)

abbrev pub s_or_none : Option String → Option String
s_or_none none = none
s_or_none (some s) = if str_eq s "" then none else some s

-- `x or ""` and `x or 0` of an argument.
abbrev pub or_empty : Option String → String
or_empty none = ""
or_empty (some s) = s

abbrev pub or_zero : Option ℕ → ℕ
or_zero none = 0
or_zero (some n) = n

-- The lease of `_CLAIM_LUA`: the empty text for a lease of no length.
abbrev pub lease_from : ℕ → ℕ → Option ℕ
lease_from now ttl = if ltb 0 ttl then some (now + ttl) else none

-- HGET of the token against an argument; a field that is not set equals nothing.
abbrev pub token_is : Option String → String → Bool
token_is none token = false
token_is (some t) token = str_eq t token

abbrev pub k : String → String → String
k start key = str_append start key

abbrev pub claimed : Env → String → ℕ → Hash
claimed env fp ttl = record {
  state = State.in_flight;
  result = none;
  fingerprint = some fp;
  created_at = some env.now;
  updated_at = some env.now;
  token = some env.token;
  lease_expires_at = lease_from env.server_now ttl;
  expires_at = none;
}

abbrev pub won : Env → String → String → ℕ → ClaimResult
won env key fp ttl = record {
  state = State.fresh;
  key = key;
  result = b_or_none (some []);
  fingerprint = s_or_none (some fp);
  token = s_or_none (some env.token);
  lease_expires_at = lease_from env.server_now ttl;
}

abbrev pub answered : String → Hash → ClaimResult
answered key h = record {
  state = h.state;
  key = key;
  result = b_or_none h.result;
  fingerprint = s_or_none h.fingerprint;
  token = s_or_none h.token;
  lease_expires_at = h.lease_expires_at;
}

abbrev pub hash_to_record : String → Hash → ClaimRecord
hash_to_record key h = record {
  key = key;
  state = h.state;
  result = b_or_none h.result;
  fingerprint = s_or_none h.fingerprint;
  created_at = h.created_at;
  updated_at = h.updated_at;
  token = s_or_none h.token;
  lease_expires_at = h.lease_expires_at;
}

-- The scripts, run on the hash under a Redis key `rk`.
unfoldable pub claim_lua : Env → String → String → String → ℕ → Database → ClaimResult × Database
unfolding find
claim_lua env rk key fp ttl db = elim (find env.server_now rk db) [
  | none ↦ (won env key fp ttl, insert rk (claimed env fp ttl) db)
  | some h ↦ (answered key h, db)
]

-- EXPIRE, in seconds.
abbrev pub expire : ℕ → ℕ → Option ℕ → Option ℕ
expire now committed_ttl before =
    if ltb 0 committed_ttl then some (now + committed_ttl * 1000000) else before

abbrev pub committed_new : Env → ℕ → Bytes → Hash
committed_new env ttl result = record {
  state = State.committed;
  result = some result;
  fingerprint = none;
  created_at = none;
  updated_at = some env.now;
  token = none;
  lease_expires_at = none;
  expires_at = expire env.server_now ttl none;
}

abbrev pub committed_over : Env → ℕ → Bytes → Hash → Hash
committed_over env ttl result h = record h {
  state = State.committed;
  result = some result;
  updated_at = some env.now;
  expires_at = expire env.server_now ttl h.expires_at;
}

unfoldable pub commit_lua : Env → ℕ → String → Bytes → Database → Database
unfolding find
commit_lua env ttl rk result db = elim (find env.server_now rk db) [
  | none ↦ insert rk (committed_new env ttl result) db
  | some h ↦
      if is_state h.state State.committed
      then db
      else insert rk (committed_over env ttl result h) db
]

abbrev pub may_release : String → Hash → Bool
may_release token h =
    is_state h.state State.in_flight && (if str_eq token "" then true else token_is h.token token)

unfoldable pub release_lua : Env → String → String → Database → Database
unfolding find
release_lua env rk token db = elim (find env.server_now rk db) [
  | none ↦ db
  | some h ↦ if may_release token h then remove rk db else db
]

abbrev pub renewed : Env → ℕ → Hash → Hash
renewed env ttl h = record h { lease_expires_at = some (env.server_now + ttl) }

unfoldable pub heartbeat_lua : Env → String → String → ℕ → Database → Bool × Database
unfolding find
heartbeat_lua env rk token ttl db = elim (find env.server_now rk db) [
  | none ↦ (false, db)
  | some h ↦
      if is_state h.state State.in_flight && token_is h.token token
      then (true, insert rk (renewed env ttl h) db)
      else (false, db)
]
