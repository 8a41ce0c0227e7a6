-- ===== src/Stores/Redis.antt =====
-- src/exactly_once/stores/redis.py: one Lua script to a method, which a Redis server runs as one
-- step. Times are numbers where Redis keeps their decimal text.
mod Scripts
pub mod Laws
pub mod Durability
pub mod Async
pub mod Deadlines
pub mod Retention
pub mod InFlight
use exactly_once.Prelude.{
  ℕ, ◌+◌, ◌*◌, ◌≡◌, String, Bool, true, false, Option, none, some, List, [], ◌∷◌, Bytes, ◌&&◌, ltb,
  leb, str_eq, str_append, if◌then◌else◌, Option-cases,
}
use exactly_once.Errors
use exactly_once.Errors.{Result, ok, err, store_unavailable}
use exactly_once.Types.{State, ClaimResult, ClaimRecord, is_state}
use exactly_once.Dict.{Dict, lookup, insert, remove}
use exactly_once.Stores.Base.{Env, Store, Link}
unfoldable pub use Scripts.*

-- A round trip to the server; `down` is what the method raises for a lost connection.
unfoldable pub trip :
    {A : Type 0}
    → Link
    → Errors.Exception
    → (Database → A × Database)
    → Database
    → Result A × Database
trip Link.up down script db = (ok (script db).0, (script db).1)
trip Link.lost down script db = (err down, db)
trip Link.lost_reply down script db = (err down, (script db).1)

unfoldable pub read : ℕ → String → String → Database → Option ClaimRecord
unfolding find
read now start key db = elim (find now (k start key) db) [
  | none ↦ none
  | some h ↦ some (hash_to_record key h)
]

abbrev pub in_state : Option State → ClaimRecord → Bool
in_state none rec = true
in_state (some s) rec = is_state rec.state s

-- The store with a prefix and a `committed_ttl`. The asynchronous methods run the same scripts; only
-- of `get` do the two forms differ, in what a lost connection raises. `keys` is the answer of
-- SCAN, with the prefix cut off.
module _ (start : String) (committed_ttl : ℕ) where
  unfoldable pub claim :
      Env → String → Option String → Option ℕ → Database → Result ClaimResult × Database
  unfolding trip claim_lua
  claim env key fp ttl db =
      trip env.link store_unavailable (claim_lua env (k start key) key (or_empty fp) (or_zero ttl))
        db

  unfoldable pub commit : Env → String → Bytes → Database → Result (Unit {0}) × Database
  unfolding trip commit_lua
  commit env key result db =
      trip env.link store_unavailable
        (λ d. (tt, commit_lua env committed_ttl (k start key) result d)) db

  unfoldable pub release : Env → String → Option String → Database → Result (Unit {0}) × Database
  unfolding trip release_lua
  release env key token db =
      trip env.link store_unavailable (λ d. (tt, release_lua env (k start key) (or_empty token) d))
        db

  unfoldable pub heartbeat : Env → String → String → ℕ → Database → Result Bool × Database
  unfolding trip heartbeat_lua
  heartbeat env key token ttl db =
      trip env.link store_unavailable (heartbeat_lua env (k start key) token ttl) db

  unfoldable pub now : Env → Database → Result ℕ × Database
  unfolding trip
  now env db = trip env.link store_unavailable (λ d. (env.server_now, d)) db

  unfoldable pub get :
      Errors.Exception → Env → String → Database → Result (Option ClaimRecord) × Database
  unfolding trip read
  get down env key db = trip env.link down (λ d. (read env.server_now start key d, d)) db

  unfoldable pub records_of : Env → Option State → List String → Database → List ClaimRecord
  unfolding read
  records_of env state [] db = []
  records_of env state (key ∷ keys) db =
      let rest = records_of env state keys db in
      elim (read env.server_now start key db) [
        | none ↦ rest
        | some rec ↦ if in_state state rec then rec ∷ rest else rest
      ]

  unfoldable pub list :
      (Database → List String)
      → Env
      → Option State
      → Database
      → Result (List ClaimRecord) × Database
  unfolding trip records_of
  list keys env state db =
      trip env.link Errors.Exception.connection_error (λ d. (records_of env state (keys d) d, d)) db

  -- `RedisStore` and its asynchronous half, given what their `get` and `list` raise.
  unfoldable pub redis_with : Errors.Exception → (Database → List String) → Store Database
  unfolding claim commit release heartbeat now get list
  redis_with down keys = record {
    claim = claim;
    commit = commit;
    release = release;
    heartbeat = heartbeat;
    now = now;
    get = get down;
    list = list keys;
  }
