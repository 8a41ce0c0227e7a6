-- ===== src/Stores/Redis/Async.antt =====
-- The asynchronous half of src/exactly_once/stores/redis.py: the same scripts over a client of its own.
use exactly_once.Prelude.{ℕ, String, ◌≡◌, refl, Bool, Option, List, Bytes}
use exactly_once.Errors.{Result, store_unavailable, connection_error}
use exactly_once.Types.{State, ClaimResult, ClaimRecord}
use exactly_once.Stores.Base.{Env, Store}
use exactly_once.Stores.Redis.{
  Database, k, or_empty, or_zero, claim_lua, commit_lua, release_lua, heartbeat_lua, trip, read,
  records_of, redis_with,
}

module _ (start : String) (committed_ttl : ℕ) where
  unfoldable pub aclaim :
      Env → String → Option String → Option ℕ → Database → Result ClaimResult × Database
  unfolding trip claim_lua
  aclaim env key fp ttl db =
      trip env.link store_unavailable (claim_lua env (k start key) key (or_empty fp) (or_zero ttl))
        db

  unfoldable pub acommit : Env → String → Bytes → Database → Result (Unit {0}) × Database
  unfolding trip commit_lua
  acommit env key result db =
      trip env.link store_unavailable
        (λ d. (tt, commit_lua env committed_ttl (k start key) result d)) db

  unfoldable pub arelease : Env → String → Option String → Database → Result (Unit {0}) × Database
  unfolding trip release_lua
  arelease env key token db =
      trip env.link store_unavailable (λ d. (tt, release_lua env (k start key) (or_empty token) d))
        db

  unfoldable pub aheartbeat : Env → String → String → ℕ → Database → Result Bool × Database
  unfolding trip heartbeat_lua
  aheartbeat env key token ttl db =
      trip env.link store_unavailable (heartbeat_lua env (k start key) token ttl) db

  unfoldable pub anow : Env → Database → Result ℕ × Database
  unfolding trip
  anow env db = trip env.link store_unavailable (λ d. (env.server_now, d)) db

  -- A lost connection is StoreUnavailableError here, and is raised as it is by `get`.
  unfoldable pub aget : Env → String → Database → Result (Option ClaimRecord) × Database
  unfolding trip read
  aget env key db = trip env.link store_unavailable (λ d. (read env.server_now start key d, d)) db

  unfoldable pub alist :
      (Database → List String)
      → Env
      → Option State
      → Database
      → Result (List ClaimRecord) × Database
  unfolding trip records_of
  alist keys env state db =
      trip env.link connection_error (λ d. (records_of start committed_ttl env state (keys d) d, d))
        db

  unfoldable pub aredis : (Database → List String) → Store Database
  unfolding aclaim acommit arelease aheartbeat anow aget alist
  aredis keys = record {
    claim = aclaim;
    commit = acommit;
    release = arelease;
    heartbeat = aheartbeat;
    now = anow;
    get = aget;
    list = alist keys;
  }

  -- The asynchronous half is the store whose `get` raises StoreUnavailableError.
  pub aredis_lem :
      (keys : Database → List String)
      → aredis keys ≡ redis_with start committed_ttl store_unavailable keys
  unfolding aredis redis_with
  aredis_lem keys = refl
