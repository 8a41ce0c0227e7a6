-- ===== src/Stores/Redis/Retention.antt =====
-- What a `committed_ttl` of src/exactly_once/stores/redis.py takes away, and when.
use exactly_once.Prelude.{
  ℕ, ◌+◌, ◌*◌, ◌<◌, String, false, ◌≡◌, ◌≢◌, refl, ap, ◌∙◌, Option, none, some, List, [], ◌∷◌,
  Bytes, inl, inr, Bool-cases, arith, eq_refl, ltb, if◌then◌else◌,
}
use exactly_once.Errors
use exactly_once.Errors.{Result, ok, ok-inj, store_unavailable}
use exactly_once.Types.{State, ClaimResult, is_state}
use exactly_once.Dict.{lookup, lookup-insert}
use exactly_once.Stores.Base.{Env, Store}
use exactly_once.Stores.Agree.{Request, claim, commit, release, heartbeat, now, get, serve, after}
use exactly_once.Stores.Redis
use exactly_once.Stores.Redis.{
  Hash, Database, find, k, or_empty, or_zero, claim_lua, commit_lua, release_lua, heartbeat_lua,
  redis_with, claimed, committed_new, committed_over, renewed, trip, b_or_none,
}
use exactly_once.Stores.Redis.Laws.{trip-both, trip-ok}
use exactly_once.Stores.Redis.Deadlines.{
  claim_lua-Retained, commit_lua-Retained, release_lua-Retained, heartbeat_lua-Retained,
}

full_bytes : (o : Option Bytes) (c : Bytes) → c ≢ [] → o ≡ some c → b_or_none o ≡ some c
full_bytes o [] full r = absurd (full refl)
full_bytes o (x ∷ xs) full r = rw r refl

-- A hash with a deadline is there until it has passed.
find-by_time :
    (rk : String) (h : Hash) (deadline time : ℕ) (db : Database)
    → lookup rk db ≡ some h
    → h.expires_at ≡ some deadline
    → find time rk db ≡ (if ltb time deadline then some h else none)
unfolding find
find-by_time rk h deadline time db q expires =
    rw (q, find)
      (ap (λ t. if Redis.expired time t then none else some h) expires
        ∙ elim (Bool-cases (ltb time deadline)) [ inl e ↦ ground arith | inr e ↦ ground arith ])

-- All calls are made before the server's clock reaches the deadline.
abbrev pub AllBefore : ℕ → List (Env × Request) → Type 0
AllBefore deadline [] = Unit
AllBefore deadline ((env, q) ∷ rest) = (env.server_now < deadline) × AllBefore deadline rest

module _ (start : String) (committed_ttl : ℕ) (down : Errors.Exception)
    (keys : Database → List String) where
  abbrev store : Store Database
  store = redis_with start committed_ttl down keys

  serve-Retained :
      (rk : String) (h : Hash) (deadline : ℕ) (env : Env) (q : Request) (db : Database)
      → h.state ≡ State.committed
      → h.expires_at ≡ some deadline
      → env.server_now < deadline
      → lookup rk db ≡ some h
      → lookup rk (serve store env q db).1 ≡ some h
  unfolding redis_with Redis.claim Redis.commit Redis.release Redis.heartbeat Redis.now Redis.get
  serve-Retained rk h deadline env (claim key fp ttl) db c e before q =
      trip-both env.link store_unavailable
        (claim_lua env (k start key) key (or_empty fp) (or_zero ttl)) db (λ d. lookup rk d ≡ some h)
        q
        (claim_lua-Retained rk h deadline c e env (k start key) key (or_empty fp) (or_zero ttl) db
          before q)
  serve-Retained rk h deadline env (commit key b) db c e before q =
      trip-both env.link store_unavailable
        (λ d. (tt, commit_lua env committed_ttl (k start key) b d)) db (λ d. lookup rk d ≡ some h) q
        (commit_lua-Retained rk h deadline c e env committed_ttl (k start key) b db before q)
  serve-Retained rk h deadline env (release key token) db c e before q =
      trip-both env.link store_unavailable
        (λ d. (tt, release_lua env (k start key) (or_empty token) d)) db (λ d. lookup rk d ≡ some h)
        q (release_lua-Retained rk h deadline c e env (k start key) (or_empty token) db before q)
  serve-Retained rk h deadline env (heartbeat key token ttl) db c e before q =
      trip-both env.link store_unavailable (heartbeat_lua env (k start key) token ttl) db
        (λ d. lookup rk d ≡ some h) q
        (heartbeat_lua-Retained rk h deadline c e env (k start key) token ttl db before q)
  serve-Retained rk h deadline env now db c e before q =
      trip-both env.link store_unavailable (λ d. (env.server_now, d)) db (λ d. lookup rk d ≡ some h)
        q q
  serve-Retained rk h deadline env (get key) db c e before q =
      trip-both env.link down (λ d. (Redis.read env.server_now start key d, d)) db
        (λ d. lookup rk d ≡ some h) q q

  after-Retained :
      (rk : String) (h : Hash) (deadline : ℕ) (calls : List (Env × Request)) (db : Database)
      → h.state ≡ State.committed
      → h.expires_at ≡ some deadline
      → AllBefore deadline calls
      → lookup rk db ≡ some h
      → lookup rk (after store calls db) ≡ some h
  after-Retained rk h deadline [] db c e before q = q
  after-Retained rk h deadline ((env, r) ∷ rest) db c e (first, later) q =
      after-Retained rk h deadline rest (serve store env r db).1 c e later
        (serve-Retained rk h deadline env r db c e first q)

  -- The commit of a key that is in flight.
  commit-sets :
      (env : Env) (key : String) (b : Bytes) (db : Database) (h : Hash)
      → find env.server_now (k start key) db ≡ some h
      → h.state ≡ State.in_flight
      → (serve store env (commit key b) db).0 ≡ ok tt
      → lookup (k start key) (serve store env (commit key b) db).1
        ≡ some (committed_over env committed_ttl b h)
  unfolding redis_with Redis.commit commit_lua
  commit-sets env key b db h found fl done =
      let open_ : is_state h.state State.committed ≡ false = rw fl refl in
      let (_, left) =
        trip-ok env.link store_unavailable
          (λ d. (tt, commit_lua env committed_ttl (k start key) b d)) db tt done in
      rw left (
        rw (found, commit_lua)
          (rw open_ (
            rw
              (
                lookup-insert (k start key) (k start key) (committed_over env committed_ttl b h) db,
                eq_refl,
              )
              refl)))

  -- What a later claim is answered, by whether the deadline has passed.
  claim-by_time :
      (h : Hash) (deadline : ℕ) (env : Env) (key : String) (fp : Option String) (ttl : Option ℕ)
      (b : Bytes) (db : Database) (c : ClaimResult)
      → lookup (k start key) db ≡ some h
      → h.state ≡ State.committed
      → h.expires_at ≡ some deadline
      → h.result ≡ some b
      → b ≢ []
      → (serve store env (claim key fp ttl) db).0 ≡ ok c
      → (c.state ≡ (if ltb env.server_now deadline then State.committed else State.fresh))
        × (c.result ≡ (if ltb env.server_now deadline then some b else none))
  unfolding redis_with Redis.claim claim_lua
  claim-by_time h deadline env key fp ttl b db c q committed expires has full answered =
      let script : Database → ClaimResult × Database =
        claim_lua env (k start key) key (or_empty fp) (or_zero ttl) in
      let is : (script db).0 ≡ c =
        ok-inj ((trip-ok env.link store_unavailable script db c answered).0 ∙ answered) in
      rw (← is) (
        rw (find-by_time (k start key) h deadline env.server_now db q expires, claim_lua)
          (elim (Bool-cases (ltb env.server_now deadline)) [
            | inl e ↦ rw e (committed, full_bytes h.result b full has)
            | inr e ↦ rw e (refl, refl)
          ]))

  -- A key that is in flight and committed with the result `b`, with a `committed_ttl`: whatever is
  -- called before the server's clock has moved on by it, a later claim of the key that is answered is
  -- answered COMMITTED with `b`, if that is not empty, before the clock has moved on by it, and FRESH
  -- from then on, so that the effect may be run again.
  pub retained_until :
      (env : Env) (key : String) (b : Bytes) (db : Database) (h : Hash)
      (calls : List (Env × Request)) (later : Env) (fp : Option String) (ttl : Option ℕ)
      (c : ClaimResult)
      → 0 < committed_ttl
      → find env.server_now (k start key) db ≡ some h
      → h.state ≡ State.in_flight
      → (serve store env (commit key b) db).0 ≡ ok tt
      → b ≢ []
      → let deadline = env.server_now + committed_ttl * 1000000 in
        AllBefore deadline calls
        → (serve store later (claim key fp ttl) (after store ((env, commit key b) ∷ calls) db)).0
          ≡ ok c
        → (c.state ≡ (if ltb later.server_now deadline then State.committed else State.fresh))
          × (c.result ≡ (if ltb later.server_now deadline then some b else none))
  retained_until env key b db h calls later fp ttl c positive found fl done full before answered =
      let deadline = env.server_now + committed_ttl * 1000000 in
      let expires : (committed_over env committed_ttl b h).expires_at ≡ some deadline =
        ground arith in
      claim-by_time (committed_over env committed_ttl b h) deadline later key fp ttl b
        (after store ((env, commit key b) ∷ calls) db) c
        (after-Retained (k start key) (committed_over env committed_ttl b h) deadline calls
          (serve store env (commit key b) db).1 refl expires before
          (commit-sets env key b db h found fl done))
        refl expires refl full answered
