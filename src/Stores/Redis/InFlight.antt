-- ===== src/Stores/Redis/InFlight.antt =====
-- A `committed_ttl` of src/exactly_once/stores/redis.py is no limit for a key that is in flight.
use exactly_once.Prelude.{
  ℕ, String, ◌≡◌, ap, sym, ◌∙◌, Option, none, some, List, [], ◌∷◌, Bytes, inl, inr, Option-cases,
  arith, eq_iff, if◌then◌else◌,
}
use exactly_once.Errors
use exactly_once.Errors.{ok, ok-inj, store_unavailable}
use exactly_once.Types.{State, ClaimResult}
use exactly_once.Dict.{lookup, lookup-insert, lookup-remove}
use exactly_once.Stores.Base.{Env, Store}
use exactly_once.Stores.Agree.{Request, claim, commit, release, heartbeat, now, get, serve, after}
use exactly_once.Stores.Redis
use exactly_once.Stores.Redis.{
  Hash, Database, find, k, or_empty, or_zero, claim_lua, commit_lua, release_lua, heartbeat_lua,
  redis_with, claimed, committed_new, committed_over, renewed,
}
use exactly_once.Stores.Redis.Laws.{trip-both, trip-ok}

-- No hash that is in flight has a deadline.
abbrev IsTimed : Database → Type 0
IsTimed db =
    (rk : String) (h : Hash)
    → lookup rk db ≡ some h
    → h.state ≡ State.in_flight
    → h.expires_at ≡ none

lookup-find :
    (time : ℕ) (rk : String) (db : Database) (h : Hash)
    → find time rk db ≡ some h
    → lookup rk db ≡ some h
unfolding find
lookup-find time rk db h e = elim (Option-cases (lookup rk db)) [
  | inl q ↦ absurd (ground (arith, q, e))
  | inr (x, q) ↦ ground (arith, q, e)
]

claim_lua-IsTimed :
    (env : Env) (j key fp : String) (ttl : ℕ) (db : Database)
    → IsTimed db
    → IsTimed (claim_lua env j key fp ttl db).1
unfolding claim_lua
claim_lua-IsTimed env j key fp ttl db v = elim (Option-cases (find env.server_now j db)) [
  | inl e ↦
      rw (e, claim_lua)
        (λ rk h q fl.
          ground (arith, lookup-insert j rk (claimed env fp ttl) db, eq_iff j rk, v rk h, q, fl))
  | inr (x, e) ↦ rw (e, claim_lua) v
]

commit_lua-IsTimed :
    (env : Env) (ttl : ℕ) (j : String) (b : Bytes) (db : Database)
    → IsTimed db
    → IsTimed (commit_lua env ttl j b db)
unfolding commit_lua
commit_lua-IsTimed env ttl j b db v = elim (Option-cases (find env.server_now j db)) [
  | inl e ↦
      rw (e, commit_lua)
        (λ rk h q fl.
          ground
            (arith, lookup-insert j rk (committed_new env ttl b) db, eq_iff j rk, v rk h, q, fl))
  | inr (x, e) ↦
      rw (e, commit_lua)
        (λ rk h q fl.
          ground
            (arith, lookup-insert j rk (committed_over env ttl b x) db, eq_iff j rk, v rk h, q, fl))
]

release_lua-IsTimed :
    (env : Env) (j token : String) (db : Database)
    → IsTimed db
    → IsTimed (release_lua env j token db)
unfolding release_lua
release_lua-IsTimed env j token db v = elim (Option-cases (find env.server_now j db)) [
  | inl e ↦ rw (e, release_lua) v
  | inr (x, e) ↦
      rw (e, release_lua)
        (λ rk h q fl. ground (arith, lookup-remove j rk db, eq_iff j rk, v rk h, q, fl))
]

heartbeat_lua-IsTimed :
    (env : Env) (j token : String) (ttl : ℕ) (db : Database)
    → IsTimed db
    → IsTimed (heartbeat_lua env j token ttl db).1
unfolding heartbeat_lua
heartbeat_lua-IsTimed env j token ttl db v = elim (Option-cases (find env.server_now j db)) [
  | inl e ↦ rw (e, heartbeat_lua) v
  | inr (x, e) ↦
      rw (e, heartbeat_lua)
        (λ rk h q fl. ground (
          arith,
          lookup-insert j rk (renewed env ttl x) db,
          eq_iff j rk,
          v rk h,
          v j x (lookup-find env.server_now j db x e),
          q,
          fl,
        ))
]

module _ (start : String) (committed_ttl : ℕ) (down : Errors.Exception)
    (keys : Database → List String) where
  abbrev store : Store Database
  store = redis_with start committed_ttl down keys

  serve-IsTimed :
      (env : Env) (q : Request) (db : Database) → IsTimed db → IsTimed (serve store env q db).1
  unfolding redis_with Redis.claim Redis.commit Redis.release Redis.heartbeat Redis.now Redis.get
  serve-IsTimed env (claim key fp ttl) db v =
      trip-both env.link store_unavailable
        (claim_lua env (k start key) key (or_empty fp) (or_zero ttl)) db IsTimed v
        (claim_lua-IsTimed env (k start key) key (or_empty fp) (or_zero ttl) db v)
  serve-IsTimed env (commit key b) db v =
      trip-both env.link store_unavailable
        (λ d. (tt, commit_lua env committed_ttl (k start key) b d)) db IsTimed v
        (commit_lua-IsTimed env committed_ttl (k start key) b db v)
  serve-IsTimed env (release key token) db v =
      trip-both env.link store_unavailable
        (λ d. (tt, release_lua env (k start key) (or_empty token) d)) db IsTimed v
        (release_lua-IsTimed env (k start key) (or_empty token) db v)
  serve-IsTimed env (heartbeat key token ttl) db v =
      trip-both env.link store_unavailable (heartbeat_lua env (k start key) token ttl) db IsTimed v
        (heartbeat_lua-IsTimed env (k start key) token ttl db v)
  serve-IsTimed env now db v =
      trip-both env.link store_unavailable (λ d. (env.server_now, d)) db IsTimed v v
  serve-IsTimed env (get key) db v =
      trip-both env.link down (λ d. (Redis.read env.server_now start key d, d)) db IsTimed v v

  after-IsTimed :
      (calls : List (Env × Request)) (db : Database) → IsTimed db → IsTimed (after store calls db)
  after-IsTimed [] db v = v
  after-IsTimed ((env, q) ∷ rest) db v =
      after-IsTimed rest (serve store env q db).1 (serve-IsTimed env q db v)

  -- Whatever `committed_ttl` a Redis store has, and however late the server's clock is: after any
  -- calls on a new database, a claim of a key whose hash is in flight, if it is answered, is answered
  -- IN_FLIGHT.
  pub in_flight_never_expires :
      (calls : List (Env × Request)) (later : Env) (key : String) (fp : Option String)
      (ttl : Option ℕ) (h : Hash) (c : ClaimResult)
      → lookup (k start key) (after store calls []) ≡ some h
      → h.state ≡ State.in_flight
      → (serve store later (claim key fp ttl) (after store calls [])).0 ≡ ok c
      → c.state ≡ State.in_flight
  unfolding redis_with Redis.claim claim_lua find lookup
  in_flight_never_expires calls later key fp ttl h c q fl answered =
      let db = after store calls [] in
      let script : Database → ClaimResult × Database =
        claim_lua later (k start key) key (or_empty fp) (or_zero ttl) in
      let is : (script db).0 ≡ c =
        ok-inj ((trip-ok later.link store_unavailable script db c answered).0 ∙ answered) in
      let stays = after-IsTimed calls [] (λ rk x e. absurd (cc)) (k start key) h q fl in
      let found : find later.server_now (k start key) db ≡ some h =
        rw (q, find) (ap (λ t. if Redis.expired later.server_now t then none else some h) stays) in
      sym (ap (λ x. x.state) is) ∙ rw (found, claim_lua) fl
