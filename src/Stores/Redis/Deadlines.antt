-- ===== src/Stores/Redis/Deadlines.antt =====
-- The scripts of src/exactly_once/stores/redis.py on a committed hash whose deadline has not passed.
use exactly_once.Prelude.{ℕ, ◌<◌, String, ◌≡◌, some, Bytes, inl, inr, Option-cases, arith, eq_iff}
use exactly_once.Types.{State}
use exactly_once.Dict.{lookup, lookup-insert, lookup-remove}
use exactly_once.Stores.Base.{Env}
use exactly_once.Stores.Redis.{
  Hash, Database, find, claim_lua, commit_lua, release_lua, heartbeat_lua, claimed, committed_new,
  committed_over, renewed,
}

-- A committed hash with a deadline, and the scripts before it.
module _ (rk : String) (h : Hash) (deadline : ℕ) (committed : h.state ≡ State.committed)
    (expires : h.expires_at ≡ some deadline) where
  abbrev Retained : Database → Type 0
  Retained db = lookup rk db ≡ some h

  found_before :
      (time : ℕ) (db : Database) → time < deadline → Retained db → find time rk db ≡ some h
  unfolding find
  found_before time db before q = rw (q, find) (rw expires (ground arith))

  pub claim_lua-Retained :
      (env : Env) (j key fp : String) (ttl : ℕ) (db : Database)
      → env.server_now < deadline
      → Retained db
      → Retained (claim_lua env j key fp ttl db).1
  unfolding claim_lua
  claim_lua-Retained env j key fp ttl db before q = elim (Option-cases (find env.server_now j db)) [
    | inl e ↦
        rw (e, claim_lua)
          (ground (
            arith,
            lookup-insert j rk (claimed env fp ttl) db,
            eq_iff j rk,
            found_before env.server_now db before q,
            e,
            q,
          ))
    | inr (x, e) ↦ rw (e, claim_lua) q
  ]

  pub commit_lua-Retained :
      (env : Env) (ttl : ℕ) (j : String) (b : Bytes) (db : Database)
      → env.server_now < deadline
      → Retained db
      → Retained (commit_lua env ttl j b db)
  unfolding commit_lua
  commit_lua-Retained env ttl j b db before q = elim (Option-cases (find env.server_now j db)) [
    | inl e ↦
        rw (e, commit_lua)
          (ground (
            arith,
            lookup-insert j rk (committed_new env ttl b) db,
            eq_iff j rk,
            found_before env.server_now db before q,
            e,
            q,
          ))
    | inr (x, e) ↦
        rw (e, commit_lua)
          (ground (
            arith,
            lookup-insert j rk (committed_over env ttl b x) db,
            eq_iff j rk,
            found_before env.server_now db before q,
            e,
            q,
            committed,
          ))
  ]

  pub release_lua-Retained :
      (env : Env) (j token : String) (db : Database)
      → env.server_now < deadline
      → Retained db
      → Retained (release_lua env j token db)
  unfolding release_lua
  release_lua-Retained env j token db before q = elim (Option-cases (find env.server_now j db)) [
    | inl e ↦ rw (e, release_lua) q
    | inr (x, e) ↦
        rw (e, release_lua)
          (ground (
            arith,
            lookup-remove j rk db,
            eq_iff j rk,
            found_before env.server_now db before q,
            e,
            q,
            committed,
          ))
  ]

  pub heartbeat_lua-Retained :
      (env : Env) (j token : String) (ttl : ℕ) (db : Database)
      → env.server_now < deadline
      → Retained db
      → Retained (heartbeat_lua env j token ttl db).1
  unfolding heartbeat_lua
  heartbeat_lua-Retained env j token ttl db before q =
      elim (Option-cases (find env.server_now j db)) [
        | inl e ↦ rw (e, heartbeat_lua) q
        | inr (x, e) ↦
            rw (e, heartbeat_lua)
              (ground (
                arith,
                lookup-insert j rk (renewed env ttl x) db,
                eq_iff j rk,
                found_before env.server_now db before q,
                e,
                q,
                committed,
              ))
      ]
