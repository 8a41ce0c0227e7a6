-- ===== src/Stores/Redis/Durability.antt =====
-- What a Redis store without a `committed_ttl` has committed stays committed.
use exactly_once.Prelude.{
  ℕ, String, ◌≡◌, ◌≢◌, refl, inl, inr, Option-cases, none, some, Option, List, Bytes, [], ◌∷◌,
  arith, eq_iff, if◌then◌else◌,
}
use exactly_once.Errors
use exactly_once.Errors.{ok, store_unavailable}
use exactly_once.Types.{State, ClaimResult, is_state}
use exactly_once.Dict.{lookup, lookup-insert, lookup-remove}
use exactly_once.Stores.Base.{Env, Link, Durable}
use exactly_once.Stores.Redis
use exactly_once.Stores.Redis.{
  Hash, Database, k, or_empty, or_zero, claim_lua, commit_lua, release_lua, heartbeat_lua, trip,
  redis_with, claimed, committed_new, committed_over, renewed, answered, may_release, b_or_none,
}
use exactly_once.Stores.Redis.Laws.{IsValid, find-lookup, trip-both, trip-ok}

abbrev pub hash_result : Hash → Option Bytes
hash_result h = if is_state h.state State.committed then h.result else none

-- By the key in the database.
abbrev pub hash_at : Database → String → Option Bytes
hash_at db rk = elim (lookup rk db) [ none ↦ none | some h ↦ hash_result h ]

abbrev pub result_under : String → Database → String → Option Bytes
result_under start db key = hash_at db (k start key)

-- What a script holds.
abbrev Held : Database → Database → Type 0
Held db db' = (rk : String) (b : Bytes) → hash_at db rk ≡ some b → hash_at db' rk ≡ some b

claim_lua-Held :
    (env : Env) (rk key fp : String) (ttl : ℕ) (db : Database)
    → IsValid db
    → Held db (claim_lua env rk key fp ttl db).1
unfolding claim_lua
claim_lua-Held env rk key fp ttl db v j b q = elim (Option-cases (lookup rk db)) [
  | inl e ↦
      rw (find-lookup env.server_now rk db v, e, claim_lua)
        (ground (arith, lookup-insert rk j (claimed env fp ttl) db, eq_iff rk j, e, q))
  | inr (h, e) ↦ rw (find-lookup env.server_now rk db v, e, claim_lua) q
]

commit_lua-Held :
    (env : Env) (rk : String) (r : Bytes) (db : Database)
    → IsValid db
    → Held db (commit_lua env 0 rk r db)
unfolding commit_lua
commit_lua-Held env rk r db v j b q = elim (Option-cases (lookup rk db)) [
  | inl e ↦
      rw (find-lookup env.server_now rk db v, e, commit_lua)
        (ground (arith, lookup-insert rk j (committed_new env 0 r) db, eq_iff rk j, e, q))
  | inr (h, e) ↦
      rw (find-lookup env.server_now rk db v, e, commit_lua)
        (ground (arith, lookup-insert rk j (committed_over env 0 r h) db, eq_iff rk j, e, q))
]

commit_lua-sets :
    (env : Env) (rk : String) (r : Bytes) (db : Database)
    → IsValid db
    → hash_at db rk ≡ none
    → hash_at (commit_lua env 0 rk r db) rk ≡ some r
unfolding commit_lua
commit_lua-sets env rk r db v q = elim (Option-cases (lookup rk db)) [
  | inl e ↦
      rw (find-lookup env.server_now rk db v, e, commit_lua)
        (ground (arith, lookup-insert rk rk (committed_new env 0 r) db, eq_iff rk rk))
  | inr (h, e) ↦
      rw (find-lookup env.server_now rk db v, e, commit_lua)
        (ground (
          arith,
          lookup-insert rk rk (committed_over env 0 r h) db,
          eq_iff rk rk,
          e,
          q,
          (v.at rk h e).has_result,
        ))
]

release_lua-Held :
    (env : Env) (rk token : String) (db : Database)
    → IsValid db
    → Held db (release_lua env rk token db)
unfolding release_lua
release_lua-Held env rk token db v j b q = elim (Option-cases (lookup rk db)) [
  | inl e ↦ rw (find-lookup env.server_now rk db v, e, release_lua) q
  | inr (h, e) ↦
      rw (find-lookup env.server_now rk db v, e, release_lua)
        (ground (arith, lookup-remove rk j db, eq_iff rk j, e, q))
]

heartbeat_lua-Held :
    (env : Env) (rk token : String) (ttl : ℕ) (db : Database)
    → IsValid db
    → Held db (heartbeat_lua env rk token ttl db).1
unfolding heartbeat_lua
heartbeat_lua-Held env rk token ttl db v j b q = elim (Option-cases (lookup rk db)) [
  | inl e ↦ rw (find-lookup env.server_now rk db v, e, heartbeat_lua) q
  | inr (h, e) ↦
      rw (find-lookup env.server_now rk db v, e, heartbeat_lua)
        (ground (arith, lookup-insert rk j (renewed env ttl h) db, eq_iff rk j, e, q))
]

claim_lua-replays :
    (env : Env) (rk key fp : String) (ttl : ℕ) (db : Database) (b : Bytes)
    → IsValid db
    → hash_at db rk ≡ some b
    → ((claim_lua env rk key fp ttl db).0.state ≡ State.committed)
      × (b ≢ [] → (claim_lua env rk key fp ttl db).0.result ≡ some b)
unfolding claim_lua
claim_lua-replays env rk key fp ttl db b v q = elim (Option-cases (lookup rk db)) [
  | inl e ↦ absurd (ground (arith, e, q))
  | inr (h, e) ↦
      rw (find-lookup env.server_now rk db v, e, claim_lua)
        (ground (arith, e, q), λ full. by_bytes h.result b full (ground (arith, e, q)))
]
  where
    by_bytes : (o : Option Bytes) (c : Bytes) → c ≢ [] → o ≡ some c → b_or_none o ≡ some c
    by_bytes o [] full r = absurd (full refl)
    by_bytes o (x ∷ xs) full r = rw r refl

claim_lua-opens :
    (env : Env) (rk key fp : String) (ttl : ℕ) (db : Database)
    → IsValid db
    → (claim_lua env rk key fp ttl db).0.state ≡ State.fresh
    → hash_at (claim_lua env rk key fp ttl db).1 rk ≡ none
unfolding claim_lua
claim_lua-opens env rk key fp ttl db v fresh = elim (Option-cases (lookup rk db)) [
  | inl e ↦
      rw (find-lookup env.server_now rk db v, e, claim_lua)
        (ground (arith, lookup-insert rk rk (claimed env fp ttl) db, eq_iff rk rk))
  | inr (h, e) ↦
      absurd
        ((v.at rk h e).not_fresh (ground (arith, find-lookup env.server_now rk db v, e, fresh)))
]

module _ (start : String) (keys : Database → List String) (down : Errors.Exception) where
  -- However its round trip ends, a method holds what its script holds.
  trip-Holds :
      {A : Type 0} (link : Link) (script : Database → A × Database) (db : Database) (j : String)
      (b : Bytes)
      → Held db (script db).1
      → result_under start db j ≡ some b
      → result_under start (trip link store_unavailable script db).1 j ≡ some b
  trip-Holds link script db j b held q =
      trip-both link store_unavailable script db (λ d. result_under start d j ≡ some b) q
        (held (k start j) b q)

  -- With no `committed_ttl`, under any prefix and whatever round trips lose their request or their
  -- answer: what is committed under a key stays as it is, whatever is called; after a claim that is
  -- answered FRESH nothing is; a commit that answers leaves its result where there was none, and a
  -- claim that answers gives it, unless it is empty.
  pub redis-Durable : Durable (result_under start) IsValid (redis_with start 0 down keys)
  unfolding redis_with Redis.claim Redis.commit Redis.release Redis.heartbeat Redis.now Redis.get
  redis-Durable = record {
    claim_holds = λ env key fp ttl s j b v.
        trip-Holds env.link (claim_lua env (k start key) key (or_empty fp) (or_zero ttl)) s j b
          (claim_lua-Held env (k start key) key (or_empty fp) (or_zero ttl) s v);
    commit_holds = λ env key r s j b v.
        trip-Holds env.link (λ d. (tt, commit_lua env 0 (k start key) r d)) s j b
          (commit_lua-Held env (k start key) r s v);
    release_holds = λ env key token s j b v.
        trip-Holds env.link (λ d. (tt, release_lua env (k start key) (or_empty token) d)) s j b
          (release_lua-Held env (k start key) (or_empty token) s v);
    heartbeat_holds = λ env key token ttl s j b v.
        trip-Holds env.link (heartbeat_lua env (k start key) token ttl) s j b
          (heartbeat_lua-Held env (k start key) token ttl s v);
    now_holds = λ env s j b v. trip-Holds env.link (λ d. (env.server_now, d)) s j b (λ rk c q. q);
    get_holds = λ env key s j b v q.
        trip-both env.link down (λ d. (Redis.read env.server_now start key d, d)) s
          (λ d. result_under start d j ≡ some b) q q;
    claim_opens = λ env key fp ttl s c v h fresh.
        let script : Database → ClaimResult × Database =
          claim_lua env (k start key) key (or_empty fp) (or_zero ttl) in
        let (answer, after) = trip-ok env.link store_unavailable script s c h in
        rw after (claim_lua-opens env (k start key) key (or_empty fp) (or_zero ttl) s v (cc));
    commit_sets = λ env key b s v answered q.
        rw
          ((trip-ok env.link store_unavailable (λ d. (tt, commit_lua env 0 (k start key) b d)) s tt
            answered).1)
          (commit_lua-sets env (k start key) b s v q);
    claim_replays = λ env key fp ttl s b c v q e.
        let script : Database → ClaimResult × Database =
          claim_lua env (k start key) key (or_empty fp) (or_zero ttl) in
        let answer = (trip-ok env.link store_unavailable script s c e).0 in
        let (committed, result) =
          claim_lua-replays env (k start key) key (or_empty fp) (or_zero ttl) s b v q in
        (cc, λ full. let r = result full in cc);
  }
