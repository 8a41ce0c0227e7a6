-- ===== src/Stores/Redis/Laws.antt =====
-- A Redis store without a `committed_ttl` is exclusive, whatever calls lose their answer.
use exactly_once.Prelude.{
  ℕ, String, ◌≡◌, refl, ◌≢◌, ◌⊎◌, inl, inr, ◌&&◌, Bool-cases, Option-cases, none, some, true, false,
  Option, List, Bytes, Bool, arith, eq_iff, append_cancel_left, is_some,
}
use exactly_once.Errors
use exactly_once.Errors.{Result, ok, err, store_unavailable}
use exactly_once.Types.{State, ClaimResult, is_state}
use exactly_once.Dict.{
  lookup, insert, contains, contains-insert, contains-insert_self, contains-remove, lookup-insert,
  lookup-remove,
}
use exactly_once.Stores.Base.{Env, Link, Exclusive}
use exactly_once.Stores.Redis
use exactly_once.Stores.Redis.{
  Hash, Database, find, k, or_empty, or_zero, claim_lua, commit_lua, release_lua, heartbeat_lua,
  trip, redis_with, token_is, may_release, claimed, committed_new, committed_over, renewed,
}

-- A hash is never FRESH, has a result once it is committed, and, without a `committed_ttl`, never
-- expires.
pub record IsHash (h : Hash) : Type 0 where
  pub not_fresh : h.state ≢ State.fresh
  pub stays : h.expires_at ≡ none
  pub has_result : h.state ≡ State.committed → is_some h.result ≡ true

pub record IsValid (db : Database) : Type 0 where
  pub at : (rk : String) (h : Hash) → lookup rk db ≡ some h → IsHash h

abbrev pub holds : String → Database → String → Bool
holds start db key = contains db (k start key)

pub find-lookup :
    (now : ℕ) (rk : String) (db : Database) → IsValid db → find now rk db ≡ lookup rk db
unfolding find
find-lookup now rk db v = elim (Option-cases (lookup rk db)) [
  | inl e ↦ rw (e, find) refl
  | inr (h, e) ↦ rw (e, find) (rw ((v.at rk h e).stays) refl)
]

insert-IsValid :
    (rk : String) (h : Hash) (db : Database) → IsHash h → IsValid db → IsValid (insert rk h db)
insert-IsValid rk h db w v = record {
  at = λ j other e. ground (arith, lookup-insert rk j h db, eq_iff rk j, v.at j other);
}

-- What a script keeps: the well-formedness, and every hash.
abbrev Kept : Database → Database → Type 0
Kept db db' = IsValid db' × ((rk : String) → contains db rk ≡ true → contains db' rk ≡ true)

insert-Kept :
    (rk : String) (h : Hash) (db : Database) → IsHash h → IsValid db → Kept db (insert rk h db)
insert-Kept rk h db w v = (insert-IsValid rk h db w v, contains-insert rk h db)

unchanged-Kept : (db : Database) → IsValid db → Kept db db
unchanged-Kept db v = (v, λ rk h. h)

claim_lua-Kept :
    (env : Env) (rk key fp : String) (ttl : ℕ) (db : Database)
    → IsValid db
    → Kept db (claim_lua env rk key fp ttl db).1
unfolding claim_lua
claim_lua-Kept env rk key fp ttl db v = elim (Option-cases (lookup rk db)) [
  | inl e ↦
      rw (find-lookup env.server_now rk db v, e, claim_lua)
        (insert-Kept rk (claimed env fp ttl) db
          (record { not_fresh = λ q. cc; stays = refl; has_result = λ q. cc }) v)
  | inr (h, e) ↦ rw (find-lookup env.server_now rk db v, e, claim_lua) (unchanged-Kept db v)
]

commit_lua-Kept :
    (env : Env) (rk : String) (b : Bytes) (db : Database)
    → IsValid db
    → Kept db (commit_lua env 0 rk b db)
unfolding commit_lua
commit_lua-Kept env rk b db v = elim (Option-cases (lookup rk db)) [
  | inl e ↦
      rw (find-lookup env.server_now rk db v, e, commit_lua)
        (insert-Kept rk (committed_new env 0 b) db
          (record { not_fresh = λ q. cc; stays = refl; has_result = λ q. refl }) v)
  | inr (h, e) ↦
      rw (find-lookup env.server_now rk db v, e, commit_lua)
        (elim (Bool-cases (is_state h.state State.committed)) [
          | inl c ↦ rw c (unchanged-Kept db v)
          | inr c ↦ rw c (
              insert-Kept rk (committed_over env 0 b h) db
                (record {
                  not_fresh = λ q. cc;
                  stays = (v.at rk h e).stays;
                  has_result = λ q. refl;
                })
                v)
        ])
]

heartbeat_lua-Kept :
    (env : Env) (rk token : String) (ttl : ℕ) (db : Database)
    → IsValid db
    → Kept db (heartbeat_lua env rk token ttl db).1
unfolding heartbeat_lua
heartbeat_lua-Kept env rk token ttl db v = elim (Option-cases (lookup rk db)) [
  | inl e ↦ rw (find-lookup env.server_now rk db v, e, heartbeat_lua) (unchanged-Kept db v)
  | inr (h, e) ↦
      let w = v.at rk h e in
      rw (find-lookup env.server_now rk db v, e, heartbeat_lua)
        (elim (Bool-cases (is_state h.state State.in_flight && token_is h.token token)) [
          | inl c ↦ rw c (
              insert-Kept rk (renewed env ttl h) db
                (record { not_fresh = w.not_fresh; stays = w.stays; has_result = w.has_result }) v)
          | inr c ↦ rw c (unchanged-Kept db v)
        ])
]

release_lua-IsValid :
    (env : Env) (rk token : String) (db : Database)
    → IsValid db
    → IsValid (release_lua env rk token db)
      × ((j : String)
          → contains db j ≡ true
          → (contains (release_lua env rk token db) j ≡ true) ⊎ (j ≡ rk))
unfolding release_lua
release_lua-IsValid env rk token db v = elim (Option-cases (lookup rk db)) [
  | inl e ↦ rw (find-lookup env.server_now rk db v, e, release_lua) (v, λ j h. inl h)
  | inr (h, e) ↦
      rw (find-lookup env.server_now rk db v, e, release_lua)
        (elim (Bool-cases (may_release token h)) [
          | inl c ↦ rw c (
            record { at = λ j other q. ground (arith, lookup-remove rk j db, v.at j other) },
            contains-remove rk db,
          )
          | inr c ↦ rw c (v, λ j q. inl q)
        ])
]

-- What holds of the database before and after a script holds however its round trip ends.
pub trip-both :
    {A : Type 0} (link : Link) (down : Errors.Exception) (script : Database → A × Database)
    (db : Database) (P : Database → Type 0)
    → P db
    → P (script db).1
    → P (trip link down script db).1
unfolding trip
trip-both Link.up down script db P p q = q
trip-both Link.lost down script db P p q = p
trip-both Link.lost_reply down script db P p q = q

pub trip-ok :
    {A : Type 0} (link : Link) (down : Errors.Exception) (script : Database → A × Database)
    (db : Database) (a : A)
    → (trip link down script db).0 ≡ ok a
    → (ok (script db).0 ≡ (trip link down script db).0)
      × ((trip link down script db).1 ≡ (script db).1)
unfolding trip
trip-ok Link.up down script db a h = (refl, refl)
trip-ok Link.lost down script db a h = absurd (cc)
trip-ok Link.lost_reply down script db a h = absurd (cc)

claim_lua-wins :
    (env : Env) (rk key fp : String) (ttl : ℕ) (db : Database)
    → IsValid db
    → (claim_lua env rk key fp ttl db).0.state ≡ State.fresh
    → (contains db rk ≡ false) × (contains (claim_lua env rk key fp ttl db).1 rk ≡ true)
unfolding claim_lua
claim_lua-wins env rk key fp ttl db v fresh = elim (Option-cases (lookup rk db)) [
  | inl e ↦ (
    rw e refl,
    rw (find-lookup env.server_now rk db v, e, claim_lua)
        (contains-insert_self rk (claimed env fp ttl) db),
  )
  | inr (h, e) ↦
      absurd
        ((v.at rk h e).not_fresh (ground (arith, find-lookup env.server_now rk db v, e, fresh)))
]

module _ (start : String) (keys : Database → List String) (down : Errors.Exception) where
  under :
      (db db' : Database)
      → Kept db db'
      → IsValid db' × ((j : String) → holds start db j ≡ true → holds start db' j ≡ true)
  under db db' (v, kept) = (v, λ j. kept (k start j))

  trip-Keeps :
      {A : Type 0} (link : Link) (script : Database → A × Database) (db : Database)
      → IsValid db
      → Kept db (script db).1
      → IsValid (trip link store_unavailable script db).1
        × ((j : String)
            → holds start db j ≡ true
            → holds start (trip link store_unavailable script db).1 j ≡ true)
  trip-Keeps link script db v kept =
      under _ _
        (trip-both link store_unavailable script db (λ d. Kept db d) (unchanged-Kept db v) kept)

  claim-wins :
      (env : Env) (key : String) (fp : Option String) (ttl : Option ℕ) (db : Database)
      (c : ClaimResult)
      → IsValid db
      → (Redis.claim start 0 env key fp ttl db).0 ≡ ok c
      → c.state ≡ State.fresh
      → (holds start db key ≡ false)
        × (holds start (Redis.claim start 0 env key fp ttl db).1 key ≡ true)
  unfolding Redis.claim
  claim-wins env key fp ttl db c v h fresh =
      let script : Database → ClaimResult × Database =
        claim_lua env (k start key) key (or_empty fp) (or_zero ttl) in
      let (answer, after) = trip-ok env.link store_unavailable script db c h in
      rw after (claim_lua-wins env (k start key) key (or_empty fp) (or_zero ttl) db v (cc))

  -- With no `committed_ttl`, under any prefix and whatever round trips lose their request or their
  -- answer: from a well-formed database a claim answers FRESH only for a key with no hash, and
  -- leaves one; every method keeps the hashes well formed, and none but a release of a key takes
  -- its hash away.
  pub redis-Exclusive : Exclusive (holds start) IsValid (redis_with start 0 down keys)
  unfolding redis_with Redis.claim Redis.commit Redis.release Redis.heartbeat Redis.now Redis.get
  redis-Exclusive = record {
    claim_wins = claim-wins;
    claim_keeps = λ env key fp ttl s v.
        trip-Keeps env.link (claim_lua env (k start key) key (or_empty fp) (or_zero ttl)) s v
          (claim_lua-Kept env (k start key) key (or_empty fp) (or_zero ttl) s v);
    commit_keeps = λ env key b s v.
        trip-Keeps env.link (λ d. (tt, commit_lua env 0 (k start key) b d)) s v
          (commit_lua-Kept env (k start key) b s v);
    release_valid = λ env key token s v.
        trip-both env.link store_unavailable
          (λ d. (tt, release_lua env (k start key) (or_empty token) d)) s IsValid v
          (release_lua-IsValid env (k start key) (or_empty token) s v).0;
    release_keeps = λ env key token s j v h.
        trip-both env.link store_unavailable
          (λ d. (tt, release_lua env (k start key) (or_empty token) d)) s
          (λ d. (holds start d j ≡ true) ⊎ (j ≡ key)) (inl h)
          (elim ((release_lua-IsValid env (k start key) (or_empty token) s v).1 (k start j) h) [
            | inl q ↦ inl q
            | inr q ↦ inr (append_cancel_left start j key q)
          ]);
    heartbeat_keeps = λ env key token ttl s v.
        trip-Keeps env.link (heartbeat_lua env (k start key) token ttl) s v
          (heartbeat_lua-Kept env (k start key) token ttl s v);
    now_keeps = λ env s v. trip-Keeps env.link (λ d. (env.server_now, d)) s v (unchanged-Kept s v);
    get_keeps = λ env key s v. under _ _ (
        trip-both env.link down (λ d. (Redis.read env.server_now start key d, d)) s (λ d. Kept s d)
          (unchanged-Kept s v) (unchanged-Kept s v));
  }
