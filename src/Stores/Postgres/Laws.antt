-- ===== src/Stores/Postgres/Laws.antt =====
-- The Postgres store is exclusive under serializable transactions, through `_tx` and through the
-- asynchronous methods alike.
use exactly_once.Prelude.{
  ℕ, ◌+◌, String, ◌≡◌, refl, ◌⊎◌, inl, inr, Option-cases, true, false, Option, arith,
}
use exactly_once.Errors
use exactly_once.Errors.{Result, ok, err}
use exactly_once.Types.{State, ClaimResult}
use exactly_once.Dict.{lookup, contains, contains-insert_self}
use exactly_once.Stores.Base.{Env, Exclusive, Keeps}
use exactly_once.Stores.Effects.{Table, inserted, upsert, delete, renew}
use exactly_once.Stores.Effects.Laws.{
  IsValid, insert-Keeps, inserted-IsRow, upsert-Keeps, renew-Keeps, delete-IsValid, delete_others,
}
use exactly_once.Stores.Postgres
use exactly_once.Stores.Postgres.{claim_body, lease_from, postgres, apostgres}
use exactly_once.Stores.Postgres.Retries.{
  Ends, IsTxError, IsRawError, tx-Ends, atx-Ends, once_tx-Ends, Ends-both, Ends-ok,
}

claim_body-wins :
    (env : Env) (key : String) (fp : Option String) (ttl : Option ℕ) (s : Table)
    → IsValid s
    → (claim_body env key fp ttl s).0.state ≡ State.fresh
    → (contains s key ≡ false) × (contains (claim_body env key fp ttl s).1 key ≡ true)
unfolding claim_body
claim_body-wins env key fp ttl s v fresh = elim (Option-cases (lookup key s)) [
  | inl e ↦ (
    rw e refl,
    rw (e, claim_body)
        (contains-insert_self key (inserted env.now fp env.token (lease_from env.server_now ttl))
          s),
  )
  | inr (row, e) ↦ absurd ((v.at key row e).not_fresh (ground (arith, e, fresh)))
]

claim_body-Keeps :
    (env : Env) (key : String) (fp : Option String) (ttl : Option ℕ)
    → Keeps contains IsValid (claim_body env key fp ttl)
unfolding claim_body
claim_body-Keeps env key fp ttl s v = elim (Option-cases (lookup key s)) [
  | inl e ↦
      let lease = lease_from env.server_now ttl in
      rw (e, claim_body)
        (insert-Keeps key (inserted env.now fp env.token lease) s
          (inserted-IsRow env.now fp env.token lease) v)
  | inr (row, e) ↦ rw (e, claim_body) (v, λ j h. h)
]

-- A method that runs a body as one transaction keeps what the body keeps.
module _ {A : Type 0} (IsError : Errors.Exception → Type 0) (body : Table → A × Table) where
  Ends-Keeps :
      {s : Table} {r : Result A × Table}
      → Keeps contains IsValid body
      → IsValid s
      → Ends IsError body s r
      → IsValid r.1 × ((j : String) → contains s j ≡ true → contains r.1 j ≡ true)
  Ends-Keeps {s} keeps v ends =
      Ends-both IsError body
        (λ d. IsValid d × ((j : String) → contains s j ≡ true → contains d j ≡ true)) (v, λ j h. h)
        (keeps s v) ends

abbrev pub delete_body : String → Option String → Table → (Unit {0}) × Table
delete_body key token d = (tt, delete key token d)

module _ (IsError : Errors.Exception → Type 0) (env : Env) (key : String) where
  Ends-wins :
      (fp : Option String) (ttl : Option ℕ) {s : Table} {r : Result ClaimResult × Table}
      (c : ClaimResult)
      → Ends IsError (claim_body env key fp ttl) s r
      → IsValid s
      → r.0 ≡ ok c
      → c.state ≡ State.fresh
      → (contains s key ≡ false) × (contains r.1 key ≡ true)
  Ends-wins fp ttl {s} {r} c ends v h fresh =
      let (answer, table) = Ends-ok IsError (claim_body env key fp ttl) c ends h in
      rw table (claim_body-wins env key fp ttl s v (cc))

  Ends-released :
      (token : Option String) {s : Table} {r : Result (Unit {0}) × Table}
      → Ends IsError (delete_body key token) s r
      → IsValid s
      → IsValid r.1
  Ends-released token {s} ends v =
      Ends-both IsError (delete_body key token) IsValid v (delete-IsValid key token s v) ends

  Ends-others :
      (token : Option String) {s : Table} {r : Result (Unit {0}) × Table} (j : String)
      → Ends IsError (delete_body key token) s r
      → contains s j ≡ true
      → (contains r.1 j ≡ true) ⊎ (j ≡ key)
  Ends-others token {s} j ends h =
      Ends-both IsError (delete_body key token) (λ d. (contains d j ≡ true) ⊎ (j ≡ key)) (inl h)
        (delete_others key token s j h) ends

-- However the attempts of the synchronous methods end, from a well-formed table a claim answers FRESH
-- only for a key with no row, and leaves one; every method keeps the rows well formed, and none
-- but a release of a key takes its row away.
pub postgres-Exclusive : Exclusive contains IsValid postgres
unfolding postgres Postgres.claim Postgres.commit Postgres.release Postgres.heartbeat Postgres.now
    Postgres.get
postgres-Exclusive = record {
  claim_wins = λ env key fp ttl s c v.
      Ends-wins IsTxError env key fp ttl c (tx-Ends env.attempt (claim_body env key fp ttl) s 0 4)
        v;
  claim_keeps = λ env key fp ttl s v.
      Ends-Keeps IsTxError (claim_body env key fp ttl) (claim_body-Keeps env key fp ttl) v
        (tx-Ends env.attempt (claim_body env key fp ttl) s 0 4);
  commit_keeps = λ env key b s v.
      Ends-Keeps IsTxError (λ d. (tt, upsert env.now key b d)) (upsert-Keeps env.now key b) v
        (tx-Ends env.attempt (λ d. (tt, upsert env.now key b d)) s 0 4);
  release_valid = λ env key token s v.
      Ends-released IsTxError env key token (tx-Ends env.attempt (delete_body key token) s 0 4) v;
  release_keeps = λ env key token s j v h.
      Ends-others IsTxError env key token j (tx-Ends env.attempt (delete_body key token) s 0 4) h;
  heartbeat_keeps = λ env key token ttl s v.
      Ends-Keeps IsTxError (renew (env.server_now + ttl) key token)
        (renew-Keeps (env.server_now + ttl) key token) v
        (tx-Ends env.attempt (renew (env.server_now + ttl) key token) s 0 4);
  now_keeps = λ env s v.
      Ends-Keeps IsTxError (λ d. (env.server_now, d)) (λ d w. (w, λ j h. h)) v
        (tx-Ends env.attempt (λ d. (env.server_now, d)) s 0 4);
  get_keeps = λ env key s v. (v, λ j h. h);
}

-- However the attempts of the asynchronous methods end, from a well-formed table a claim answers FRESH
-- only for a key with no row, and leaves one; every method keeps the rows well formed, and none
-- but a release of a key takes its row away.
pub apostgres-Exclusive : Exclusive contains IsValid apostgres
unfolding apostgres Postgres.aclaim Postgres.acommit Postgres.arelease Postgres.aheartbeat
    Postgres.anow Postgres.get
apostgres-Exclusive = record {
  claim_wins = λ env key fp ttl s c v.
      Ends-wins IsRawError env key fp ttl c (atx-Ends env.attempt (claim_body env key fp ttl) s 0 4)
        v;
  claim_keeps = λ env key fp ttl s v.
      Ends-Keeps IsRawError (claim_body env key fp ttl) (claim_body-Keeps env key fp ttl) v
        (atx-Ends env.attempt (claim_body env key fp ttl) s 0 4);
  commit_keeps = λ env key b s v.
      Ends-Keeps IsRawError (λ d. (tt, upsert env.now key b d)) (upsert-Keeps env.now key b) v
        (once_tx-Ends env.attempt (λ d. (tt, upsert env.now key b d)) s (env.attempt 0));
  release_valid = λ env key token s v.
      Ends-released IsRawError env key token
        (once_tx-Ends env.attempt (delete_body key token) s (env.attempt 0)) v;
  release_keeps = λ env key token s j v h.
      Ends-others IsRawError env key token j
        (once_tx-Ends env.attempt (delete_body key token) s (env.attempt 0)) h;
  heartbeat_keeps = λ env key token ttl s v.
      Ends-Keeps IsRawError (renew (env.server_now + ttl) key token)
        (renew-Keeps (env.server_now + ttl) key token) v
        (once_tx-Ends env.attempt (renew (env.server_now + ttl) key token) s (env.attempt 0));
  now_keeps = λ env s v.
      Ends-Keeps IsRawError (λ d. (env.server_now, d)) (λ d w. (w, λ j h. h)) v
        (once_tx-Ends env.attempt (λ d. (env.server_now, d)) s (env.attempt 0));
  get_keeps = λ env key s v. (v, λ j h. h);
}
