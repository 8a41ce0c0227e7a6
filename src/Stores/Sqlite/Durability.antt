-- ===== src/Stores/Sqlite/Durability.antt =====
-- What the SQLite store has committed stays committed.
use exactly_once.Prelude.{
  none, ℕ, ◌+◌, String, ◌≡◌, inl, inr, Option-cases, some, Option, Bytes, arith,
}
use exactly_once.Errors.{ok}
use exactly_once.Types.{State, ClaimResult}
use exactly_once.Dict.{lookup}
use exactly_once.Stores.Base.{Env, Durable, Holds}
use exactly_once.Stores.Effects.{Table, inserted}
use exactly_once.Stores.Effects.Laws.{IsValid}
use exactly_once.Stores.Effects.Durability.{
  result_at, inserted-Holds, upsert-Holds, upsert-sets, delete-Holds, renew-Holds, selected-replays,
  absent_result, inserted_open,
}
use exactly_once.Stores.Sqlite
use exactly_once.Stores.Sqlite.{lease_from, sqlite}
use exactly_once.Stores.Sqlite.Laws.{claim_new, claim_met}

claim-Holds :
    (env : Env) (key : String) (fp : Option String) (ttl : Option ℕ)
    → Holds result_at IsValid (Sqlite.claim env key fp ttl)
claim-Holds env key fp ttl s j b v h = elim (Option-cases (lookup key s)) [
  | inl e ↦
      rw (claim_new env key fp ttl s e)
        (inserted-Holds key (inserted env.now fp env.token (lease_from env.now ttl)) s j b e h)
  | inr (row, e) ↦ rw (claim_met env key fp ttl s row e) h
]

claim-replays :
    (env : Env) (key : String) (fp : Option String) (ttl : Option ℕ) (s : Table) (b : Bytes)
    (c : ClaimResult)
    → result_at s key ≡ some b
    → (Sqlite.claim env key fp ttl s).0 ≡ ok c
    → (c.state ≡ State.committed) × (c.result ≡ some b)
claim-replays env key fp ttl s b c h e = elim (Option-cases (lookup key s)) [
  | inl a ↦ absurd (absent_result key s b a h)
  | inr (row, a) ↦
      let (committed, result) = selected-replays key row s b a h in
      ground (arith, claim_met env key fp ttl s row a, e, committed, result)
]

claim-opens :
    (env : Env) (key : String) (fp : Option String) (ttl : Option ℕ) (s : Table) (c : ClaimResult)
    → IsValid s
    → (Sqlite.claim env key fp ttl s).0 ≡ ok c
    → c.state ≡ State.fresh
    → result_at (Sqlite.claim env key fp ttl s).1 key ≡ none
claim-opens env key fp ttl s c v h fresh = elim (Option-cases (lookup key s)) [
  | inl e ↦
      rw (claim_new env key fp ttl s e)
        (inserted_open env.now key fp env.token (lease_from env.now ttl) s)
  | inr (row, e) ↦
      absurd
        ((v.at key row e).not_fresh (ground (arith, claim_met env key fp ttl s row e, h, fresh)))
]

pub sqlite-Durable : Durable result_at IsValid sqlite
unfolding sqlite Sqlite.commit Sqlite.release Sqlite.heartbeat Sqlite.get
sqlite-Durable = record {
  claim_holds = claim-Holds;
  commit_holds = λ env key b. upsert-Holds env.now key b;
  release_holds = λ env key token. delete-Holds key token;
  heartbeat_holds = λ env key token ttl. renew-Holds (env.now + ttl) key token;
  now_holds = λ env s j b v h. h;
  get_holds = λ env key s j b v h. h;
  claim_opens = claim-opens;
  commit_sets = λ env key b s v answered. upsert-sets env.now key b s v;
  claim_replays = λ env key fp ttl s b c v h e.
      let (committed, result) = claim-replays env key fp ttl s b c h e in
      (committed, λ full. result);
}
