-- ===== src/Stores/Agree/Laws.antt =====
-- Sequences of calls of the memory store, the SQLite store and the Postgres store.
use exactly_once.Prelude.{
  ℕ, ◌+◌, String, ◌≡◌, refl, sym, ap, ◌∙◌, Option, none, some, List, [], ◌∷◌, inl, inr,
  Option-cases,
}
use exactly_once.Errors.{ok}
use exactly_once.Dict.{lookup, insert}
use exactly_once.Stores.Base.{Env}
use exactly_once.Stores.Memory.{MemoryStore, memory}
use exactly_once.Stores.Effects
use exactly_once.Stores.Effects.{
  EffectRow, Table, row_to_record, upsert, delete, deletes, renew, select, overwritten,
}
use exactly_once.Stores.Sqlite
use exactly_once.Stores.Sqlite.{sqlite}
use exactly_once.Stores.Sqlite.Laws.{claim_new, claim_met}
use exactly_once.Stores.Agree.{
  Request, claim, commit, release, heartbeat, now, get, serve, SameAnswers,
}
use exactly_once.Stores.Agree.Records.{Related}
use exactly_once.Stores.Agree.Answers.{request-Agrees}
use exactly_once.Stores.Base.{Attempt, Link}
use exactly_once.Stores.Postgres
use exactly_once.Stores.Postgres.{postgres, tx, claim_body}

-- Transactions commit at their first attempt, the server answers, and its clock is the callers'.
pub record IsCalm (env : Env) : Type 0 where
  pub commits : (n : ℕ) → env.attempt n ≡ Attempt.commits
  pub up : env.link ≡ Link.up
  pub clocks : env.server_now ≡ env.now

abbrev pub AllCalm : List (Env × Request) → Type 0
AllCalm [] = Unit
AllCalm ((env, q) ∷ rest) = IsCalm env × AllCalm rest

committed_tx :
    {A : Type 0} (env : Env) (body : Table → A × Table) (t : Table)
    → IsCalm env
    → tx env.attempt 0 5 body t ≡ (ok (body t).0, (body t).1)
unfolding tx
committed_tx env body t calm = rw (calm.commits 0, tx) refl

lease_same : (n : ℕ) (ttl : Option ℕ) → Postgres.lease_from n ttl ≡ Sqlite.lease_from n ttl
lease_same n none = refl
lease_same n (some ttl) = refl

lease_of_calm :
    (env : Env) (ttl : Option ℕ)
    → IsCalm env
    → Postgres.lease_from env.server_now ttl ≡ Sqlite.lease_from env.now ttl
lease_of_calm env ttl calm =
    ap (λ n. Postgres.lease_from n ttl) calm.clocks ∙ lease_same env.now ttl

postgres_claim :
    (env : Env) (key : String) (fp : Option String) (ttl : Option ℕ) (t : Table)
    → IsCalm env
    → Postgres.claim env key fp ttl t ≡ Sqlite.claim env key fp ttl t
unfolding Postgres.claim claim_body
postgres_claim env key fp ttl t calm =
    committed_tx env (claim_body env key fp ttl) t calm ∙ (elim (Option-cases (lookup key t)) [
      | inl e ↦
          rw (e, claim_body)
            (ap
                (λ lease. (
                  ok (Effects.won key fp env.token lease),
                  insert key (Effects.inserted env.now fp env.token lease) t,
                ))
                (lease_of_calm env ttl calm)
              ∙ sym (claim_new env key fp ttl t e))
      | inr (row, e) ↦ rw (e, claim_body) (sym (claim_met env key fp ttl t row e))
    ])

postgres_serves :
    (env : Env) (q : Request) (t : Table)
    → IsCalm env
    → serve postgres env q t ≡ serve sqlite env q t
unfolding postgres sqlite Postgres.commit Postgres.release Postgres.heartbeat Postgres.now
    Postgres.get Sqlite.commit Sqlite.release Sqlite.heartbeat Sqlite.get
postgres_serves env (claim key fp ttl) t calm = postgres_claim env key fp ttl t calm
postgres_serves env (commit key b) t calm =
    committed_tx env (λ d. (tt, upsert env.now key b d)) t calm
postgres_serves env (release key token) t calm =
    committed_tx env (λ d. (tt, delete key token d)) t calm
postgres_serves env (heartbeat key token ttl) t calm =
    committed_tx env (λ d. renew (env.server_now + ttl) key token d) t calm ∙ rw calm.clocks refl
postgres_serves env now t calm =
    committed_tx env (λ d. (env.server_now, d)) t calm ∙ rw calm.clocks refl
postgres_serves env (get key) t calm = rw calm.up refl

Related-SameAnswers :
    (calls : List (Env × Request)) (s : MemoryStore) (t : Table)
    → AllCalm calls
    → Related s t
    → SameAnswers memory sqlite calls s t × SameAnswers memory postgres calls s t
Related-SameAnswers [] s t calm rel = (tt, tt)
Related-SameAnswers ((env, q) ∷ rest) s t (calm, later) rel =
    let (answers, rel') = request-Agrees env q s t rel in
    let (on_sqlite, on_postgres) =
      Related-SameAnswers rest (serve memory env q s).1 (serve sqlite env q t).1 later rel' in
    ((answers, on_sqlite), rw (postgres_serves env q t calm) (answers, on_postgres))

-- From a new store, the memory store, the SQLite store with no other process, and the Postgres store
-- where transactions commit at once under one clock, answer any sequence of claims, commits,
-- releases, heartbeats and reads alike, but for the lease of a committed record.
pub stores_agree :
    (calls : List (Env × Request))
    → AllCalm calls
    → SameAnswers memory sqlite calls [] [] × SameAnswers memory postgres calls [] []
unfolding lookup select
stores_agree calls calm = Related-SameAnswers calls [] [] calm (λ key. tt)
