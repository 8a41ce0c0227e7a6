-- ===== src/Stores/Agree/Claims.antt =====
-- A claim and a commit of the memory store and of the SQLite store.
use exactly_once.Prelude.{ℕ, String, ◌≡◌, refl, Option, none, some, Bytes, inl, inr, Bool-cases}
use exactly_once.Types.{State, is_state}
use exactly_once.Stores.Base.{Env}
use exactly_once.Stores.Memory
use exactly_once.Stores.Memory.{MemoryStore, memory}
use exactly_once.Stores.Effects
use exactly_once.Stores.Effects.{
  EffectRow, Table, row_to_record, upsert, delete, deletes, renew, select, overwritten,
}
use exactly_once.Stores.Sqlite
use exactly_once.Stores.Sqlite.{sqlite}
use exactly_once.Stores.Sqlite.Laws.{claim_new, claim_met}
use exactly_once.Stores.Agree.{claim, commit}
use exactly_once.Stores.Agree.Records.{Agrees, Related, Met, met, Related-insert}

lease_same : (n : ℕ) (ttl : Option ℕ) → Memory.lease_from n ttl ≡ Sqlite.lease_from n ttl
lease_same n none = refl
lease_same n (some ttl) = refl

pub claim-Agrees :
    (env : Env) (key : String) (fp : Option String) (ttl : Option ℕ) (s : MemoryStore) (t : Table)
    → Related s t
    → Agrees env (claim key fp ttl) s t
unfolding Met memory Memory.claim sqlite
claim-Agrees env key fp ttl s t rel = elim (met s t key rel) [
  | inl (e, f) ↦
      rw (e, Memory.claim)
        (rw (claim_new env key fp ttl t f) (
          record {
            same_key = refl;
            same_state = refl;
            same_result = refl;
            same_fingerprint = refl;
            same_token = refl;
            same_lease = λ _. lease_same env.now ttl;
          },
          Related-insert key (Memory.claimed_row env key fp ttl)
              (Effects.inserted env.now fp env.token (Sqlite.lease_from env.now ttl)) s t rel
              (record {
                same_key = refl;
                same_state = refl;
                same_result = refl;
                same_fingerprint = refl;
                same_created_at = refl;
                same_updated_at = refl;
                same_token = refl;
                same_lease = λ _. lease_same env.now ttl;
              }),
        ))
  | inr (r, row, e, f, h) ↦
      rw (e, Memory.claim)
        (rw (claim_met env key fp ttl t row f) (
          record {
            same_key = refl;
            same_state = h.same_state;
            same_result = h.same_result;
            same_fingerprint = h.same_fingerprint;
            same_token = h.same_token;
            same_lease = h.same_lease;
          },
          rel,
        ))
]

pub commit-Agrees :
    (env : Env) (key : String) (b : Bytes) (s : MemoryStore) (t : Table)
    → Related s t
    → Agrees env (commit key b) s t
unfolding Met memory Memory.commit sqlite Sqlite.commit upsert
commit-Agrees env key b s t rel = elim (met s t key rel) [
  | inl (e, f) ↦
      rw (e, Memory.commit)
        (rw (f, upsert)
          (
            refl,
            Related-insert key (Memory.backfilled env key b) (Effects.backfilled env.now b) s t rel
                (record {
                  same_key = refl;
                  same_state = refl;
                  same_result = refl;
                  same_fingerprint = refl;
                  same_created_at = refl;
                  same_updated_at = refl;
                  same_token = refl;
                  same_lease = λ _. refl;
                }),
          ))
  | inr (r, row, e, f, h) ↦
      rw (e, Memory.commit)
        (rw (f, upsert)
          (rw h.same_state (elim (Bool-cases (is_state row.state State.committed)) [
            | inl c ↦ rw c (refl, rel)
            | inr c ↦ rw c (
              refl,
              Related-insert key
                  (record r { state = State.committed; result = some b; updated_at = some env.now })
                  (overwritten env.now b row) s t rel
                  (record {
                    same_key = h.same_key;
                    same_state = refl;
                    same_result = refl;
                    same_fingerprint = h.same_fingerprint;
                    same_created_at = h.same_created_at;
                    same_updated_at = refl;
                    same_token = h.same_token;
                    same_lease = λ n. absurd (n refl);
                  }),
            )
          ])))
]
