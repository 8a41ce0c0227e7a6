-- ===== src/Stores/Agree/Answers.antt =====
-- One call of the memory store and of the SQLite store: the answers, and the records that are left.
use exactly_once.Prelude.{
  ℕ, ◌+◌, String, true, false, ◌≡◌, refl, sym, Option, none, some, inl, inr, Bool-cases,
}
use exactly_once.Types.{State, ClaimRecord, is_state}
use exactly_once.Stores.Base.{Env}
use exactly_once.Stores.Memory
use exactly_once.Stores.Memory.{MemoryStore, memory}
use exactly_once.Stores.Effects
use exactly_once.Stores.Effects.{
  EffectRow, Table, row_to_record, upsert, delete, deletes, renew, select, overwritten,
}
use exactly_once.Stores.Sqlite
use exactly_once.Stores.Sqlite.{sqlite}
use exactly_once.Stores.Agree.{Request, claim, commit, release, heartbeat, now, get}
use exactly_once.Stores.Agree.Records.{Agrees, Related, Met, met, Related-insert, Related-remove}
use exactly_once.Stores.Agree.Claims.{claim-Agrees, commit-Agrees}

tokens_same :
    (o : Option String) (token : String) → Memory.token_is o token ≡ Effects.token_is o token
tokens_same none token = refl
tokens_same (some t) token = refl

-- The two tests of a release.
release_tests :
    (token : Option String) (r : ClaimRecord) (row : EffectRow)
    → r.token ≡ row.token
    → is_state row.state State.in_flight ≡ true
    → deletes token row ≡ Memory.may_release r token
release_tests none r row h c = c
release_tests (some t) r row h c = rw c (rw h (sym (tokens_same row.token t)))

settled_stays :
    (token : Option String) (row : EffectRow)
    → is_state row.state State.in_flight ≡ false
    → deletes token row ≡ false
settled_stays none row c = c
settled_stays (some t) row c = rw c refl

release-Agrees :
    (env : Env) (key : String) (token : Option String) (s : MemoryStore) (t : Table)
    → Related s t
    → Agrees env (release key token) s t
unfolding Met memory Memory.release sqlite Sqlite.release delete
release-Agrees env key token s t rel = elim (met s t key rel) [
  | inl (e, f) ↦ rw (e, Memory.release) (rw (f, delete) (refl, rel))
  | inr (r, row, e, f, h) ↦
      rw (e, Memory.release)
        (rw (f, delete)
          (rw h.same_state (
            let r' : ClaimRecord = record r { state = row.state } in
            elim (Bool-cases (is_state row.state State.in_flight)) [
              | inr c ↦ rw c (rw (settled_stays token row c) (refl, rel))
              | inl c ↦ rw c (
                  rw (release_tests token r' row h.same_token c)
                    (elim (Bool-cases (Memory.may_release r' token)) [
                      | inl m ↦ rw m (refl, Related-remove key s t rel)
                      | inr m ↦ rw m (refl, rel)
                    ]))
            ])))
]

heartbeat-Agrees :
    (env : Env) (key token : String) (ttl : ℕ) (s : MemoryStore) (t : Table)
    → Related s t
    → Agrees env (heartbeat key token ttl) s t
unfolding Met memory Memory.heartbeat sqlite Sqlite.heartbeat renew
heartbeat-Agrees env key token ttl s t rel = elim (met s t key rel) [
  | inl (e, f) ↦ rw (e, Memory.heartbeat) (rw (f, renew) (refl, rel))
  | inr (r, row, e, f, h) ↦
      rw (e, Memory.heartbeat)
        (rw (f, renew)
          (rw h.same_state (
            rw (h.same_token, tokens_same row.token token)
              (elim (Bool-cases (is_state row.state State.in_flight)) [
                | inr c ↦ rw c (refl, rel)
                | inl c ↦ rw c (elim (Bool-cases (Effects.token_is row.token token)) [
                  | inr m ↦ rw m (refl, rel)
                  | inl m ↦ rw m (
                    refl,
                    Related-insert key
                        (record r {
                          state = row.state;
                          token = row.token;
                          lease_expires_at = some (env.now + ttl);
                        })
                        (record row { lease_expires_at = some (env.now + ttl) }) s t rel
                        (record {
                          same_key = h.same_key;
                          same_state = refl;
                          same_result = h.same_result;
                          same_fingerprint = h.same_fingerprint;
                          same_created_at = h.same_created_at;
                          same_updated_at = h.same_updated_at;
                          same_token = refl;
                          same_lease = λ _. refl;
                        }),
                  )
                ])
              ]))))
]

get-Agrees :
    (env : Env) (key : String) (s : MemoryStore) (t : Table)
    → Related s t
    → Agrees env (get key) s t
unfolding memory Memory.get sqlite Sqlite.get
get-Agrees env key s t rel = (rel key, rel)

pub request-Agrees :
    (env : Env) (q : Request) (s : MemoryStore) (t : Table) → Related s t → Agrees env q s t
unfolding memory Memory.now sqlite
request-Agrees env (claim key fp ttl) s t rel = claim-Agrees env key fp ttl s t rel
request-Agrees env (commit key b) s t rel = commit-Agrees env key b s t rel
request-Agrees env (release key token) s t rel = release-Agrees env key token s t rel
request-Agrees env (heartbeat key token ttl) s t rel = heartbeat-Agrees env key token ttl s t rel
request-Agrees env now s t rel = (refl, rel)
request-Agrees env (get key) s t rel = get-Agrees env key s t rel
