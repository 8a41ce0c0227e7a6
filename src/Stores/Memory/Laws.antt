-- ===== src/Stores/Memory/Laws.antt =====
-- The records of the memory store stay well formed, and the store is exclusive.
use exactly_once.Prelude.{
  ℕ, String, ◌≡◌, refl, ◌≢◌, ◌⊎◌, inl, inr, ◌||◌, not, Bool-cases, Option-cases, none, some, true,
  false, Option, Bytes, arith, eq_iff, is_some,
}
use exactly_once.Errors.{ok}
use exactly_once.Types.{State, ClaimResult, ClaimRecord, is_state}
use exactly_once.Dict.{lookup, insert, remove, lookup-insert, lookup-remove}
use exactly_once.Stores.Base.{Env, Exclusive, Keeps}
use exactly_once.Stores.Memory
use exactly_once.Stores.Memory.{MemoryStore, memory, present}

-- A record stands under its own key, is never FRESH, and has a result exactly when it is committed.
pub record IsRow (key : String) (row : ClaimRecord) : Type 0 where
  pub own_key : row.key ≡ key
  pub not_fresh : row.state ≢ State.fresh
  pub no_result : row.state ≡ State.in_flight → row.result ≡ none
  pub has_result : row.state ≡ State.committed → is_some row.result ≡ true

pub record IsValid (db : MemoryStore) : Type 0 where
  pub at : (key : String) (row : ClaimRecord) → lookup key db ≡ some row → IsRow key row

insert-IsValid :
    (key : String) (row : ClaimRecord) (db : MemoryStore)
    → IsRow key row
    → IsValid db
    → IsValid (insert key row db)
insert-IsValid key row db r v = record {
  at = λ j other h. ground (arith, lookup-insert key j row db, eq_iff key j, v.at j other);
}

remove-IsValid : (key : String) (db : MemoryStore) → IsValid db → IsValid (remove key db)
remove-IsValid key db v = record {
  at = λ j other h. ground (arith, lookup-remove key j db, v.at j other);
}

insert-present :
    (key : String) (row : ClaimRecord) (db : MemoryStore) (j : String)
    → present db j ≡ true
    → present (insert key row db) j ≡ true
insert-present key row db j h = rw (lookup-insert key j row db) (ground (arith, eq_iff key j))

-- A method that leaves the table alone or writes one well-formed record keeps the invariant and
-- loses no record.
inserts :
    {key : String} {row : ClaimRecord} (db : MemoryStore)
    → IsRow key row
    → IsValid db
    → IsValid (insert key row db)
      × ((j : String) → present db j ≡ true → present (insert key row db) j ≡ true)
inserts {key} {row} db r v = (insert-IsValid key row db r v, insert-present key row db)

claim-Keeps :
    (env : Env) (key : String) (fp : Option String) (ttl : Option ℕ)
    → Keeps present IsValid (Memory.claim env key fp ttl)
unfolding Memory.claim
claim-Keeps env key fp ttl s v = elim (Option-cases (lookup key s)) [
  | inl e ↦
      rw (e, Memory.claim)
        (inserts s
          (record {
            own_key = refl;
            not_fresh = λ q. cc;
            no_result = λ q. refl;
            has_result = λ q. cc;
          })
          v)
  | inr (row, e) ↦ rw (e, Memory.claim) (v, λ j h. h)
]

commit-Keeps :
    (env : Env) (key : String) (b : Bytes) → Keeps present IsValid (Memory.commit env key b)
unfolding Memory.commit
commit-Keeps env key b s v = elim (Option-cases (lookup key s)) [
  | inl e ↦
      rw (e, Memory.commit)
        (inserts s
          (record {
            own_key = refl;
            not_fresh = λ q. cc;
            no_result = λ q. cc;
            has_result = λ q. refl;
          })
          v)
  | inr (row, e) ↦
      rw (e, Memory.commit)
        (elim (Bool-cases (is_state row.state State.committed)) [
          | inl c ↦ rw c (v, λ j h. h)
          | inr c ↦ rw c (
              inserts s
                (record {
                  own_key = (v.at key row e).own_key;
                  not_fresh = λ q. cc;
                  no_result = λ q. cc;
                  has_result = λ q. refl;
                })
                v)
        ])
]

release-IsValid :
    (env : Env) (key : String) (token : Option String) (s : MemoryStore)
    → IsValid s
    → IsValid (Memory.release env key token s).1
unfolding Memory.release
release-IsValid env key token s v = ground (arith, remove-IsValid key s v)

release_others :
    (env : Env) (key : String) (token : Option String) (s : MemoryStore) (j : String)
    → present s j ≡ true
    → (present (Memory.release env key token s).1 j ≡ true) ⊎ (j ≡ key)
unfolding Memory.release
release_others env key token s j h = ground (arith, lookup-remove key j s, eq_iff key j)

heartbeat-Keeps :
    (env : Env) (key token : String) (ttl : ℕ)
    → Keeps present IsValid (Memory.heartbeat env key token ttl)
unfolding Memory.heartbeat
heartbeat-Keeps env key token ttl s v = elim (Option-cases (lookup key s)) [
  | inl e ↦ rw (e, Memory.heartbeat) (v, λ j h. h)
  | inr (row, e) ↦
      let r = v.at key row e in
      rw (e, Memory.heartbeat)
        (elim (Bool-cases
          (not (is_state row.state State.in_flight) || not (Memory.token_is row.token token))) [
            | inl c ↦ rw c (v, λ j h. h)
            | inr c ↦ rw c (
                inserts s
                  (record {
                    own_key = r.own_key;
                    not_fresh = r.not_fresh;
                    no_result = r.no_result;
                    has_result = r.has_result;
                  })
                  v)
          ])
]

claim-wins :
    (env : Env) (key : String) (fp : Option String) (ttl : Option ℕ) (s : MemoryStore)
    (c : ClaimResult)
    → IsValid s
    → (Memory.claim env key fp ttl s).0 ≡ ok c
    → c.state ≡ State.fresh
    → (present s key ≡ false) × (present (Memory.claim env key fp ttl s).1 key ≡ true)
unfolding Memory.claim
claim-wins env key fp ttl s c v h fresh = elim (Option-cases (lookup key s)) [
  | inl e ↦
      rw (e, Memory.claim)
        (
          refl,
          ground
              (arith, lookup-insert key key (Memory.claimed_row env key fp ttl) s, eq_iff key key),
        )
  | inr (row, e) ↦ let r = v.at key row e in absurd (r.not_fresh (ground (arith, e, h, fresh)))
]

-- From a well-formed state a claim answers FRESH only for a key with no record, and leaves one; every
-- method keeps the records well formed, and none but a release of a key takes its record away.
pub memory-Exclusive : Exclusive present IsValid memory
unfolding memory
memory-Exclusive = record {
  claim_wins = claim-wins;
  claim_keeps = claim-Keeps;
  commit_keeps = commit-Keeps;
  release_valid = release-IsValid;
  release_keeps = λ env key token s j v. release_others env key token s j;
  heartbeat_keeps = heartbeat-Keeps;
  now_keeps = λ env s v. (v, λ j h. h);
  get_keeps = λ env key s v. (v, λ j h. h);
}
