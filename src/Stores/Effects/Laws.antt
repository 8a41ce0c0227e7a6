-- ===== src/Stores/Effects/Laws.antt =====
-- What the statements on the table `effects` keep.
use exactly_once.Prelude.{
  ℕ, String, ◌≡◌, refl, ◌≢◌, ◌⊎◌, inl, inr, ◌&&◌, Bool-cases, Option-cases, none, some, true,
  Option, Bytes, arith, eq_iff, is_some,
}
use exactly_once.Types.{State, is_state}
use exactly_once.Dict.{
  lookup, insert, contains, lookup-insert, lookup-remove, contains-insert, contains-remove,
}
use exactly_once.Stores.Base.{Keeps}
use exactly_once.Stores.Effects
use exactly_once.Stores.Effects.{
  EffectRow, Table, token_is, deletes, overwritten, backfilled, upsert, delete, renew,
}

-- A row is never FRESH, has no result while it is in flight, and has one once it is committed.
pub record IsRow (row : EffectRow) : Type 0 where
  pub not_fresh : row.state ≢ State.fresh
  pub no_result : row.state ≡ State.in_flight → row.result ≡ none
  pub has_result : row.state ≡ State.committed → is_some row.result ≡ true

pub record IsValid (db : Table) : Type 0 where
  pub at : (key : String) (row : EffectRow) → lookup key db ≡ some row → IsRow row

pub insert-Keeps :
    (key : String) (row : EffectRow) (db : Table)
    → IsRow row
    → IsValid db
    → IsValid (insert key row db)
      × ((j : String) → contains db j ≡ true → contains (insert key row db) j ≡ true)
insert-Keeps key row db r v = (
  record {
    at = λ j other h. ground (arith, lookup-insert key j row db, eq_iff key j, v.at j other);
  },
  contains-insert key row db,
)

pub inserted-IsRow :
    (now : ℕ) (fp : Option String) (token : String) (lease : Option ℕ)
    → IsRow (Effects.inserted now fp token lease)
inserted-IsRow now fp token lease = record {
  not_fresh = λ q. cc;
  no_result = λ q. refl;
  has_result = λ q. cc;
}

pub upsert-Keeps :
    (now : ℕ) (key : String) (b : Bytes) → Keeps contains IsValid (λ d. (tt, upsert now key b d))
unfolding upsert
upsert-Keeps now key b s v = elim (Option-cases (lookup key s)) [
  | inl e ↦
      rw (e, upsert)
        (insert-Keeps key (backfilled now b) s
          (record { not_fresh = λ q. cc; no_result = λ q. cc; has_result = λ q. refl }) v)
  | inr (row, e) ↦
      rw (e, upsert)
        (elim (Bool-cases (is_state row.state State.committed)) [
          | inl c ↦ rw c (v, λ j h. h)
          | inr c ↦ rw c (
              insert-Keeps key (overwritten now b row) s
                (record { not_fresh = λ q. cc; no_result = λ q. cc; has_result = λ q. refl }) v)
        ])
]

pub renew-Keeps :
    (deadline : ℕ) (key token : String) → Keeps contains IsValid (renew deadline key token)
unfolding renew
renew-Keeps deadline key token s v = elim (Option-cases (lookup key s)) [
  | inl e ↦ rw (e, renew) (v, λ j h. h)
  | inr (row, e) ↦
      let r = v.at key row e in
      rw (e, renew)
        (elim (Bool-cases (is_state row.state State.in_flight && token_is row.token token)) [
          | inl c ↦ rw c (
              insert-Keeps key (record row { lease_expires_at = some deadline }) s
                (record {
                  not_fresh = r.not_fresh;
                  no_result = r.no_result;
                  has_result = r.has_result;
                })
                v)
          | inr c ↦ rw c (v, λ j h. h)
        ])
]

pub delete-IsValid :
    (key : String) (token : Option String) (s : Table) → IsValid s → IsValid (delete key token s)
unfolding delete
delete-IsValid key token s v = elim (Option-cases (lookup key s)) [
  | inl e ↦ rw (e, delete) v
  | inr (row, e) ↦
      rw (e, delete)
        (elim (Bool-cases (deletes token row)) [
          | inl c ↦
              rw c
                (record { at = λ j other h. ground (arith, lookup-remove key j s, v.at j other) })
          | inr c ↦ rw c v
        ])
]

pub delete_others :
    (key : String) (token : Option String) (s : Table) (j : String)
    → contains s j ≡ true
    → (contains (delete key token s) j ≡ true) ⊎ (j ≡ key)
unfolding delete
delete_others key token s j h = elim (Option-cases (lookup key s)) [
  | inl e ↦ rw (e, delete) (inl h)
  | inr (row, e) ↦
      rw (e, delete)
        (elim (Bool-cases (deletes token row)) [
          | inl c ↦ rw c (contains-remove key s j h)
          | inr c ↦ rw c (inl h)
        ])
]
