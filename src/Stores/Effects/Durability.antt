-- ===== src/Stores/Effects/Durability.antt =====
-- What the statements on the table `effects` do to the results that are committed.
use exactly_once.Prelude.{
  ℕ, String, ◌≡◌, inl, inr, Option-cases, none, some, Option, Bytes, arith, eq_iff, if◌then◌else◌,
}
use exactly_once.Types.{State, is_state}
use exactly_once.Dict.{lookup, insert, remove, lookup-insert, lookup-remove}
use exactly_once.Stores.Base.{Holds}
use exactly_once.Stores.Effects
use exactly_once.Stores.Effects.{
  EffectRow, Table, selected, overwritten, backfilled, upsert, delete, renew,
}
use exactly_once.Stores.Effects.Laws.{IsValid}

abbrev pub row_result : EffectRow → Option Bytes
row_result row = if is_state row.state State.committed then row.result else none

abbrev pub result_at : Table → String → Option Bytes
result_at db key = elim (lookup key db) [ none ↦ none | some row ↦ row_result row ]

-- A row for a key that had none.
pub inserted-Holds :
    (key : String) (row : EffectRow) (s : Table) (j : String) (b : Bytes)
    → lookup key s ≡ none
    → result_at s j ≡ some b
    → result_at (insert key row s) j ≡ some b
inserted-Holds key row s j b e h = ground (arith, lookup-insert key j row s, eq_iff key j, e, h)

pub upsert-Holds :
    (now : ℕ) (key : String) (b : Bytes) → Holds result_at IsValid (λ d. (tt, upsert now key b d))
unfolding upsert
upsert-Holds now key b s j r v h = elim (Option-cases (lookup key s)) [
  | inl e ↦ rw (e, upsert) (inserted-Holds key (backfilled now b) s j r e h)
  | inr (row, e) ↦
      rw (e, upsert)
        (ground (arith, lookup-insert key j (overwritten now b row) s, eq_iff key j, e, h))
]

pub upsert-sets :
    (now : ℕ) (key : String) (b : Bytes) (s : Table)
    → IsValid s
    → result_at s key ≡ none
    → result_at (upsert now key b s) key ≡ some b
unfolding upsert
upsert-sets now key b s v h = elim (Option-cases (lookup key s)) [
  | inl e ↦
      rw (e, upsert) (ground (arith, lookup-insert key key (backfilled now b) s, eq_iff key key))
  | inr (row, e) ↦
      rw (e, upsert)
        (ground (
          arith,
          lookup-insert key key (overwritten now b row) s,
          eq_iff key key,
          e,
          h,
          (v.at key row e).has_result,
        ))
]

pub delete-Holds :
    (key : String) (token : Option String) → Holds result_at IsValid (λ d. (tt, delete key token d))
unfolding delete
delete-Holds key token s j b v h = elim (Option-cases (lookup key s)) [
  | inl e ↦ rw (e, delete) h
  | inr (row, e) ↦ rw (e, delete) (by_token token row e)
]
  where
    by_token :
        (t : Option String) (row : EffectRow)
        → lookup key s ≡ some row
        → result_at (if Effects.deletes t row then remove key s else s) j ≡ some b
    by_token none row e = ground (arith, lookup-remove key j s, eq_iff key j, e, h)
    by_token (some t) row e = ground (arith, lookup-remove key j s, eq_iff key j, e, h)

pub renew-Holds :
    (deadline : ℕ) (key token : String) → Holds result_at IsValid (renew deadline key token)
unfolding renew
renew-Holds deadline key token s j b v h = elim (Option-cases (lookup key s)) [
  | inl e ↦ rw (e, renew) h
  | inr (row, e) ↦
      rw (e, renew)
        (ground (
          arith,
          lookup-insert key j (record row { lease_expires_at = some deadline }) s,
          eq_iff key j,
          e,
          h,
        ))
]

-- A row that is selected, where a result is committed.
pub selected-replays :
    (key : String) (row : EffectRow) (s : Table) (b : Bytes)
    → lookup key s ≡ some row
    → result_at s key ≡ some b
    → ((selected key row).state ≡ State.committed) × ((selected key row).result ≡ some b)
selected-replays key row s b e h = ground (arith, e, h)

pub absent_result :
    (key : String) (s : Table) (b : Bytes) → lookup key s ≡ none → result_at s key ≡ some b → ⊥
absent_result key s b e h = ground (arith, e, h)

pub inserted_open :
    (now : ℕ) (key : String) (fp : Option String) (token : String) (lease : Option ℕ) (s : Table)
    → result_at (insert key (Effects.inserted now fp token lease) s) key ≡ none
inserted_open now key fp token lease s =
    ground (arith, lookup-insert key key (Effects.inserted now fp token lease) s, eq_iff key key)
