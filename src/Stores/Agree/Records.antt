-- ===== src/Stores/Agree/Records.antt =====
-- Records of the memory store and rows of the SQLite store that stand for one another.
use exactly_once.Prelude.{
  String, ◌≡◌, refl, Option, none, some, ◌⊎◌, inl, inr, Bool-cases, eq_iff, str_eq,
}
use mathlib.Core.Path.{subst}
use exactly_once.Types.{ClaimRecord}
use exactly_once.Dict.{lookup, insert, remove, lookup-insert, lookup-remove}
use exactly_once.Stores.Base.{Env}
use exactly_once.Stores.Memory.{MemoryStore, memory}
use exactly_once.Stores.Effects.{EffectRow, Table, row_to_record, select}
use exactly_once.Stores.Sqlite.{sqlite}
use exactly_once.Stores.Agree.{SameRecord, SameFound, Request, serve, SameAnswer}

-- The states of the two stores after the same calls.
abbrev pub Related : MemoryStore → Table → Type 0
Related s t = (key : String) → SameFound (lookup key s) (select key t)

-- What the two hold for a key.
unfoldable pub Met : MemoryStore → Table → String → Type 0
Met s t key =
    ((lookup key s ≡ none) × (lookup key t ≡ none))
    ⊎ ((r : ClaimRecord) × (e : EffectRow) × (lookup key s ≡ some r)
        × (lookup key t ≡ some e)
        × SameRecord r (row_to_record key e))

pub met : (s : MemoryStore) (t : Table) (key : String) → Related s t → Met s t key
unfolding Met select
met s t key rel = by_found (lookup key s) (lookup key t) refl refl (rel key)
  where
    found : Option EffectRow → Option ClaimRecord
    found o = elim o [ none ↦ none | some row ↦ some (row_to_record key row) ]

    by_found :
        (a : Option ClaimRecord) (b : Option EffectRow)
        → lookup key s ≡ a
        → lookup key t ≡ b
        → SameFound a (found b)
        → Met s t key
    by_found none none p q h = inl (p, q)
    by_found none (some e) p q h = absurd h
    by_found (some r) none p q h = absurd h
    by_found (some r) (some e) p q h = inr (r, e, p, q, h)

pub Related-insert :
    (key : String) (r : ClaimRecord) (e : EffectRow) (s : MemoryStore) (t : Table)
    → Related s t
    → SameRecord r (row_to_record key e)
    → Related (insert key r s) (insert key e t)
unfolding select
Related-insert key r e s t rel h j = rw (lookup-insert key j r s) (
    rw (lookup-insert key j e t, select)
      (elim (Bool-cases (str_eq key j)) [
        | inl same ↦
            rw same (subst (λ k. SameRecord r (row_to_record k e)) ((eq_iff key j).0 same) h)
        | inr differ ↦ rw differ (rel j)
      ]))

pub Related-remove :
    (key : String) (s : MemoryStore) (t : Table)
    → Related s t
    → Related (remove key s) (remove key t)
unfolding select
Related-remove key s t rel j = rw (lookup-remove key j s) (
    rw (lookup-remove key j t, select)
      (elim (Bool-cases (str_eq key j)) [ inl same ↦ rw same tt | inr differ ↦ rw differ (rel j) ]))

-- A call of both stores: the answers are the same, and so are the records that they leave.
abbrev pub Agrees : Env → (q : Request) → MemoryStore → Table → Type 0
Agrees env q s t =
    SameAnswer q (serve memory env q s).0 (serve sqlite env q t).0
    × Related (serve memory env q s).1 (serve sqlite env q t).1
