-- ===== src/Stores/Schema/Upgrade.antt =====
-- What the opening of a SQL store leaves of the rows of an older table.
use exactly_once.Prelude.{
  String, Bool, true, false, ◌≡◌, refl, ap, ◌∙◌, sym, some, List, map, Bool-cases, inl, inr, str_eq,
  eq_iff, if◌then◌else◌,
}
use mathlib.Core.List.{map-map, map-id}
use mathlib.Core.Path.{subst}
use exactly_once.Dict.{Dict, lookup, insert, lookup-insert}
use exactly_once.Stores.Schema.{
  Cell, RawTable, has_column, add_column, add_unless, sqlite_open, sqlite_migrate,
}

abbrev cell_unless : List String → String → Dict Cell → Dict Cell
cell_unless present name row = if has_column name present then row else insert name Cell.null row

-- A row of a table with the columns `present`, with the columns of later versions.
abbrev pub upgraded : List String → Dict Cell → Dict Cell
upgraded present row = cell_unless present "lease_expires_at" (cell_unless present "token" row)

rows_lem :
    (present : List String) (name : String) (t : RawTable)
    → (add_unless present name t).rows ≡ map (cell_unless present name) t.rows
unfolding add_column
rows_lem present name t = by_presence (has_column name present)
  where
    by_presence :
        (b : Bool)
        → (if b then t else add_column name t).rows
          ≡ map (λ row. if b then row else insert name Cell.null row) t.rows
    by_presence true = sym (map-id t.rows)
    by_presence false = refl

cell_kept :
    (present : List String) (name other : String) (row : Dict Cell)
    → has_column name present ≡ true
    → lookup name (cell_unless present other row) ≡ lookup name row
cell_kept present name other row h = elim (Bool-cases (has_column other present)) [
  | inl e ↦ rw e refl
  | inr e ↦ elim (Bool-cases (str_eq other name)) [
    | inl same ↦
        absurd (
          cc (sym e, subst (λ n. has_column n present ≡ true) (sym ((eq_iff other name).0 same)) h))
    | inr differ ↦ rw e (lookup-insert other name Cell.null row ∙ rw differ refl)
  ]
]

-- Opening an older table changes no row but by the columns that it adds: each cell reads as it did.
pub opened_keeps :
    (t : RawTable) (name : String) (row : Dict Cell)
    → has_column name t.columns ≡ true
    → ((sqlite_open (some t)).rows ≡ map (upgraded t.columns) t.rows)
      × (lookup name (upgraded t.columns row) ≡ lookup name row)
unfolding sqlite_open sqlite_migrate
opened_keeps t name row h = (
  rows_lem t.columns "lease_expires_at" (add_unless t.columns "token" t)
      ∙ ap (map (cell_unless t.columns "lease_expires_at")) (rows_lem t.columns "token" t)
      ∙ map-map (cell_unless t.columns "lease_expires_at") (cell_unless t.columns "token") t.rows,
  cell_kept t.columns name "lease_expires_at" (cell_unless t.columns "token" row) h
      ∙ cell_kept t.columns name "token" row h,
)

-- A column that is added reads NULL in every row.
pub added_null :
    (present : List String) (row : Dict Cell)
    → has_column "token" present ≡ false
    → has_column "lease_expires_at" present ≡ false
    → (lookup "token" (upgraded present row) ≡ some Cell.null)
      × (lookup "lease_expires_at" (upgraded present row) ≡ some Cell.null)
added_null present row t l = rw t (
    rw l (
      rw (lookup-insert "lease_expires_at" "token" Cell.null (insert "token" Cell.null row))
          (rw (lookup-insert "token" "token" Cell.null row) refl),
      rw
          (lookup-insert "lease_expires_at" "lease_expires_at" Cell.null
            (insert "token" Cell.null row))
          refl,
    ))
