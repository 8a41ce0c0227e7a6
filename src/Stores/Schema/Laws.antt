-- ===== src/Stores/Schema/Laws.antt =====
-- What the opening of a SQL store leaves of a table, whatever version of the library made it.
use exactly_once.Prelude.{
  String, Bool, true, false, ◌≡◌, refl, ap, ◌∙◌, sym, Option, none, some, List, [], ◌∷◌, ◌++◌, ◌||◌,
  ◌⊎◌, Bool-cases, inl, inr, str_eq, eq_refl, eq_iff,
}
use mathlib.Core.Path.{subst}
use exactly_once.Errors.{ok}
use exactly_once.Stores.Schema.{
  RawTable, first_columns, all_columns, has_column, create_table, add_column, add_unless,
  sqlite_open, sqlite_migrate, postgres_open, postgres_migrate,
}

or_false : (b : Bool) → (b || false) ≡ b
or_false true = refl
or_false false = refl

or_true : (b : Bool) → (b || true) ≡ true
or_true true = refl
or_true false = refl

or-cases : (a b : Bool) → (a || b) ≡ true → (a ≡ true) ⊎ (b ≡ true)
or-cases true b h = inl refl
or-cases false b h = inr h

has_column-append :
    (name c : String) (cs : List String)
    → has_column name (cs ++ c ∷ []) ≡ (has_column name cs || str_eq c name)
unfolding has_column
has_column-append name c [] = or_false (str_eq c name)
has_column-append name c (d ∷ cs) =
    ap (λ b. str_eq d name || b) (has_column-append name c cs)
    ∙ or_assoc (str_eq d name) (has_column name cs) (str_eq c name)
  where
    or_assoc : (a b c : Bool) → (a || (b || c)) ≡ ((a || b) || c)
    or_assoc true b c = refl
    or_assoc false b c = refl

-- A column that was added does not hide whether another is there.
others_unseen :
    (cs : List String)
    → has_column "lease_expires_at" (cs ++ "token" ∷ []) ≡ has_column "lease_expires_at" cs
others_unseen cs =
    has_column-append "lease_expires_at" "token" cs ∙ or_false (has_column "lease_expires_at" cs)

migrated_alike : (t : RawTable) → postgres_migrate t ≡ sqlite_migrate t
unfolding postgres_migrate sqlite_migrate add_column
migrated_alike t = elim (Bool-cases (has_column "token" t.columns)) [
  | inl e ↦ rw e refl
  | inr e ↦ rw e (rw (others_unseen t.columns) refl)
]

-- The two constructors leave the same table.
opened_alike : (db : Option RawTable) → postgres_open true db ≡ ok (sqlite_open db)
unfolding postgres_open sqlite_open
opened_alike db = ap ok (migrated_alike (create_table db))

column_added :
    (name : String) (t : RawTable) → has_column name (add_unless t.columns name t).columns ≡ true
unfolding add_column
column_added name t = elim (Bool-cases (has_column name t.columns)) [
  | inl e ↦ rw e e
  | inr e ↦ rw e (
      has_column-append name name t.columns
      ∙ rw (eq_refl name) (or_true (has_column name t.columns)))
]

column_kept :
    (name c : String) (present : List String) (t : RawTable)
    → has_column name t.columns ≡ true
    → has_column name (add_unless present c t).columns ≡ true
unfolding add_column
column_kept name c present t h = elim (Bool-cases (has_column c present)) [
  | inl e ↦ rw e h
  | inr e ↦ rw e (has_column-append name c t.columns ∙ rw h refl)
]

-- The two columns of later versions are there once a table is opened.
token_added : (t : RawTable) → has_column "token" (postgres_migrate t).columns ≡ true
unfolding postgres_migrate
token_added t =
    let t' = add_unless t.columns "token" t in
    column_kept "token" "lease_expires_at" t'.columns t' (column_added "token" t)

lease_added : (t : RawTable) → has_column "lease_expires_at" (postgres_migrate t).columns ≡ true
unfolding postgres_migrate
lease_added t = column_added "lease_expires_at" (add_unless t.columns "token" t)

migrated_twice : (t : RawTable) → sqlite_migrate (postgres_migrate t) ≡ postgres_migrate t
unfolding sqlite_migrate
migrated_twice t = rw (token_added t, lease_added t) refl

-- No table, or one that has the columns of the first version.
abbrev pub IsKnown : Option RawTable → Type 0
IsKnown none = Unit
IsKnown (some t) =
    (name : String) → has_column name first_columns ≡ true → has_column name t.columns ≡ true

by_version :
    (name : String)
    → has_column name all_columns ≡ true
    → (has_column name first_columns ≡ true)
      ⊎ ((str_eq "token" name ≡ true) ⊎ (str_eq "lease_expires_at" name ≡ true))
by_version name h =
    elim (or-cases (has_column name (first_columns ++ "token" ∷ [])) _
      (sym (has_column-append name "lease_expires_at" (first_columns ++ "token" ∷ [])) ∙ h)) [
        | inr lease ↦ inr (inr lease)
        | inl rest ↦
            elim (or-cases (has_column name first_columns) _
              (sym (has_column-append name "token" first_columns) ∙ rest)) [
                | inl old ↦ inl old
                | inr token ↦ inr (inl token)
              ]
      ]

complete_lem :
    (db : Option RawTable) (name : String)
    → IsKnown db
    → has_column name all_columns ≡ true
    → has_column name (postgres_migrate (create_table db)).columns ≡ true
unfolding postgres_migrate
complete_lem db name known h = elim (by_version name h) [
  | inl old ↦
      let t = create_table db in
      let t' = add_unless t.columns "token" t in
      column_kept name "lease_expires_at" t'.columns t'
        (column_kept name "token" t.columns t (from_version db known old))
  | inr (inl token) ↦
      subst (λ n. has_column n (postgres_migrate (create_table db)).columns ≡ true)
        ((eq_iff "token" name).0 token) (token_added (create_table db))
  | inr (inr lease) ↦
      subst (λ n. has_column n (postgres_migrate (create_table db)).columns ≡ true)
        ((eq_iff "lease_expires_at" name).0 lease) (lease_added (create_table db))
]
  where
    from_version :
        (db : Option RawTable)
        → IsKnown db
        → has_column name first_columns ≡ true
        → has_column name (create_table db).columns ≡ true
    from_version none known old =
        has_column-append name "lease_expires_at" (first_columns ++ "token" ∷ [])
        ∙ ap (λ b. b || str_eq "lease_expires_at" name)
            (has_column-append name "token" first_columns ∙ ap (λ b. b || str_eq "token" name) old)
    from_version (some t) known old = known name old

-- Opening a database that has no table, or one with the columns of the first version: every column
-- is there afterwards, opening it again changes nothing, and the Postgres store, once connected,
-- leaves the same table as the SQLite store.
pub opened_complete :
    (db : Option RawTable) (name : String)
    → IsKnown db
    → has_column name all_columns ≡ true
    → (has_column name (sqlite_open db).columns ≡ true)
      × (sqlite_open (some (sqlite_open db)) ≡ sqlite_open db)
      × (postgres_open true db ≡ ok (sqlite_open db))
unfolding sqlite_open
opened_complete db name known h = rw (← migrated_alike (create_table db)) (
  complete_lem db name known h,
  migrated_twice (create_table db),
  opened_alike db ∙ ap ok (sym (migrated_alike (create_table db))),
)
