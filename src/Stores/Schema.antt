-- ===== src/Stores/Schema.antt =====
-- The opening of a SQL store, the constructors of src/exactly_once/stores/sqlite.py and postgres.py:
-- the table `effects` as the database has it, perhaps from an older version of the library.
pub mod Laws
pub mod Upgrade
use exactly_once.Prelude.{
  ℕ, String, Bool, true, false, Option, none, some, List, [], ◌∷◌, ◌++◌, map, Bytes, ◌||◌, str_eq,
  if◌then◌else◌,
}
use exactly_once.Errors.{Result, ok, err, value_error, type_error, store_unavailable}
use exactly_once.Types.{State, ClaimRecord}
use exactly_once.Dict.{Dict, lookup, insert}

pub data Cell : Type 0 where
  null : Cell
  text : String → Cell
  blob : Bytes → Cell
  time : ℕ → Cell

-- A row has a cell for each of the columns.
pub record RawTable : Type 0 where
  pub columns : List String
  pub rows : List (Dict Cell)

-- What CREATE TABLE gives the columns, the last two of them added by later versions.
abbrev pub first_columns : List String
first_columns = "key" ∷ "state" ∷ "result" ∷ "fingerprint" ∷ "created_at" ∷ "updated_at" ∷ []

abbrev pub all_columns : List String
all_columns = first_columns ++ "token" ∷ "lease_expires_at" ∷ []

unfoldable pub has_column : String → List String → Bool
has_column name [] = false
has_column name (c ∷ cs) = str_eq c name || has_column name cs

-- CREATE TABLE IF NOT EXISTS
abbrev pub create_table : Option RawTable → RawTable
create_table none = record { columns = all_columns; rows = [] }
create_table (some t) = t

-- ALTER TABLE effects ADD COLUMN: NULL in every row.
unfoldable pub add_column : String → RawTable → RawTable
add_column name t = record {
  columns = t.columns ++ name ∷ [];
  rows = map (insert name Cell.null) t.rows;
}

-- `if column not in present`
abbrev pub add_unless : List String → String → RawTable → RawTable
add_unless present name t = if has_column name present then t else add_column name t

-- `SQLiteStore._migrate`: the columns are read once, before the loop.
unfoldable pub sqlite_migrate : RawTable → RawTable
unfolding add_column has_column
sqlite_migrate t = add_unless t.columns "lease_expires_at" (add_unless t.columns "token" t)

-- `SQLiteStore.__init__` from its CREATE TABLE on.
unfoldable pub sqlite_open : Option RawTable → RawTable
unfolding sqlite_migrate
sqlite_open db = sqlite_migrate (create_table db)

-- ADD COLUMN IF NOT EXISTS
abbrev pub add_if_missing : String → RawTable → RawTable
add_if_missing name t = add_unless t.columns name t

-- `_MIGRATE_SQL`
unfoldable pub postgres_migrate : RawTable → RawTable
unfolding add_column has_column
postgres_migrate t = add_if_missing "lease_expires_at" (add_if_missing "token" t)

-- `PostgresStore.__init__`, by whether the connection is made.
unfoldable pub postgres_open : Bool → Option RawTable → Result RawTable
unfolding postgres_migrate
postgres_open false db = err store_unavailable
postgres_open true db = ok (postgres_migrate (create_table db))
