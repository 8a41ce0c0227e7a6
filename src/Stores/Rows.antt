-- ===== src/Stores/Rows.antt =====
-- A row of a SELECT as the value that the library makes of it: `_row_to_record` and `_to_bytes` of
-- src/exactly_once/stores/postgres.py, which SQLite's `_row_to_record` agrees with.
use exactly_once.Prelude.{ℕ, String, Option, none, some, Bytes, str_eq, if◌then◌else◌, ◌≡◌, refl}
use exactly_once.Errors.{Result, ok, err, ◌>>=◌, value_error, type_error}
use exactly_once.Types.{State, ClaimRecord}
use exactly_once.Stores.Effects.{EffectRow, row_to_record}
use exactly_once.Stores.Schema.{Cell}

-- The value of a member of `State`.
abbrev pub state_value : State → String
state_value State.fresh = "fresh"
state_value State.in_flight = "in_flight"
state_value State.committed = "committed"

-- `State(state)`
unfoldable pub state_of : Cell → Result State
state_of (Cell.text s) =
    if str_eq s "fresh"
    then ok State.fresh
    else if str_eq s "in_flight"
    then ok State.in_flight
    else if str_eq s "committed"
    then ok State.committed
    else err value_error
state_of _ = err value_error

-- `_to_bytes`
unfoldable pub to_bytes : Cell → Result (Option Bytes)
to_bytes Cell.null = ok none
to_bytes (Cell.blob b) = ok (some b)
to_bytes _ = err type_error

-- A text column, of which the library makes no check: any other cell is out of its type.
abbrev text_or_none : Cell → Result (Option String)
text_or_none Cell.null = ok none
text_or_none (Cell.text s) = ok (some s)
text_or_none _ = err type_error

abbrev text_cell : Cell → Result String
text_cell (Cell.text s) = ok s
text_cell _ = err type_error

-- `float(…)`
abbrev float_cell : Cell → Result ℕ
float_cell (Cell.time t) = ok t
float_cell _ = err type_error

abbrev float_or_none : Cell → Result (Option ℕ)
float_or_none Cell.null = ok none
float_or_none (Cell.time t) = ok (some t)
float_or_none _ = err type_error

-- The row in the order of `_LEDGER_COLS`.
pub record Cells : Type 0 where
  pub key : Cell
  pub state : Cell
  pub result : Cell
  pub fingerprint : Cell
  pub created_at : Cell
  pub updated_at : Cell
  pub token : Cell
  pub lease : Cell

unfoldable pub record_of_cells : Cells → Result ClaimRecord
unfolding state_of to_bytes
record_of_cells row = do
  key ← text_cell row.key
  state ← state_of row.state
  result ← to_bytes row.result
  fingerprint ← text_or_none row.fingerprint
  created_at ← float_cell row.created_at
  updated_at ← float_cell row.updated_at
  token ← text_or_none row.token
  lease ← float_or_none row.lease
  ok (record {
    key = key;
    state = state;
    result = result;
    fingerprint = fingerprint;
    created_at = some created_at;
    updated_at = some updated_at;
    token = token;
    lease_expires_at = lease;
  })

-- The cells that the statements write for a row of the table.
abbrev text_or_null : Option String → Cell
text_or_null none = Cell.null
text_or_null (some s) = Cell.text s

abbrev blob_or_null : Option Bytes → Cell
blob_or_null none = Cell.null
blob_or_null (some b) = Cell.blob b

abbrev time_or_null : Option ℕ → Cell
time_or_null none = Cell.null
time_or_null (some t) = Cell.time t

unfoldable pub cells_of : String → EffectRow → Cells
cells_of key row = record {
  key = Cell.text key;
  state = Cell.text (state_value row.state);
  result = blob_or_null row.result;
  fingerprint = text_or_null row.fingerprint;
  created_at = Cell.time row.created_at;
  updated_at = Cell.time row.updated_at;
  token = text_or_null row.token;
  lease = time_or_null row.lease_expires_at;
}

state_back : (s : State) → state_of (Cell.text (state_value s)) ≡ ok s
unfolding state_of
state_back State.fresh = refl
state_back State.in_flight = refl
state_back State.committed = refl

bytes_back : (b : Option Bytes) → to_bytes (blob_or_null b) ≡ ok b
unfolding to_bytes
bytes_back none = refl
bytes_back (some b) = refl

text_back : (s : Option String) → text_or_none (text_or_null s) ≡ ok s
text_back none = refl
text_back (some s) = refl

time_back : (t : Option ℕ) → float_or_none (time_or_null t) ≡ ok t
time_back none = refl
time_back (some t) = refl

-- Every row that is written to the table reads back as its record.
pub rows_read_back :
    (key : String) (row : EffectRow)
    → record_of_cells (cells_of key row) ≡ ok (row_to_record key row)
unfolding record_of_cells cells_of
rows_read_back key row = rw (state_back row.state) (
    rw (bytes_back row.result) (
      rw (text_back row.fingerprint)
        (rw (text_back row.token) (rw (time_back row.lease_expires_at) refl))))
