-- ===== src/Tests/Demos.antt =====
-- The demonstrations, the documents' lint and the opening of a table, on concrete inputs.
use exactly_once.Prelude.{ℕ, String, true, ◌≡◌, refl, Option, none, some, List, [], ◌∷◌}
use exactly_once.Errors.{ok, err}
use exactly_once.Codec.{Codec}
use exactly_once.Values.{Value, text, int, obj, fields}
use exactly_once.Keys.{Builtins}
use exactly_once.Stores.{Env}
use exactly_once.Stores.Memory.{memory}
use exactly_once.Stores.Sqlite.{sqlite}
use exactly_once.Stores.Postgres.{postgres}
use exactly_once.Stores.Agree.{Request, SameAnswers}
use exactly_once.Stores.Agree.Laws.{IsCalm, stores_agree}
use exactly_once.Stores.Schema.{
  Cell, RawTable, first_columns, has_column, sqlite_open, postgres_open,
}
use exactly_once.Stores.Schema.Laws.{opened_complete}
use exactly_once.Examples.{charge_dict}
use exactly_once.Examples.Crash.{killed, charges_of, first_attempt, second_attempt, crash_main}
use exactly_once.Examples.Crash.Laws.{resumed_payment}
use exactly_once.Scripts.{Texts}
use exactly_once.Tests.Inputs

abbrev py : Builtins
py = record {
  hexdigest = λ b. "d";
  encode_text = λ s. some [];
  decode_text = λ b. some "";
  decimal = λ n. "1";
}

-- `str`, as far as the demonstration calls it.
abbrev str_of : Value → String
str_of (text s) = s
str_of _ = "1"

abbrev order : Value
order =
    obj
      (fields (("id", text "order-1") ∷ ("customer", text "cus_ABC") ∷ (("amount", int 4999) ∷ [])))

abbrev receipt : Value
receipt = charge_dict str_of 1 (text "cus_ABC") (int 4999)

-- A codec that knows the one charge of the demonstration.
abbrev receipt_codec : Codec Value
receipt_codec = record { encode = λ v. ok (1 ∷ []); decode = λ b. ok receipt }

resumed_payment_example :
    let (r, w) = first_attempt py str_of receipt_codec Inputs.env_at order in
    let (r', w') = second_attempt py str_of receipt_codec Inputs.env_at order in
    (r ≡ err killed)
    × (charges_of str_of w ≡ receipt ∷ [])
    × (r' ≡ ok receipt)
    × (charges_of str_of w' ≡ receipt ∷ [])
    × (crash_main py str_of receipt_codec Inputs.env_at order ≡ ok tt)
resumed_payment_example =
    resumed_payment py str_of receipt_codec Inputs.env_at order (text "order-1") (text "cus_ABC")
      (int 4999) refl refl refl (1 ∷ []) refl refl

-- A table of the first version, with one row.
abbrev old_table : RawTable
old_table = record {
  columns = first_columns;
  rows = (("key", Cell.text "k") ∷ ("state", Cell.text "in_flight") ∷ []) ∷ [];
}

opened_complete_example :
    (has_column "token" (sqlite_open (some old_table)).columns ≡ true)
    × (sqlite_open (some (sqlite_open (some old_table))) ≡ sqlite_open (some old_table))
    × (postgres_open true (some old_table) ≡ ok (sqlite_open (some old_table)))
unfolding has_column
opened_complete_example = opened_complete (some old_table) "token" (λ name h. h) refl

-- A claim, a second one, a heartbeat, a commit and a claim of one key.
abbrev asked : List (Env × Request)
asked =
    (Inputs.env_at 1, Request.claim "k" none (some 30))
    ∷ (Inputs.env_at 2, Request.claim "k" (some "f") none)
    ∷ (Inputs.env_at 3, Request.heartbeat "k" "t" 30)
    ∷ (Inputs.env_at 4, Request.commit "k" (7 ∷ []))
    ∷ (Inputs.env_at 5, Request.claim "k" none none)
    ∷ []

calm : (n : ℕ) → IsCalm (Inputs.env_at n)
calm n = record { commits = λ m. refl; up = refl; clocks = refl }

stores_agree_example :
    SameAnswers memory sqlite asked [] [] × SameAnswers memory postgres asked [] []
stores_agree_example = stores_agree asked (calm 1, (calm 2, (calm 3, (calm 4, (calm 5, tt)))))

-- Texts of one sentence, in lower case; `d` marks a claim of delivery.
abbrev plain_texts : Texts
plain_texts = record {
  lower = λ s. s;
  strip = λ s. s;
  split = λ s. s ∷ [];
  finds_delivery = λ s. true;
}

abbrev documents : List (String × Option String)
documents = ("README.md", some "never exactly-once delivery: an effect") ∷ ("docs/a.md", none) ∷ []
