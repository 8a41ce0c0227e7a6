-- ===== src/Scripts.antt =====
-- src/scripts/check_docs_honesty.py: a lint over the documents, which fails where one of them claims
-- what the library does not give.
pub mod Contains
pub mod Laws
use Prim.Native.String
use text.Mathlib.Text.{starts_with}
use exactly_once.Prelude.{
  ℕ, String, Bool, true, false, Option, none, some, List, [], ◌∷◌, ◌++◌, ◌&&◌, ◌||◌, not, map,
  str_eq, str_append, if◌then◌else◌,
}
use exactly_once.Keys.{take_text}

-- What the script uses of Python: `str.lower`, `str.strip`, the split by `_SENTENCE_SPLIT`, and whether
-- `_DELIVERY` is found.
pub record Texts : Type 0 where
  pub lower : String → String
  pub strip : String → String
  pub split : String → List String
  pub finds_delivery : String → Bool

abbrev pub negators : List String
negators =
    "not" ∷ "impossible" ∷ "cannot" ∷ "can't" ∷ "isn't" ∷ "is not" ∷ "no such thing" ∷ "a lie"
    ∷ "myth" ∷ "never" ∷ "without" ∷ []

abbrev pub scopes : List String
scopes =
    "effect" ∷ "at most once" ∷ "at-most-once" ∷ "not delivery" ∷ "replay-on-success"
    ∷ "replay on success" ∷ []

-- `part in s`
unfoldable pub is_in : String → String → Bool
is_in part String.[] = starts_with String.[] part
is_in part (String.◌∷◌ c s) = starts_with (String.◌∷◌ c s) part || is_in part s

-- `any(part in s for part in parts)`
unfoldable pub any_in : List String → String → Bool
unfolding is_in
any_in [] s = false
any_in (part ∷ parts) s = is_in part s || any_in parts s

unfoldable pub non_empty : List String → List String
non_empty [] = []
non_empty (s ∷ ss) = let rest = non_empty ss in if str_eq s "" then rest else s ∷ rest

module _ (texts : Texts) where
  -- `_sentences`
  unfoldable pub sentences : String → List String
  unfolding non_empty
  sentences text = non_empty (map texts.strip (texts.split text))

  abbrev pub overclaims : String → Bool
  overclaims sentence =
      texts.finds_delivery sentence && not (any_in negators (texts.lower sentence))

  abbrev overclaim_problem : String → String → String
  overclaim_problem rel sentence = str_append rel (
      str_append ": claims 'exactly-once delivery' without negating it — " (
        str_append "delivery is impossible; scope it as effect/at-most-once:\n"
          (str_append "    “" (str_append (take_text 160 sentence) "”"))))

  -- Rule 1
  unfoldable pub delivery_problems : String → List String → List String
  unfolding any_in take_text
  delivery_problems rel [] = []
  delivery_problems rel (sentence ∷ rest) =
      let later = delivery_problems rel rest in
      if overclaims sentence then overclaim_problem rel sentence ∷ later else later

  abbrev pub is_unscoped : String → Bool
  is_unscoped text =
      let low_text = texts.lower text in
      is_in "exactly-once" low_text && not (any_in scopes low_text)

  abbrev scope_problem : String → String
  scope_problem rel = str_append rel (
      str_append ": mentions 'exactly-once' but never scopes it (no 'effect' / "
        "'at most once' / 'not delivery' qualifier anywhere in the file).")

  -- Rule 2
  unfoldable pub scope_problems : String → String → List String
  unfolding any_in is_in
  scope_problems rel text = if is_unscoped text then scope_problem rel ∷ [] else []

  unfoldable pub check_file : String → String → List String
  unfolding sentences delivery_problems scope_problems
  check_file rel text = delivery_problems rel (sentences text) ++ scope_problems rel text

  -- The paths of `TARGETS` with the texts of those that exist.
  unfoldable pub all_problems : List (String × Option String) → List String
  unfolding check_file
  all_problems [] = []
  all_problems ((rel, none) ∷ targets) = all_problems targets
  all_problems ((rel, some text) ∷ targets) = check_file rel text ++ all_problems targets

-- What `main` returns for the problems that it found.
abbrev pub exit_status : List String → ℕ
exit_status [] = 0
exit_status (_ ∷ _) = 1

-- What it prints is left out.
unfoldable pub main : Texts → List (String × Option String) → ℕ
unfolding all_problems
main texts targets = exit_status (all_problems texts targets)
