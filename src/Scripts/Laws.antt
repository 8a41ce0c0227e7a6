-- ===== src/Scripts/Laws.antt =====
-- What a run of the lint that exits with 0 says of the documents.
use exactly_once.Prelude.{String, ◌≢◌, Bool, true, ◌≡◌, Option, none, some, List, [], ◌∷◌}
use exactly_once.Scripts.Contains.{Contains, ContainsOne}
use exactly_once.Scripts.{Texts, negators, scopes, any_in}

module _ (texts : Texts) where
  -- A sentence that speaks of exactly-once delivery has one of the negating texts in it.
  abbrev pub IsNegated : String → Type 0
  IsNegated sentence =
      texts.finds_delivery sentence ≡ true → ContainsOne negators (texts.lower sentence)

  -- Of the pieces that the splitting of a document gives, those that are not blank are sentences.
  abbrev pub AllNegated : List String → Type 0
  AllNegated [] = Unit
  AllNegated (piece ∷ pieces) =
      (texts.strip piece ≢ "" → IsNegated (texts.strip piece)) × AllNegated pieces

  -- A document that has "exactly-once" in it has one of the scoping texts in it.
  abbrev pub IsScoped : String → Type 0
  IsScoped text = Contains "exactly-once" (texts.lower text) → ContainsOne scopes (texts.lower text)

  abbrev pub IsHonest : String → Type 0
  IsHonest text = AllNegated (texts.split text) × IsScoped text

  -- Every target that exists is honest.
  abbrev pub AllHonest : List (String × Option String) → Type 0
  AllHonest [] = Unit
  AllHonest ((rel, none) ∷ targets) = AllHonest targets
  AllHonest ((rel, some text) ∷ targets) = IsHonest text × AllHonest targets

  -- The tests of the two rules, as they are written here.
  abbrev has_negator : String → Bool
  has_negator sentence = any_in negators (texts.lower sentence)

  abbrev has_scope : String → Bool
  has_scope text = any_in scopes (texts.lower text)
