-- ===== src/Scripts/Contains.antt =====
-- The tests `part in s` and `any(part in s for part in parts)` of src/scripts/check_docs_honesty.py, and
-- what they find in a text.
use Prim.Native.String.{◌++◌}
use Prim.Native.String.append
use text.Mathlib.Text.{starts_with}
use text.Mathlib.TextEquality.{starts_with_iff}
use text.Mathlib.TextPositions.{starts_with-append}
use mathlib.Core.Path.{subst}
use mathlib.Core.Logic.{◌↔◌}
use exactly_once.Prelude.{
  sym, String, Bool, true, false, ◌≡◌, ap, ◌∙◌, List, [], ◌∷◌, ◌||◌, ◌⊎◌, inl, inr, Bool-cases,
  arith,
}
use exactly_once.Scripts.{is_in, any_in}

-- The text `part` stands somewhere in `s`.
abbrev pub Contains : String → String → Type 0
Contains part s = (u : String) × (v : String) × (u ++ (part ++ v) ≡ s)

-- One of the texts stands somewhere in `s`.
abbrev pub ContainsOne : List String → String → Type 0
ContainsOne [] s = ⊥
ContainsOne (part ∷ parts) s = Contains part s ⊎ ContainsOne parts s

or_left : (a b : Bool) → a ≡ true → (a || b) ≡ true
or_left a b h = ground arith

or_right : (a b : Bool) → b ≡ true → (a || b) ≡ true
or_right a b h = ground arith

or_second : (a b : Bool) → a ≡ false → (a || b) ≡ true → b ≡ true
or_second a b e h = ground arith

prefix-Contains : (part s : String) → starts_with s part ≡ true → Contains part s
prefix-Contains part s h =
    let (v, e) = (starts_with_iff s part).0 h in (String.[], v, append.nil (part ++ v) ∙ e)

is_in-Contains : (part s : String) → is_in part s ≡ true → Contains part s
unfolding is_in
is_in-Contains part String.[] h = prefix-Contains part String.[] h
is_in-Contains part (String.◌∷◌ c s) h = elim (Bool-cases (starts_with (String.◌∷◌ c s) part)) [
  | inl e ↦ prefix-Contains part (String.◌∷◌ c s) e
  | inr e ↦
      let (u, v, p) = is_in-Contains part s (or_second _ _ e h) in
      (String.◌∷◌ c u, v, append.cons c u (part ++ v) ∙ ap (String.◌∷◌ c) p)
]

start-is_in : (part s : String) → starts_with s part ≡ true → is_in part s ≡ true
unfolding is_in
start-is_in part String.[] h = h
start-is_in part (String.◌∷◌ c s) h = or_left _ _ h

there-is_in : (part u v : String) → is_in part (u ++ (part ++ v)) ≡ true
unfolding is_in
there-is_in part String.[] v =
    subst (λ s. is_in part s ≡ true) (sym (append.nil (part ++ v)))
      (start-is_in part (part ++ v) (starts_with-append part v))
there-is_in part (String.◌∷◌ c u) v =
    subst (λ s. is_in part s ≡ true) (sym (append.cons c u (part ++ v)))
      (or_right _ _ (there-is_in part u v))

pub is_in_iff : (part s : String) → (is_in part s ≡ true) ↔ Contains part s
is_in_iff part s =
    (is_in-Contains part s, λ (u, v, e). subst (λ t. is_in part t ≡ true) e (there-is_in part u v))

pub any_in_iff : (parts : List String) (s : String) → (any_in parts s ≡ true) ↔ ContainsOne parts s
unfolding any_in
any_in_iff [] s = (λ h. absurd (cc), λ h. absurd h)
any_in_iff (part ∷ parts) s = (
  λ h. elim (Bool-cases (is_in part s)) [
    | inl e ↦ inl ((is_in_iff part s).0 e)
    | inr e ↦ inr ((any_in_iff parts s).0 (or_second _ _ e h))
  ],
  elim [
    | inl c ↦ or_left _ _ ((is_in_iff part s).1 c)
    | inr c ↦ or_right _ _ ((any_in_iff parts s).1 c)
  ],
)
