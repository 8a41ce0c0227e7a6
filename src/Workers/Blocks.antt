-- ===== src/Workers/Blocks.antt =====
-- The `with` statement over a `once` object of src/exactly_once/core.py, as Python runs it: the
-- guard of `__enter__`, the caller's body with it, and `__exit__` however the body ended.
use exactly_once.Prelude.{String, Bool, true, false, Option, ◌∷◌}
use exactly_once.Errors.{Result, ok, err}
use exactly_once.Program.{Program, attempt, from_result, ◌>>=◌, ◌>>◌}
use exactly_once.Core.{Once}
use exactly_once.Core.Guards.{Guard, Stack, enter, exit}
use exactly_once.Core.Aguards.{aenter, aexit}

module _ {V : Type 0} where
  abbrev pub is_clean : Result V → Bool
  is_clean (ok v) = true
  is_clean (err e) = false

  -- The body leaves its value in `guard.result`.
  abbrev pub leaving : Result V → Stack V → Stack V
  leaving (ok v) (guard ∷ stack) = record guard { result = v } ∷ stack
  leaving _ stack = stack

module _ {C : Type 0} {R : C → Type 0} {V : Type 0} where
  unfoldable pub with_block :
      V → Once R V → (Guard V → Program R V) → String → Option String → Stack V → Program R V
  unfolding enter exit
  with_block nil self body key fp stack = do
    entered ← enter nil self key fp stack
    outcome ← attempt (body entered.0)
    exit self (is_clean outcome) (leaving outcome entered.1)
    from_result outcome

  unfoldable pub awith_block :
      V → Once R V → (Guard V → Program R V) → String → Option String → Stack V → Program R V
  unfolding aenter aexit
  awith_block nil self body key fp stack = do
    entered ← aenter nil self key fp stack
    outcome ← attempt (body entered.0)
    aexit self (is_clean outcome) (leaving outcome entered.1)
    from_result outcome
