-- ===== src/Tests/Interleavings.antt =====
-- Two callers of one key, interleaved.
use exactly_once.Prelude.{
  ℕ, ◌+◌, ◌≤◌, ◌≡◌, refl, arith, ◌&&◌, true, false, none, [], ◌∷◌, Bool, if◌then◌else◌,
}
use exactly_once.Errors.{ok, err, store_unavailable}
use exactly_once.Dict.{lookup, insert, remove}
use exactly_once.Program.{Program}
use exactly_once.Core.Run.{run}
use exactly_once.Core.Guards.{Guard}
use exactly_once.Workers.Blocks.{awith_block}
use exactly_once.Stores.Memory.{memory, present}
use exactly_once.Stores.Memory.Laws.{IsValid, memory-Exclusive}
use exactly_once.Workers.{Rules, FiresAtMost, one_if, counted}
use exactly_once.Workers.Owners.{FiresWhenFresh}
use exactly_once.Workers.System.{
  System, Step, Reach, Caller, call, ablock, act, crash, start, here, next,
}
use exactly_once.Workers.AtMostOnce.{fires_at_most_once, fires-le-removed}
use exactly_once.Tests.Inputs
use exactly_once.Tests.Inputs.{Receipt, guarded, leased, pay, env_at}

-- The effect is the charge. The policies release records, and callers run on where the store is down,
-- as the two tests say.
abbrev rules : Bool → Bool → Rules Inputs.Charge
rules may_release may_open = record {
  may_release = may_release;
  may_open = may_open;
  is_effect = λ c. true;
}

abbrev Racing : Bool → Bool → Type 0
Racing may_release may_open = System Receipt ℕ memory present "k" (rules may_release may_open)

abbrev Reached : (may_release may_open : Bool) → Racing may_release may_open → Type 0
Reached may_release may_open = Reach Receipt ℕ memory present "k" (rules may_release may_open) []

empty-IsValid : IsValid []
unfolding lookup
empty-IsValid = record { at = λ key row h. cc }

abbrev one_caller : Program Receipt ℕ
one_caller = run 0 guarded pay "k" none

paying_once : (may_release may_open : Bool) → FiresAtMost (rules may_release may_open) 1 pay
paying_once may_release may_open = (omega arith, λ r. tt)

abbrev one_call :
    (may_release : Bool) → Caller Receipt ℕ memory present "k" (rules may_release false) one_caller
one_call may_release = call 0 guarded pay "k" none (paying_once may_release false) refl tt tt

infixl 5 ◌▸◌
abbrev ◌▸◌ :
    {may_release may_open : Bool} {s t : Racing may_release may_open}
    → Reached may_release may_open s
    → Step Receipt ℕ memory present "k" (rules may_release may_open) s t
    → Reached may_release may_open t
r ▸ step = next r step

-- The body of a block: it pays where its guard is fresh.
abbrev paying_body : Guard ℕ → Program Receipt ℕ
paying_body guard = if guard.fresh then pay else Program.done (ok guard.result)

paying_body-FiresWhenFresh : FiresWhenFresh (rules false false) "k" "k" paying_body
paying_body-FiresWhenFresh guard = by_fresh guard.fresh
  where
    by_fresh :
        (b : Bool)
        → FiresAtMost
            (rules false false)
            (one_if (b && true))
            (if b then pay else Program.done (ok guard.result))
    by_fresh true = paying_once false false
    by_fresh false = tt

-- A caller of the decorator and an asynchronous block have come; the block claims first, and the other
-- is answered that the key is in flight; then the block pays.
race : (s : Racing false false) × Reached false false s × (s.fresh ≡ 1) × (s.fired ≡ 1)
unfolding run awith_block memory lookup insert
race = (
  _,
  here
      ▸ start one_caller (one_call false) refl
      ▸ start (awith_block 0 guarded paying_body "k" none [])
          (ablock 0 guarded paying_body "k" none [] paying_body-FiresWhenFresh refl tt tt) refl
      ▸ act [] (_ ∷ []) _ _ (env_at 1) (err store_unavailable) refl refl
      ▸ act (_ ∷ []) [] _ _ (env_at 2) (err store_unavailable) refl refl
      ▸ act [] (_ ∷ []) _ _ (env_at 3) (ok 7) refl refl,
  refl,
  refl,
)

fires_at_most_once_example :
    (race.0.fired ≤ race.0.fresh + counted false race.0.outages)
    × (race.0.fresh + one_if (present [] "k") ≤ 1)
fires_at_most_once_example =
    fires_at_most_once memory-Exclusive "k" {is_effect = λ c. true} false {state = []} {s = race.0}
      empty-IsValid race.1

abbrev leased_caller : Program Receipt ℕ
leased_caller = run 0 leased pay "k" none

abbrev leased_call : Caller Receipt ℕ memory present "k" (rules true true) leased_caller
leased_call = call 0 leased pay "k" none (paying_once true true) refl tt tt

-- The first caller pays and crashes; when its lease has run out, the second releases the key, claims
-- it and pays again.
adoption : (s : Racing true true) × Reached true true s × (s.fired ≡ 2) × (s.removed ≡ 1)
unfolding run memory lookup insert remove
adoption = (
  _,
  here
      ▸ start leased_caller leased_call refl
      ▸ act [] [] _ _ (env_at 1) (err store_unavailable) refl refl
      ▸ act [] [] _ _ (env_at 2) tt refl refl
      ▸ act [] [] _ _ (env_at 3) none refl refl
      ▸ act [] [] _ _ (env_at 4) (ok 7) refl refl
      ▸ crash [] [] _ refl refl
      ▸ start leased_caller leased_call refl
      ▸ act [] [] _ _ (env_at 50) (err store_unavailable) refl refl
      ▸ act [] [] _ _ (env_at 51) (ok 0) refl refl
      ▸ act [] [] _ _ (env_at 52) (ok tt) refl refl
      ▸ act [] [] _ _ (env_at 53) (err store_unavailable) refl refl
      ▸ act [] [] _ _ (env_at 54) tt refl refl
      ▸ act [] [] _ _ (env_at 55) none refl refl
      ▸ act [] [] _ _ (env_at 56) (ok 7) refl refl,
  refl,
  refl,
)

fires-le-removed_example :
    adoption.0.fired + one_if (present [] "k") ≤ adoption.0.removed + 1 + adoption.0.outages
fires-le-removed_example =
    fires-le-removed memory-Exclusive "k" {is_effect = λ c. true} {state = []} {s = adoption.0}
      empty-IsValid adoption.1
