-- ===== src/Workers/Exits.antt =====
-- `__exit__` and `__aexit__` of src/exactly_once/core.py fire no effect and release no key.
use exactly_once.Prelude.{refl, String, Bool, true, false, [], ◌∷◌}
use exactly_once.Program.{Op, Program, done, pure, ◌>>=◌, ◌>>◌}
use exactly_once.Core.{Once, stop_heartbeat, astop_heartbeat}
use exactly_once.Core.Guards.{Guard, Stack, exit, pop_guard, skips}
use exactly_once.Core.Aguards.{aexit}
use exactly_once.Workers.{Rules}
use exactly_once.Workers.Quiet.{stop_heartbeat-IsQuiet, astop_heartbeat-IsQuiet}
use exactly_once.Workers.Spends.{IsQuiet, bind-IsQuiet}

module _ {C : Type 0} {R : C → Type 0} {V : Type 0} (k : String) (rules : Rules C) where
  -- What `__exit__` does with a guard, once it is known whether it skips it.
  leaving-IsQuiet :
      (self : Once R V) (guard : Guard V) (stack : Stack V) (stop : Program R (Unit {0}))
      → IsQuiet k rules stop
      → (clean skipped : Bool)
      → IsQuiet k rules (
          elim skipped as (λ x. Program R (Unit {0})) [
            | true ↦ pure tt
            | false ↦ do
              stop
              elim clean [
                | true ↦ do
                  encoded ← done (self.codec.encode guard.result)
                  Program.op (Op.commit guard.key encoded) done
                | false ↦ pure tt
              ]
          ]
          >>= λ _. pure stack)
  leaving-IsQuiet self guard stack stop q clean true = tt
  leaving-IsQuiet self guard stack stop q true false =
      bind-IsQuiet k rules
        (stop >>= λ _. done (self.codec.encode guard.result) >>= λ encoded.
          Program.op (Op.commit guard.key encoded) done)
        _
        (bind-IsQuiet k rules stop _ q (λ _.
          bind-IsQuiet k rules (done (self.codec.encode guard.result)) _ tt
            (λ encoded. (refl, refl, λ r. tt))))
        (λ _. tt)
  leaving-IsQuiet self guard stack stop q false false =
      bind-IsQuiet k rules (stop >>= λ _. pure tt) _ (bind-IsQuiet k rules stop _ q (λ _. tt))
        (λ _. tt)

  pub exit-IsQuiet :
      (self : Once R V) (clean : Bool) (stack : Stack V) → IsQuiet k rules (exit self clean stack)
  unfolding exit pop_guard
  exit-IsQuiet self clean [] = tt
  exit-IsQuiet self clean (guard ∷ stack) =
      leaving-IsQuiet self guard stack (stop_heartbeat guard.hb)
        (stop_heartbeat-IsQuiet R k rules guard.hb) clean (skips guard)

  pub aexit-IsQuiet :
      (self : Once R V) (clean : Bool) (stack : Stack V) → IsQuiet k rules (aexit self clean stack)
  unfolding aexit pop_guard
  aexit-IsQuiet self clean [] = tt
  aexit-IsQuiet self clean (guard ∷ stack) =
      leaving-IsQuiet self guard stack (astop_heartbeat guard.hb)
        (astop_heartbeat-IsQuiet R k rules guard.hb) clean (skips guard)
