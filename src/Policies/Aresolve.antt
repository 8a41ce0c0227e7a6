-- ===== src/Policies/Aresolve.antt =====
-- `Policy.aresolve`, the asynchronous mirror of `resolve`, of each policy of
-- src/exactly_once/policies.py.
use exactly_once.Prelude.{ℕ, zero, suc, ◌+◌, String, Option, none, ltb, if◌then◌else◌}
use exactly_once.Errors.{out_of_fuel}
use exactly_once.Types.{ClaimResult}
use exactly_once.Codec.{Codec}
use exactly_once.Program.{Program, pure, raise, ◌>>=◌, ◌>>◌}
use exactly_once.Program.Calls
use exactly_once.Policies.Defs.{
  Directive, ProbeResult, Prober, Policy, stay_quarantined, run_again, alease_valid,
}
use exactly_once.Policies.Resolve.{apply_probe, settle, poll}

module _ {C : Type 0} {R : C → Type 0} {V : Type 0} where
  unfoldable pub aresolve_quarantine : Option V → Program R (Directive V)
  aresolve_quarantine sentinel = pure (stay_quarantined sentinel)

  unfoldable pub aresolve_fail : Program R (Directive V)
  aresolve_fail = pure (stay_quarantined none)

  unfoldable pub aresolve_auto_retry : String → ClaimResult → Program R (Directive V)
  unfolding alease_valid
  aresolve_auto_retry key claim = do
    live ← alease_valid claim
    if live then pure (stay_quarantined none) else do Calls.release key claim.token; pure run_again

  abbrev acall_prober : Prober R V → String → Program R (ProbeResult V)
  acall_prober (Prober.plain f) key = f key
  acall_prober (Prober.awaitable f) key = f key

  unfoldable pub aresolve_check :
      Prober R V → Codec V → String → ClaimResult → Program R (Directive V)
  unfolding alease_valid apply_probe settle
  aresolve_check prober codec key claim = do
    live ← alease_valid claim
    if live then pure (stay_quarantined none) else do
      probe ← acall_prober prober key
      directive ← apply_probe codec probe
      settle key claim directive.action directive.result
      pure directive

  -- `while time.monotonic() < deadline`, with a bound on the rounds.
  unfoldable pub await_loop : ℕ → ℕ → ℕ → String → Program R (Directive V)
  unfolding poll
  await_loop zero deadline interval key = raise out_of_fuel
  await_loop (suc fuel) deadline interval key =
      let rest = await_loop fuel deadline interval key in
      do
        time ← Calls.monotonic
        if ltb time deadline
            then (do rec ← Calls.get key; poll rec (Calls.sleep interval >> rest))
            else pure (stay_quarantined none)

  -- A round takes a microsecond or more, so that `timeout + 1` rounds are enough.
  unfoldable pub aresolve_wait : ℕ → ℕ → String → Program R (Directive V)
  unfolding await_loop
  aresolve_wait timeout interval key = do
    start ← Calls.monotonic
    await_loop (suc timeout) (start + timeout) interval key

  unfoldable pub aresolve : Policy R V → Codec V → String → ClaimResult → Program R (Directive V)
  unfolding aresolve_quarantine aresolve_fail aresolve_auto_retry aresolve_check aresolve_wait
  aresolve (Policy.quarantine sentinel) codec key claim = aresolve_quarantine sentinel
  aresolve Policy.fail codec key claim = aresolve_fail
  aresolve Policy.auto_retry codec key claim = aresolve_auto_retry key claim
  aresolve (Policy.check_then_decide prober) codec key claim = aresolve_check prober codec key claim
  aresolve (Policy.wait timeout interval) codec key claim = aresolve_wait timeout interval key
