-- ===== src/Policies/Resolve.antt =====
-- `Policy.resolve` of each policy of src/exactly_once/policies.py.
use exactly_once.Prelude.{ℕ, zero, suc, ◌+◌, String, Option, none, some, Bytes, ltb, if◌then◌else◌}
use exactly_once.Errors.{type_error, out_of_fuel}
use exactly_once.Types.{State, ClaimResult, ClaimRecord}
use exactly_once.Codec.{Codec}
use exactly_once.Program.{Program, pure, raise, from_result, ◌>>=◌, ◌>>◌}
use exactly_once.Program.Calls
use exactly_once.Policies.Defs.{
  Action, Directive, Verdict, ProbeResult, Prober, Policy, stay_quarantined, run_again,
  replay_result, lease_valid,
}

module _ {C : Type 0} {R : C → Type 0} where
  -- What `resolve` does to the store for the directive that `_apply` gave.
  unfoldable pub settle : String → ClaimResult → Action → Option Bytes → Program R (Unit {0})
  settle key claim Action.replay (some result) = Calls.commit key result
  settle key claim Action.replay none = pure tt
  settle key claim Action.run _ = Calls.release key claim.token
  settle key claim Action.quarantine _ = pure tt

module _ {C : Type 0} {R : C → Type 0} {V : Type 0} where
  unfoldable pub resolve_quarantine : Option V → Program R (Directive V)
  resolve_quarantine sentinel = pure (stay_quarantined sentinel)

  unfoldable pub resolve_fail : Program R (Directive V)
  resolve_fail = pure (stay_quarantined none)

  unfoldable pub resolve_auto_retry : String → ClaimResult → Program R (Directive V)
  unfolding lease_valid
  resolve_auto_retry key claim = do
    live ← lease_valid claim
    if live then pure (stay_quarantined none) else do Calls.release key claim.token; pure run_again

  -- `CheckThenDecide._apply`
  unfoldable pub apply_probe : Codec V → ProbeResult V → Program R (Directive V)
  apply_probe codec probe = elim probe.verdict [
    | Verdict.committed ↦ do
      encoded ← from_result (codec.encode probe.result)
      pure (replay_result (some encoded))
    | Verdict.not_committed ↦ pure run_again
    | Verdict.unknown ↦ pure (stay_quarantined none)
  ]

  abbrev pub call_prober : Prober R V → String → Program R (ProbeResult V)
  call_prober (Prober.plain f) key = f key
  call_prober (Prober.awaitable f) key = raise type_error

  unfoldable pub resolve_check :
      Prober R V → Codec V → String → ClaimResult → Program R (Directive V)
  unfolding lease_valid apply_probe settle
  resolve_check prober codec key claim = do
    live ← lease_valid claim
    if live then pure (stay_quarantined none) else do
      probe ← call_prober prober key
      directive ← apply_probe codec probe
      settle key claim directive.action directive.result
      pure directive

  -- The record that a poll of `Wait` reads: none is gone, a committed one is replayed, and any
  -- other calls for another round.
  unfoldable pub poll : Option ClaimRecord → Program R (Directive V) → Program R (Directive V)
  poll none again = pure run_again
  poll (some rec) again = elim rec.state [
    | State.committed ↦ pure (replay_result rec.result)
    | _ ↦ again
  ]

  -- `while time.monotonic() < deadline`, with a bound on the rounds.
  unfoldable pub wait_loop : ℕ → ℕ → ℕ → String → Program R (Directive V)
  unfolding poll
  wait_loop zero deadline interval key = raise out_of_fuel
  wait_loop (suc fuel) deadline interval key =
      let rest = wait_loop fuel deadline interval key in
      do
        time ← Calls.monotonic
        if ltb time deadline
            then (do rec ← Calls.get key; poll rec (Calls.sleep interval >> rest))
            else pure (stay_quarantined none)

  -- A round takes a microsecond or more, so that `timeout + 1` rounds are enough.
  unfoldable pub resolve_wait : ℕ → ℕ → String → Program R (Directive V)
  unfolding wait_loop
  resolve_wait timeout interval key = do
    start ← Calls.monotonic
    wait_loop (suc timeout) (start + timeout) interval key

  unfoldable pub resolve : Policy R V → Codec V → String → ClaimResult → Program R (Directive V)
  unfolding resolve_quarantine resolve_fail resolve_auto_retry resolve_check resolve_wait
  resolve (Policy.quarantine sentinel) codec key claim = resolve_quarantine sentinel
  resolve Policy.fail codec key claim = resolve_fail
  resolve Policy.auto_retry codec key claim = resolve_auto_retry key claim
  resolve (Policy.check_then_decide prober) codec key claim = resolve_check prober codec key claim
  resolve (Policy.wait timeout interval) codec key claim = resolve_wait timeout interval key
