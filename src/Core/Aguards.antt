-- ===== src/Core/Aguards.antt =====
-- The asynchronous context-manager form of src/exactly_once/core.py: `__aenter__` and `__aexit__`.
use exactly_once.Prelude.{String, Bool, true, false, Option, none, some}
use exactly_once.Errors.{quarantined}
use exactly_once.Types.{State, ClaimResult}
use exactly_once.Policies.{Action, Directive}
use exactly_once.Policies.Aresolve.{aresolve}
use exactly_once.Program.{Program, pure, raise, from_result, ◌>>=◌, ◌>>◌}
use exactly_once.Program.Calls
use exactly_once.Core.Defs.{
  Once, decode, astore_claim, aclaim_or_open, astart_heartbeat, astop_heartbeat, check_fingerprint,
}
use exactly_once.Core.Guards.{
  Guard, Stack, push_guard, pop_guard, unguarded_guard, replay_guard, running_guard, sentinel_guard,
  skips,
}

module _ {C : Type 0} {R : C → Type 0} {V : Type 0} where
  unfoldable pub afresh_guard : V → Once R V → String → Option String → Program R (Guard V)
  unfolding astart_heartbeat
  afresh_guard nil self key token = do
    hb ← astart_heartbeat self key token
    pure (running_guard nil key token hb)

  -- The claim that follows a policy's `RUN`, in `_aresolve_in_flight_cm`.
  unfoldable pub areclaim_cm : V → Once R V → String → Option String → Program R (Guard V)
  unfolding astore_claim afresh_guard decode
  areclaim_cm nil self key fp = do
    claim ← astore_claim self key fp
    elim claim.state [
      | State.fresh ↦ afresh_guard nil self key claim.token
      | State.committed ↦ do v ← decode nil self claim.result; pure (replay_guard key v)
      | State.in_flight ↦ raise (quarantined key)
    ]

  abbrev pub afollow_cm : V → Once R V → String → Option String → Directive V → Program R (Guard V)
  afollow_cm nil self key fp directive = elim directive.action [
    | Action.replay ↦ do v ← decode nil self directive.result; pure (replay_guard key v)
    | Action.quarantine ↦ sentinel_guard key directive.sentinel
    | Action.run ↦ areclaim_cm nil self key fp
  ]

  unfoldable pub aresolve_in_flight_cm :
      V → Once R V → String → Option String → ClaimResult → Program R (Guard V)
  unfolding aresolve areclaim_cm decode
  aresolve_in_flight_cm nil self key fp claim = do
    directive ← aresolve self.policy self.codec key claim
    afollow_cm nil self key fp directive

  -- The state of the claim decides.
  abbrev pub aguard_claim :
      V → Once R V → String → Option String → State → ClaimResult → Program R (Guard V)
  aguard_claim nil self key fp State.fresh claim = afresh_guard nil self key claim.token
  aguard_claim nil self key fp State.committed claim = do
    v ← decode nil self claim.result
    pure (replay_guard key v)
  aguard_claim nil self key fp State.in_flight claim = aresolve_in_flight_cm nil self key fp claim

  abbrev pub aguard_after :
      V → Once R V → String → Option String → Option ClaimResult → Program R (Guard V)
  aguard_after nil self key fp none = pure (unguarded_guard nil key)
  aguard_after nil self key fp (some claim) = do
    check_fingerprint claim fp
    aguard_claim nil self key fp claim.state claim

  -- `__aenter__`: the guard and the stack with it pushed.
  unfoldable pub aenter :
      V → Once R V → String → Option String → Stack V → Program R (Guard V × Stack V)
  unfolding aclaim_or_open check_fingerprint aresolve_in_flight_cm afresh_guard decode push_guard
  aenter nil self key fp stack = do
    claim ← aclaim_or_open self key fp
    guard ← aguard_after nil self key fp claim
    pure (guard, push_guard guard stack)

  -- `clean` says that the block ended with no exception. An exception of the block goes on to the
  -- caller, after what is done here.
  abbrev aleave : Once R V → Bool → Option (Guard V) → Program R (Unit {0})
  aleave self clean none = pure tt
  aleave self clean (some guard) = elim (skips guard) [
    | true ↦ pure tt
    | false ↦ do
      astop_heartbeat guard.hb
      elim clean [
        | true ↦ do
          encoded ← from_result (self.codec.encode guard.result)
          Calls.commit guard.key encoded
        | false ↦ pure tt
      ]
  ]

  -- `__aexit__`: the stack with the guard popped.
  unfoldable pub aexit : Once R V → Bool → Stack V → Program R (Stack V)
  unfolding pop_guard astop_heartbeat
  aexit self clean stack = do aleave self clean (pop_guard stack).0; pure (pop_guard stack).1
