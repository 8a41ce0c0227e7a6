-- ===== src/Core/Arun.antt =====
-- `_arun` and `_aexecute_and_commit` of src/exactly_once/core.py: the decorator form of an
-- asynchronous callable.
use exactly_once.Prelude.{String, Option, none, some}
use exactly_once.Errors.{quarantined}
use exactly_once.Types.{State, ClaimResult}
use exactly_once.Policies.{Action, Directive}
use exactly_once.Policies.Aresolve.{aresolve}
use exactly_once.Program.{Program, pure, raise, attempt, from_result, ◌>>=◌, ◌>>◌}
use exactly_once.Program.Calls
use exactly_once.Core.Run.{answer_sentinel}
use exactly_once.Core.Defs.{
  Once, decode, astore_claim, aclaim_or_open, astart_heartbeat, astop_heartbeat, check_fingerprint,
}

module _ {C : Type 0} {R : C → Type 0} {V : Type 0} where
  -- `nil` is Python's `None`, and `func` the wrapped call at its arguments.
  unfoldable pub aexecute_and_commit : Once R V → Program R V → String → Option String → Program R V
  unfolding astart_heartbeat astop_heartbeat
  aexecute_and_commit self func key token = do
    hb ← astart_heartbeat self key token
    old ← Calls.set_current_key (some key)
    outcome ← attempt func
    Calls.reset_current_key old
    astop_heartbeat hb
    result ← from_result outcome
    encoded ← from_result (self.codec.encode result)
    Calls.commit key encoded
    pure result

  -- The claim that follows a policy's `RUN`.
  unfoldable pub areclaim : V → Once R V → Program R V → String → Option String → Program R V
  unfolding astore_claim aexecute_and_commit decode
  areclaim nil self func key fp = do
    claim ← astore_claim self key fp
    elim claim.state [
      | State.fresh ↦ aexecute_and_commit self func key claim.token
      | State.committed ↦ decode nil self claim.result
      | State.in_flight ↦ raise (quarantined key)
    ]

  -- What the caller gets for the policy's directive.
  unfoldable pub afollow :
      V → Once R V → Program R V → String → Option String → Directive V → Program R V
  unfolding areclaim decode
  afollow nil self func key fp directive = elim directive.action [
    | Action.replay ↦ decode nil self directive.result
    | Action.quarantine ↦ answer_sentinel key directive.sentinel
    | Action.run ↦ areclaim nil self func key fp
  ]

  -- The state of the claim decides.
  abbrev pub aanswer_claim :
      V → Once R V → Program R V → String → Option String → State → ClaimResult → Program R V
  aanswer_claim nil self func key fp State.fresh claim =
      aexecute_and_commit self func key claim.token
  aanswer_claim nil self func key fp State.committed claim = decode nil self claim.result
  aanswer_claim nil self func key fp State.in_flight claim = do
    directive ← aresolve self.policy self.codec key claim
    afollow nil self func key fp directive

  abbrev pub aafter_claim :
      V → Once R V → Program R V → String → Option String → Option ClaimResult → Program R V
  aafter_claim nil self func key fp none = func
  aafter_claim nil self func key fp (some claim) = do
    check_fingerprint claim fp
    aanswer_claim nil self func key fp claim.state claim

  unfoldable pub arun : V → Once R V → Program R V → String → Option String → Program R V
  unfolding aclaim_or_open check_fingerprint aexecute_and_commit aresolve afollow decode
  arun nil self func key fp = do
    claim ← aclaim_or_open self key fp
    aafter_claim nil self func key fp claim
