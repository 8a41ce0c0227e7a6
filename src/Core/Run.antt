-- ===== src/Core/Run.antt =====
-- `_run` and `_execute_and_commit` of src/exactly_once/core.py: the decorator form.
use exactly_once.Prelude.{String, Option, none, some}
use exactly_once.Errors.{quarantined}
use exactly_once.Types.{State, ClaimResult}
use exactly_once.Policies.{Action, Directive}
use exactly_once.Policies.Resolve.{resolve}
use exactly_once.Program.{Program, pure, raise, attempt, from_result, ◌>>=◌, ◌>>◌}
use exactly_once.Program.Calls
use exactly_once.Core.Defs.{
  Once, decode, store_claim, claim_or_open, start_heartbeat, stop_heartbeat, check_fingerprint,
}

module _ {C : Type 0} {R : C → Type 0} {V : Type 0} where
  -- `nil` is Python's `None`, and `func` the wrapped call at its arguments.
  unfoldable pub execute_and_commit : Once R V → Program R V → String → Option String → Program R V
  unfolding start_heartbeat stop_heartbeat
  execute_and_commit self func key token = do
    hb ← start_heartbeat self key token
    old ← Calls.set_current_key (some key)
    outcome ← attempt func
    Calls.reset_current_key old
    stop_heartbeat hb
    result ← from_result outcome
    encoded ← from_result (self.codec.encode result)
    Calls.commit key encoded
    pure result

  -- The claim that follows a policy's `RUN`.
  unfoldable pub reclaim : V → Once R V → Program R V → String → Option String → Program R V
  unfolding store_claim execute_and_commit decode
  reclaim nil self func key fp = do
    claim ← store_claim self key fp
    elim claim.state [
      | State.fresh ↦ execute_and_commit self func key claim.token
      | State.committed ↦ decode nil self claim.result
      | State.in_flight ↦ raise (quarantined key)
    ]

  abbrev pub answer_sentinel : String → Option V → Program R V
  answer_sentinel key none = raise (quarantined key)
  answer_sentinel key (some sentinel) = pure sentinel

  -- What the caller gets for the policy's directive.
  unfoldable pub follow :
      V → Once R V → Program R V → String → Option String → Directive V → Program R V
  unfolding reclaim decode
  follow nil self func key fp directive = elim directive.action [
    | Action.replay ↦ decode nil self directive.result
    | Action.quarantine ↦ answer_sentinel key directive.sentinel
    | Action.run ↦ reclaim nil self func key fp
  ]

  -- The state of the claim decides.
  abbrev pub answer_claim :
      V → Once R V → Program R V → String → Option String → State → ClaimResult → Program R V
  answer_claim nil self func key fp State.fresh claim = execute_and_commit self func key claim.token
  answer_claim nil self func key fp State.committed claim = decode nil self claim.result
  answer_claim nil self func key fp State.in_flight claim = do
    directive ← resolve self.policy self.codec key claim
    follow nil self func key fp directive

  abbrev pub after_claim :
      V → Once R V → Program R V → String → Option String → Option ClaimResult → Program R V
  after_claim nil self func key fp none = func
  after_claim nil self func key fp (some claim) = do
    check_fingerprint claim fp
    answer_claim nil self func key fp claim.state claim

  unfoldable pub run : V → Once R V → Program R V → String → Option String → Program R V
  unfolding claim_or_open check_fingerprint execute_and_commit resolve follow decode
  run nil self func key fp = do
    claim ← claim_or_open self key fp
    after_claim nil self func key fp claim
