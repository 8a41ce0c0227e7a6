-- ===== src/Core/Parity/Blocks.antt =====
-- `__aenter__` and `__aexit__` of src/exactly_once/core.py against `__enter__` and `__exit__`.
use exactly_once.Prelude.{String, Option, none, some, ◌≡◌, refl, ap, ◌∙◌, fun_ext}
use exactly_once.Errors.{quarantined}
use exactly_once.Types.{State, ClaimResult}
use exactly_once.Policies.{Action, Directive}
use exactly_once.Policies.Resolve.{resolve}
use exactly_once.Program.{Program, pure, raise, ◌>>=◌, ◌>>◌}
use exactly_once.Core.Defs.{
  Once, start_heartbeat, astart_heartbeat, store_claim, claim_or_open, astore_claim, aclaim_or_open,
  decode, check_fingerprint,
}
use exactly_once.Core.Guards.{
  Guard, Stack, enter, guard_after, guard_claim, fresh_guard, reclaim_cm, follow_cm,
  resolve_in_flight_cm, replay_guard, sentinel_guard, push_guard,
}
use exactly_once.Core.Aguards.{
  aenter, aguard_after, aguard_claim, afresh_guard, areclaim_cm, afollow_cm, aresolve_in_flight_cm,
}
use exactly_once.Core.Parity.{IsPlain, aresolve_lem}

module _ {C : Type 0} {R : C → Type 0} {V : Type 0} where
  fresh_lem :
      (nil : V) (self : Once R V) (key : String) (token : Option String)
      → self.lease_ttl ≡ none
      → afresh_guard nil self key token ≡ fresh_guard nil self key token
  unfolding afresh_guard fresh_guard
  fresh_lem nil self key none e = refl
  fresh_lem nil self key (some token) e =
      rw (e, afresh_guard, astart_heartbeat, fresh_guard, start_heartbeat) refl

  reclaim_lem :
      (nil : V) (self : Once R V) (key : String) (fp : Option String)
      → self.lease_ttl ≡ none
      → areclaim_cm nil self key fp ≡ reclaim_cm nil self key fp
  unfolding areclaim_cm reclaim_cm astore_claim store_claim
  reclaim_lem nil self key fp e =
      ap (λ f. store_claim self key fp >>= f) (fun_ext (λ claim. by_state claim claim.state))
    where
      by_state :
          (claim : ClaimResult) (s : State)
          → Path
              (Program R (Guard V))
              (elim s [
                | State.fresh ↦ afresh_guard nil self key claim.token
                | State.committed ↦ decode nil self claim.result >>= λ v. pure (replay_guard key v)
                | State.in_flight ↦ raise (quarantined key)
              ])
              (elim s [
                | State.fresh ↦ fresh_guard nil self key claim.token
                | State.committed ↦ decode nil self claim.result >>= λ v. pure (replay_guard key v)
                | State.in_flight ↦ raise (quarantined key)
              ])
      by_state claim State.fresh = fresh_lem nil self key claim.token e
      by_state claim State.committed = refl
      by_state claim State.in_flight = refl

  follow_lem :
      (nil : V) (self : Once R V) (key : String) (fp : Option String) (directive : Directive V)
      → self.lease_ttl ≡ none
      → afollow_cm nil self key fp directive ≡ follow_cm nil self key fp directive
  follow_lem nil self key fp directive e =
      ap
        (λ again. elim directive.action [
          | Action.replay ↦ decode nil self directive.result >>= λ v. pure (replay_guard key v)
          | Action.quarantine ↦ sentinel_guard key directive.sentinel
          | Action.run ↦ again
        ])
        (reclaim_lem nil self key fp e)

  claim_lem :
      (nil : V) (self : Once R V) (key : String) (fp : Option String) (s : State)
      (claim : ClaimResult)
      → self.lease_ttl ≡ none
      → IsPlain self.policy
      → aguard_claim nil self key fp s claim ≡ guard_claim nil self key fp s claim
  unfolding aresolve_in_flight_cm resolve_in_flight_cm
  claim_lem nil self key fp State.fresh claim e p = fresh_lem nil self key claim.token e
  claim_lem nil self key fp State.committed claim e p = refl
  claim_lem nil self key fp State.in_flight claim e p =
      ap (λ m. m >>= afollow_cm nil self key fp) (aresolve_lem self.policy self.codec key claim p)
      ∙ ap (λ f. resolve self.policy self.codec key claim >>= f)
          (fun_ext (λ directive. follow_lem nil self key fp directive e))

  after_lem :
      (nil : V) (self : Once R V) (key : String) (fp : Option String) (claim : Option ClaimResult)
      → self.lease_ttl ≡ none
      → IsPlain self.policy
      → aguard_after nil self key fp claim ≡ guard_after nil self key fp claim
  after_lem nil self key fp none e p = refl
  after_lem nil self key fp (some claim) e p =
      ap (λ m. check_fingerprint claim fp >> m) (claim_lem nil self key fp claim.state claim e p)

  -- Without a lease, and unless the policy has a coroutine for a prober, `__aenter__` asks the same
  -- things in the same order as `__enter__`, on every branch, and gives the same guard and stack.
  pub aenter-enter :
      (nil : V) (self : Once R V) (key : String) (fp : Option String) (stack : Stack V)
      → self.lease_ttl ≡ none
      → IsPlain self.policy
      → aenter nil self key fp stack ≡ enter nil self key fp stack
  unfolding aenter enter aclaim_or_open claim_or_open
  aenter-enter nil self key fp stack e p =
      ap
        (λ f. claim_or_open self key fp >>= λ claim.
          f claim >>= λ guard. pure (guard, push_guard guard stack))
        (fun_ext (λ claim. after_lem nil self key fp claim e p))
