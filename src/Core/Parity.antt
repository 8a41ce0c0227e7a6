-- ===== src/Core/Parity.antt =====
-- The asynchronous forms of src/exactly_once/core.py and policies.py against the synchronous ones.
pub mod Blocks
use exactly_once.Prelude.{
  ℕ, zero, suc, ◌+◌, String, Option, none, some, ◌≡◌, refl, ap, ◌∙◌, fun_ext, ltb, if◌then◌else◌,
}
use exactly_once.Errors
use exactly_once.Types.{State, ClaimResult}
use exactly_once.Codec.{Codec}
use exactly_once.Policies.{Action, Directive, Policy, Prober, stay_quarantined}
use exactly_once.Policies.Resolve.{resolve, wait_loop, poll}
use exactly_once.Policies.Aresolve.{aresolve, await_loop}
use exactly_once.Program.{Program, pure, raise, ◌>>=◌, ◌>>◌}
use exactly_once.Program.Calls
use exactly_once.Core.Defs.{
  Once, start_heartbeat, astart_heartbeat, store_claim, astore_claim, claim_or_open, aclaim_or_open,
  decode, check_fingerprint,
}
use exactly_once.Core.Run.{
  run, execute_and_commit, reclaim, follow, after_claim, answer_claim, answer_sentinel,
}
use exactly_once.Core.Arun.{
  arun, aexecute_and_commit, areclaim, afollow, aafter_claim, aanswer_claim,
}

module _ {C : Type 0} {R : C → Type 0} {V : Type 0} where
  -- The policies whose prober, if they have one, is not a coroutine.
  abbrev pub IsPlain : Policy R V → Type 0
  IsPlain (Policy.check_then_decide (Prober.awaitable f)) = ⊥
  IsPlain _ = Unit {0}

  loop_lem :
      (fuel deadline interval : ℕ) (key : String)
      → await_loop {R = R} {V = V} fuel deadline interval key ≡ wait_loop fuel deadline interval key
  unfolding await_loop wait_loop
  loop_lem zero deadline interval key = refl
  loop_lem (suc fuel) deadline interval key =
      ap
        (λ rest. Calls.monotonic >>= λ time.
          if ltb time deadline
          then (Calls.get key >>= λ rec. poll rec (Calls.sleep interval >> rest))
          else pure (stay_quarantined none))
        (loop_lem fuel deadline interval key)

  -- `aresolve` is `resolve` for such a policy.
  pub aresolve_lem :
      (policy : Policy R V) (codec : Codec V) (key : String) (claim : ClaimResult)
      → IsPlain policy
      → aresolve policy codec key claim ≡ resolve policy codec key claim
  unfolding aresolve resolve
  aresolve_lem (Policy.quarantine sentinel) codec key claim h = refl
  aresolve_lem Policy.fail codec key claim h = refl
  aresolve_lem Policy.auto_retry codec key claim h = refl
  aresolve_lem (Policy.check_then_decide (Prober.plain f)) codec key claim h = refl
  aresolve_lem (Policy.check_then_decide (Prober.awaitable f)) codec key claim h = absurd h
  aresolve_lem (Policy.wait timeout interval) codec key claim h =
      ap (λ loop. Calls.monotonic >>= loop)
        (fun_ext (λ start. loop_lem (suc timeout) (start + timeout) interval key))

  execute_lem :
      (self : Once R V) (func : Program R V) (key : String) (token : Option String)
      → self.lease_ttl ≡ none
      → aexecute_and_commit self func key token ≡ execute_and_commit self func key token
  unfolding aexecute_and_commit execute_and_commit
  execute_lem self func key none e = refl
  execute_lem self func key (some token) e =
      rw (e, aexecute_and_commit, astart_heartbeat, execute_and_commit, start_heartbeat) refl

  reclaim_lem :
      (nil : V) (self : Once R V) (func : Program R V) (key : String) (fp : Option String)
      → self.lease_ttl ≡ none
      → areclaim nil self func key fp ≡ reclaim nil self func key fp
  unfolding areclaim reclaim astore_claim store_claim
  reclaim_lem nil self func key fp e =
      ap (λ f. store_claim self key fp >>= f) (fun_ext (λ claim. by_state claim claim.state))
    where
      by_state :
          (claim : ClaimResult) (s : State)
          → Path
              (Program R V)
              (elim s [
                | State.fresh ↦ aexecute_and_commit self func key claim.token
                | State.committed ↦ decode nil self claim.result
                | State.in_flight ↦ raise (Errors.quarantined key)
              ])
              (elim s [
                | State.fresh ↦ execute_and_commit self func key claim.token
                | State.committed ↦ decode nil self claim.result
                | State.in_flight ↦ raise (Errors.quarantined key)
              ])
      by_state claim State.fresh = execute_lem self func key claim.token e
      by_state claim State.committed = refl
      by_state claim State.in_flight = refl

  follow_lem :
      (nil : V) (self : Once R V) (func : Program R V) (key : String) (fp : Option String)
      (directive : Directive V)
      → self.lease_ttl ≡ none
      → afollow nil self func key fp directive ≡ follow nil self func key fp directive
  unfolding afollow follow
  follow_lem nil self func key fp directive e =
      ap
        (λ again. elim directive.action [
          | Action.replay ↦ decode nil self directive.result
          | Action.quarantine ↦ answer_sentinel key directive.sentinel
          | Action.run ↦ again
        ])
        (reclaim_lem nil self func key fp e)

  answer_lem :
      (nil : V) (self : Once R V) (func : Program R V) (key : String) (fp : Option String)
      (s : State) (claim : ClaimResult)
      → self.lease_ttl ≡ none
      → IsPlain self.policy
      → aanswer_claim nil self func key fp s claim ≡ answer_claim nil self func key fp s claim
  answer_lem nil self func key fp State.fresh claim e p = execute_lem self func key claim.token e
  answer_lem nil self func key fp State.committed claim e p = refl
  answer_lem nil self func key fp State.in_flight claim e p =
      ap (λ m. m >>= afollow nil self func key fp) (aresolve_lem self.policy self.codec key claim p)
      ∙ ap (λ f. resolve self.policy self.codec key claim >>= f)
          (fun_ext (λ directive. follow_lem nil self func key fp directive e))

  after_lem :
      (nil : V) (self : Once R V) (func : Program R V) (key : String) (fp : Option String)
      (claim : Option ClaimResult)
      → self.lease_ttl ≡ none
      → IsPlain self.policy
      → aafter_claim nil self func key fp claim ≡ after_claim nil self func key fp claim
  after_lem nil self func key fp none e p = refl
  after_lem nil self func key fp (some claim) e p =
      ap (λ m. check_fingerprint claim fp >> m)
        (answer_lem nil self func key fp claim.state claim e p)

  -- Without a lease, and unless the policy has a coroutine for a prober, the asynchronous form of a
  -- call asks the same things in the same order as the synchronous one, on every branch, and
  -- answers the same.
  pub arun-run :
      (nil : V) (self : Once R V) (func : Program R V) (key : String) (fp : Option String)
      → self.lease_ttl ≡ none
      → IsPlain self.policy
      → arun nil self func key fp ≡ run nil self func key fp
  unfolding arun run aclaim_or_open claim_or_open
  arun-run nil self func key fp e p =
      ap (λ f. claim_or_open self key fp >>= f)
        (fun_ext (λ claim. after_lem nil self func key fp claim e p))
