-- ===== src/Workers/Quiet.antt =====
-- Parts of src/exactly_once/core.py and src/exactly_once/policies.py that fire no effect.
use exactly_once.Prelude.{
  ℕ, sym, zero, suc, ◌+◌, ◌≡◌, refl, String, Bool, true, false, Option, none, some, Bytes, ◌&&◌,
  not, arith, Option-cases, inl, inr, ltb, if◌then◌else◌,
}
use mathlib.Core.Path.{subst}
use exactly_once.Types.{State, ClaimResult, ClaimRecord}
use exactly_once.Codec.{Codec}
use exactly_once.Policies.{
  Policy, Prober, Action, Verdict, ProbeResult, Directive, lease_valid, in_force, stay_quarantined,
}
use exactly_once.Policies.Resolve.{
  resolve, poll, wait_loop, resolve_auto_retry, resolve_check, call_prober, apply_probe, settle,
}
use exactly_once.Program.{Program, done, pure, ◌>>=◌, ◌>>◌}
use exactly_once.Program.Calls
use exactly_once.Core.{
  OnStoreDown, Once, start_heartbeat, stop_heartbeat, astart_heartbeat, astop_heartbeat,
}
use exactly_once.Core.Parity.{aresolve_lem}
use exactly_once.Policies.Aresolve.{aresolve}
use exactly_once.Workers.{Rules, FiresAtMost}
use exactly_once.Workers.Spends.{IsQuiet, bind-IsQuiet, FiresAtMost-IsQuiet}

-- The policies that never call `release`.
abbrev pub keeps_records : {C : Type 0} {R : C → Type 0} {V : Type 0} → Policy R V → Bool
keeps_records Policy.auto_retry = false
keeps_records (Policy.check_then_decide _) = false
keeps_records _ = true

-- A prober observes the world by calls of its own, and fires no effect.
abbrev pub ProbesOutside :
    {C : Type 0} {R : C → Type 0} {V : Type 0} → Rules C → Policy R V → Type 0
ProbesOutside rules (Policy.check_then_decide (Prober.plain f)) =
    (key : String) → FiresAtMost rules 0 (f key)
ProbesOutside rules (Policy.check_then_decide (Prober.awaitable f)) =
    (key : String) → FiresAtMost rules 0 (f key)
ProbesOutside rules _ = Unit

-- A policy that releases may be used only where that is allowed.
abbrev pub IsAllowed : {C : Type 0} {R : C → Type 0} {V : Type 0} → Rules C → Policy R V → Type 0
IsAllowed rules policy = not (keeps_records policy) && not rules.may_release ≡ false

-- What a caller does where the store is down must be allowed too.
abbrev pub IsGuarded : {C : Type 0} → Rules C → OnStoreDown → Type 0
IsGuarded rules OnStoreDown.open_ = rules.may_open ≡ true
IsGuarded rules OnStoreDown.fail = Unit

pub stop_heartbeat-IsQuiet :
    {C : Type 0} (R : C → Type 0) (k : String) (rules : Rules C) (hb : Option (Unit {0}))
    → IsQuiet {R = R} k rules (stop_heartbeat hb)
unfolding stop_heartbeat
stop_heartbeat-IsQuiet R k rules none = tt
stop_heartbeat-IsQuiet R k rules (some _) = (refl, refl, λ r. tt)

pub astop_heartbeat-IsQuiet :
    {C : Type 0} (R : C → Type 0) (k : String) (rules : Rules C) (hb : Option (Unit {0}))
    → IsQuiet {R = R} k rules (astop_heartbeat hb)
unfolding astop_heartbeat
astop_heartbeat-IsQuiet R k rules none = tt
astop_heartbeat-IsQuiet R k rules (some _) = (refl, refl, λ r. tt)

module _ {C : Type 0} {R : C → Type 0} {V : Type 0} (k : String) (rules : Rules C) where
  pub start_heartbeat-IsQuiet :
      (self : Once R V) (key : String) (token : Option String)
      → IsQuiet k rules (start_heartbeat self key token)
  unfolding start_heartbeat
  start_heartbeat-IsQuiet self key none = tt
  start_heartbeat-IsQuiet self key (some token) = elim (Option-cases self.lease_ttl) [
    | inl e ↦ rw (e, start_heartbeat) tt
    | inr (ttl, e) ↦ rw (e, start_heartbeat) (refl, refl, λ r. tt)
  ]

  pub astart_heartbeat-IsQuiet :
      (self : Once R V) (key : String) (token : Option String)
      → IsQuiet k rules (astart_heartbeat self key token)
  unfolding astart_heartbeat start_heartbeat
  astart_heartbeat-IsQuiet self key token = start_heartbeat-IsQuiet self key token

module _ {C : Type 0} (R : C → Type 0) (k : String) (rules : Rules C) where
  lease_valid-IsQuiet : (claim : ClaimResult) → IsQuiet {R = R} k rules (lease_valid claim)
  unfolding lease_valid
  lease_valid-IsQuiet claim = elim (Option-cases claim.lease_expires_at) [
    | inl e ↦ rw (e, lease_valid, in_force) tt
    | inr (t, e) ↦
        rw (e, lease_valid, in_force)
          (refl, refl, λ r. bind-IsQuiet k rules (done r) _ tt (λ time. tt))
  ]

  release-IsQuiet :
      (key : String) (token : Option String)
      → not rules.may_release ≡ false
      → IsQuiet {R = R} k rules (Calls.release key token)
  release-IsQuiet key token allowed = (refl, ground arith, λ r. tt)

  settle-IsQuiet :
      (key : String) (claim : ClaimResult) (action : Action) (result : Option Bytes)
      → not rules.may_release ≡ false
      → IsQuiet {R = R} k rules (settle key claim action result)
  unfolding settle
  settle-IsQuiet key claim Action.replay (some result) allowed = (refl, refl, λ r. tt)
  settle-IsQuiet key claim Action.replay none allowed = tt
  settle-IsQuiet key claim Action.run result allowed = release-IsQuiet key claim.token allowed
  settle-IsQuiet key claim Action.quarantine result allowed = tt

module _ {C : Type 0} (R : C → Type 0) (V : Type 0) (k : String) (rules : Rules C) where
  auto_retry-IsQuiet :
      (key : String) (claim : ClaimResult)
      → not rules.may_release ≡ false
      → IsQuiet {R = R} k rules (resolve_auto_retry {V = V} key claim)
  unfolding resolve_auto_retry
  auto_retry-IsQuiet key claim allowed =
      bind-IsQuiet k rules (lease_valid claim) _ (lease_valid-IsQuiet R k rules claim) (elim [
        | true ↦ tt
        | false ↦
            bind-IsQuiet k rules (Calls.release key claim.token) _
              (release-IsQuiet R k rules key claim.token allowed) (λ _. tt)
      ])

  apply_probe-IsQuiet :
      (codec : Codec V) (probe : ProbeResult V) → IsQuiet {R = R} k rules (apply_probe codec probe)
  unfolding apply_probe
  apply_probe-IsQuiet codec probe = by_verdict probe.verdict refl
    where
      by_verdict :
          (v : Verdict) → probe.verdict ≡ v → IsQuiet {R = R} k rules (apply_probe codec probe)
      by_verdict Verdict.committed e =
          rw (e, apply_probe)
            (bind-IsQuiet k rules (done (codec.encode probe.result)) _ tt (λ encoded. tt))
      by_verdict Verdict.not_committed e = rw (e, apply_probe) tt
      by_verdict Verdict.unknown e = rw (e, apply_probe) tt

  call_prober-IsQuiet :
      (prober : Prober R V) (key : String)
      → ProbesOutside rules (Policy.check_then_decide prober)
      → IsQuiet k rules (call_prober prober key)
  call_prober-IsQuiet (Prober.plain f) key outside =
      FiresAtMost-IsQuiet k rules 0 (f key) (omega arith) (outside key)
  call_prober-IsQuiet (Prober.awaitable f) key outside = tt

  check-IsQuiet :
      (prober : Prober R V) (codec : Codec V) (key : String) (claim : ClaimResult)
      → not rules.may_release ≡ false
      → ProbesOutside rules (Policy.check_then_decide prober)
      → IsQuiet k rules (resolve_check prober codec key claim)
  unfolding resolve_check
  check-IsQuiet prober codec key claim allowed outside =
      bind-IsQuiet k rules (lease_valid claim) _ (lease_valid-IsQuiet R k rules claim) (elim [
        | true ↦ tt
        | false ↦
            bind-IsQuiet k rules (call_prober prober key) _ (call_prober-IsQuiet prober key outside)
              (λ probe.
                bind-IsQuiet k rules (apply_probe codec probe) _ (apply_probe-IsQuiet codec probe)
                  (λ d.
                    bind-IsQuiet k rules (settle key claim d.action d.result) _
                      (settle-IsQuiet R k rules key claim d.action d.result allowed) (λ _. tt)))
      ])

  -- One round of `Wait`, given that the rounds that follow are quiet.
  poll-IsQuiet :
      (rec : Option ClaimRecord) (again : Program R (Directive V))
      → IsQuiet k rules again
      → IsQuiet k rules (poll rec again)
  unfolding poll
  poll-IsQuiet none again h = tt
  poll-IsQuiet (some rec) again h = by_state rec.state refl
    where
      by_state : (s : State) → rec.state ≡ s → IsQuiet k rules (poll (some rec) again)
      by_state State.fresh e = rw (e, poll) h
      by_state State.in_flight e = rw (e, poll) h
      by_state State.committed e = rw (e, poll) tt

  wait_loop-IsQuiet :
      (fuel deadline interval : ℕ) (key : String)
      → IsQuiet k rules (wait_loop {R = R} {V = V} fuel deadline interval key)
  unfolding wait_loop
  wait_loop-IsQuiet zero deadline interval key = tt
  wait_loop-IsQuiet (suc fuel) deadline interval key =
      let ih = wait_loop-IsQuiet fuel deadline interval key in
      (refl, refl, λ time. by_clock (ltb time deadline) ih)
    where
      by_clock :
          (b : Bool)
          → IsQuiet k rules (wait_loop {R = R} {V = V} fuel deadline interval key)
          → IsQuiet k rules (
              if b
              then (do
                rec ← Calls.get key
                poll rec
                    (Calls.sleep interval >> wait_loop {R = R} {V = V} fuel deadline interval key))
              else pure (stay_quarantined {V = V} none))
      by_clock true ih =
          bind-IsQuiet k rules (Calls.get key) _ (refl, refl, λ r. tt)
            (λ rec. poll-IsQuiet rec _ (refl, refl, λ _. ih))
      by_clock false ih = tt

  -- No policy fires an effect, and a policy that is allowed releases the key only where that is.
  pub resolve-IsQuiet :
      (policy : Policy R V) (codec : Codec V) (key : String) (claim : ClaimResult)
      → IsAllowed rules policy
      → ProbesOutside rules policy
      → IsQuiet k rules (resolve policy codec key claim)
  unfolding resolve
  resolve-IsQuiet (Policy.quarantine sentinel) codec key claim allowed outside = tt
  resolve-IsQuiet Policy.fail codec key claim allowed outside = tt
  resolve-IsQuiet Policy.auto_retry codec key claim allowed outside =
      auto_retry-IsQuiet key claim allowed
  resolve-IsQuiet (Policy.check_then_decide prober) codec key claim allowed outside =
      check-IsQuiet prober codec key claim allowed outside
  resolve-IsQuiet (Policy.wait timeout interval) codec key claim allowed outside =
      (refl, refl, λ start. wait_loop-IsQuiet (suc timeout) (start + timeout) interval key)

  pub aresolve-IsQuiet :
      (policy : Policy R V) (codec : Codec V) (key : String) (claim : ClaimResult)
      → IsAllowed rules policy
      → ProbesOutside rules policy
      → IsQuiet k rules (aresolve policy codec key claim)
  unfolding aresolve resolve
  aresolve-IsQuiet (Policy.check_then_decide (Prober.awaitable f)) codec key claim allowed outside =
      resolve-IsQuiet (Policy.check_then_decide (Prober.plain f)) codec key claim allowed outside
  aresolve-IsQuiet (Policy.check_then_decide (Prober.plain f)) codec key claim allowed outside =
      resolve-IsQuiet (Policy.check_then_decide (Prober.plain f)) codec key claim allowed outside
  aresolve-IsQuiet (Policy.wait timeout interval) codec key claim allowed outside =
      subst (IsQuiet k rules)
        (sym (aresolve_lem {R = R} (Policy.wait timeout interval) codec key claim tt))
        (resolve-IsQuiet (Policy.wait timeout interval) codec key claim allowed outside)
  aresolve-IsQuiet (Policy.quarantine sentinel) codec key claim allowed outside = tt
  aresolve-IsQuiet Policy.fail codec key claim allowed outside = tt
  aresolve-IsQuiet Policy.auto_retry codec key claim allowed outside =
      resolve-IsQuiet Policy.auto_retry codec key claim allowed outside
