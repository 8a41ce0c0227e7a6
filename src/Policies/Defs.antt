-- ===== src/Policies/Defs.antt =====
-- The value types of src/exactly_once/policies.py and its policies as one type.
use exactly_once.Prelude.{ℕ, String, Bool, false, Option, none, some, Bytes, ltb}
use exactly_once.Types.{ClaimResult}
use exactly_once.Program.{Program, pure, ◌>>=◌}
use exactly_once.Program.Calls

pub data Action : Type 0 where
  quarantine run replay : Action

-- `sentinel` is `none` where the source has `_UNSET`.
pub record Directive (V : Type 0) : Type 0 where
  pub action : Action
  pub result : Option Bytes
  pub sentinel : Option V

pub data Verdict : Type 0 where
  committed not_committed unknown : Verdict

pub record ProbeResult (V : Type 0) : Type 0 where
  pub verdict : Verdict
  pub result : V

-- The caller's prober: its call gives a result, or an awaitable.
pub data Prober {C : Type 0} (R : C → Type 0) (V : Type 0) : Type 0 where
  plain : (String → Program R (ProbeResult V)) → Prober R V
  awaitable : (String → Program R (ProbeResult V)) → Prober R V

-- One constructor for each subclass of `Policy`, with what its `__init__` stores.
pub data Policy {C : Type 0} (R : C → Type 0) (V : Type 0) : Type 0 where
  quarantine : Option V → Policy R V
  fail : Policy R V
  auto_retry : Policy R V
  check_then_decide : Prober R V → Policy R V
  wait : ℕ → ℕ → Policy R V

module _ {V : Type 0} where
  abbrev pub stay_quarantined : Option V → Directive V
  stay_quarantined sentinel = record {
    action = Action.quarantine;
    result = none;
    sentinel = sentinel;
  }

  abbrev pub run_again : Directive V
  run_again = record { action = Action.run; result = none; sentinel = none }

  abbrev pub replay_result : Option Bytes → Directive V
  replay_result r = record { action = Action.replay; result = r; sentinel = none }

module _ {C : Type 0} {R : C → Type 0} where
  -- A lease is compared with the store's clock only if there is one.
  abbrev pub in_force : Option ℕ → Program R Bool
  in_force none = pure false
  in_force (some expires) = do time ← Calls.now; pure (ltb time expires)

  unfoldable pub lease_valid : ClaimResult → Program R Bool
  lease_valid claim = in_force claim.lease_expires_at

  unfoldable pub alease_valid : ClaimResult → Program R Bool
  alease_valid claim = in_force claim.lease_expires_at

module _ {C : Type 0} {R : C → Type 0} {V : Type 0} where
  -- The public handles: `quarantine`, which may be called with a sentinel, and
  -- `wait`; `check_then_decide` is the constructor.
  abbrev pub quarantine_with : Option V → Policy R V
  quarantine_with sentinel = Policy.quarantine sentinel

  -- Five seconds, and rounds of 50 milliseconds, where the caller gives nothing.
  abbrev pub wait_for : Option ℕ → Option ℕ → Policy R V
  wait_for timeout interval =
      Policy.wait (elim timeout [ none ↦ 5_000_000 | some t ↦ t ])
        (elim interval [ none ↦ 50_000 | some t ↦ t ])
