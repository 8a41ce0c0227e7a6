-- ===== src/Core/Guards.antt =====
-- The context-manager form of src/exactly_once/core.py: `__enter__` and `__exit__`, with the
-- stack of guards of one `once` object in one context.
use exactly_once.Prelude.{String, Bool, true, false, Option, none, some, List, [], ◌∷◌}
use exactly_once.Errors.{quarantined}
use exactly_once.Types.{State, ClaimResult}
use exactly_once.Policies.{Action, Directive}
use exactly_once.Policies.Resolve.{resolve}
use exactly_once.Program.{Program, pure, raise, from_result, ◌>>=◌, ◌>>◌}
use exactly_once.Program.Calls
use exactly_once.Core.Defs.{
  Once, decode, store_claim, claim_or_open, start_heartbeat, stop_heartbeat, check_fingerprint,
}

-- `_Guard`. The caller's block reads `fresh` and may set `result`.
pub record Guard (V : Type 0) : Type 0 where
  pub key : String
  pub fresh : Bool
  pub result : V
  pub unguarded : Bool
  pub token : Option String
  pub hb : Option (Unit {0})

-- The top of the stack comes first; the source has a tuple with the top at its end.
abbrev pub Stack : Type 0 → Type 0
Stack V = List (Guard V)

module _ {V : Type 0} where
  unfoldable pub push_guard : Guard V → Stack V → Stack V
  push_guard guard stack = guard ∷ stack

  unfoldable pub pop_guard : Stack V → Option (Guard V) × Stack V
  pop_guard [] = (none, [])
  pop_guard (guard ∷ stack) = (some guard, stack)

  abbrev pub unguarded_guard : V → String → Guard V
  unguarded_guard nil key = record {
    key = key;
    fresh = true;
    result = nil;
    unguarded = true;
    token = none;
    hb = none;
  }

  abbrev pub replay_guard : String → V → Guard V
  replay_guard key v = record {
    key = key;
    fresh = false;
    result = v;
    unguarded = false;
    token = none;
    hb = none;
  }

  abbrev pub running_guard : V → String → Option String → Option (Unit {0}) → Guard V
  running_guard nil key token hb = record {
    key = key;
    fresh = true;
    result = nil;
    unguarded = false;
    token = token;
    hb = hb;
  }

  -- What `__exit__` tests before it does anything.
  abbrev pub skips : Guard V → Bool
  skips guard = elim guard.unguarded [
    | true ↦ true
    | false ↦ elim guard.fresh [ true ↦ false | false ↦ true ]
  ]

module _ {C : Type 0} {R : C → Type 0} {V : Type 0} where
  unfoldable pub fresh_guard : V → Once R V → String → Option String → Program R (Guard V)
  unfolding start_heartbeat
  fresh_guard nil self key token = do
    hb ← start_heartbeat self key token
    pure (running_guard nil key token hb)

  -- The claim that follows a policy's `RUN`, in `_resolve_in_flight_cm`.
  unfoldable pub reclaim_cm : V → Once R V → String → Option String → Program R (Guard V)
  unfolding store_claim fresh_guard decode
  reclaim_cm nil self key fp = do
    claim ← store_claim self key fp
    elim claim.state [
      | State.fresh ↦ fresh_guard nil self key claim.token
      | State.committed ↦ do v ← decode nil self claim.result; pure (replay_guard key v)
      | State.in_flight ↦ raise (quarantined key)
    ]

  abbrev pub sentinel_guard : String → Option V → Program R (Guard V)
  sentinel_guard key none = raise (quarantined key)
  sentinel_guard key (some sentinel) = pure (replay_guard key sentinel)

  abbrev pub follow_cm : V → Once R V → String → Option String → Directive V → Program R (Guard V)
  follow_cm nil self key fp directive = elim directive.action [
    | Action.replay ↦ do v ← decode nil self directive.result; pure (replay_guard key v)
    | Action.quarantine ↦ sentinel_guard key directive.sentinel
    | Action.run ↦ reclaim_cm nil self key fp
  ]

  unfoldable pub resolve_in_flight_cm :
      V → Once R V → String → Option String → ClaimResult → Program R (Guard V)
  unfolding resolve reclaim_cm decode
  resolve_in_flight_cm nil self key fp claim = do
    directive ← resolve self.policy self.codec key claim
    follow_cm nil self key fp directive

  -- The state of the claim decides.
  abbrev pub guard_claim :
      V → Once R V → String → Option String → State → ClaimResult → Program R (Guard V)
  guard_claim nil self key fp State.fresh claim = fresh_guard nil self key claim.token
  guard_claim nil self key fp State.committed claim = do
    v ← decode nil self claim.result
    pure (replay_guard key v)
  guard_claim nil self key fp State.in_flight claim = resolve_in_flight_cm nil self key fp claim

  abbrev pub guard_after :
      V → Once R V → String → Option String → Option ClaimResult → Program R (Guard V)
  guard_after nil self key fp none = pure (unguarded_guard nil key)
  guard_after nil self key fp (some claim) = do
    check_fingerprint claim fp
    guard_claim nil self key fp claim.state claim

  -- `__enter__`: the guard and the stack with it pushed.
  unfoldable pub enter :
      V → Once R V → String → Option String → Stack V → Program R (Guard V × Stack V)
  unfolding claim_or_open check_fingerprint resolve_in_flight_cm fresh_guard decode push_guard
  enter nil self key fp stack = do
    claim ← claim_or_open self key fp
    guard ← guard_after nil self key fp claim
    pure (guard, push_guard guard stack)

  -- `clean` says that the block ended with no exception. An exception of the block goes on to the
  -- caller, after what is done here.
  abbrev leave : Once R V → Bool → Option (Guard V) → Program R (Unit {0})
  leave self clean none = pure tt
  leave self clean (some guard) = elim (skips guard) [
    | true ↦ pure tt
    | false ↦ do
      stop_heartbeat guard.hb
      elim clean [
        | true ↦ do
          encoded ← from_result (self.codec.encode guard.result)
          Calls.commit guard.key encoded
        | false ↦ pure tt
      ]
  ]

  -- `__exit__`: the stack with the guard popped.
  unfoldable pub exit : Once R V → Bool → Stack V → Program R (Stack V)
  unfolding pop_guard stop_heartbeat
  exit self clean stack = do leave self clean (pop_guard stack).0; pure (pop_guard stack).1
