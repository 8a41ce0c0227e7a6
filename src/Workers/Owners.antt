-- ===== src/Workers/Owners.antt =====
-- The blocks of `once` in src/exactly_once/core.py: `__enter__` gives a guard that is fresh only
-- where a claim was answered FRESH, or found the store down where the block may run on, so that a
-- block fires its effect once at most for each.
use exactly_once.Prelude.{ℕ, ◌≤◌, String, Bool, ◌&&◌, Option, none, some, Bytes, arith, str_eq}
use mathlib.Core.Path.{subst}
use exactly_once.Errors.{Result, ok, err}
use exactly_once.Policies.Resolve.{resolve}
use exactly_once.Policies.Aresolve.{aresolve}
use exactly_once.Program.{Program, done, pure, attempt, bind_assoc, ◌>>=◌, ◌>>◌}
use exactly_once.Core.{
  Once, decode, store_claim, astore_claim, claim_or_open, aclaim_or_open, start_heartbeat,
  astart_heartbeat,
}
use exactly_once.Core.Guards.{
  Guard, Stack, enter, exit, fresh_guard, reclaim_cm, resolve_in_flight_cm, sentinel_guard,
  replay_guard, unguarded_guard, running_guard, push_guard, guard_after,
}
use exactly_once.Core.Aguards.{
  aenter, aexit, afresh_guard, areclaim_cm, aresolve_in_flight_cm, aguard_after,
}
use exactly_once.Workers.{Rules, FiresAtMost, one_if}
use exactly_once.Workers.Blocks.{is_clean, leaving, with_block, awith_block}
use exactly_once.Types.{ClaimResult}
use exactly_once.Policies.{Directive}
use exactly_once.Workers.Claims.{
  form, Paid, Opened, form-Spends, store_claim-Spends, astore_claim-Spends, claim_or_open-Spends,
  aclaim_or_open-Spends,
}
use exactly_once.Workers.Entries.{decode-IsQuiet}
use exactly_once.Workers.Exits.{exit-IsQuiet, aexit-IsQuiet}
use exactly_once.Workers.Quiet.{
  ProbesOutside, IsAllowed, IsGuarded, start_heartbeat-IsQuiet, astart_heartbeat-IsQuiet,
  resolve-IsQuiet, aresolve-IsQuiet,
}
use exactly_once.Workers.Spends.{
  Held, Spends, Spends-bind, Spends-attempt, IsQuiet, bind-IsQuiet, IsQuiet-Spends, IsQuiet-end,
  FiresAtMost-Spends,
}

-- A guard that is fresh is paid for.
abbrev Owned : {V : Type 0} → String → String → ℕ → Result (Guard V) → Type 0
Owned k key n (ok guard) = one_if (guard.fresh && str_eq key k) ≤ n
Owned k key n (err e) = Unit

abbrev Entered : {V : Type 0} → String → String → ℕ → Result (Guard V × Stack V) → Type 0
Entered k key n (ok entered) = Owned k key n (ok entered.0)
Entered k key n (err e) = Unit

-- The body of a block does the effect only where its guard is fresh, and once at most.
abbrev pub FiresWhenFresh :
    {C : Type 0} {R : C → Type 0} {V : Type 0}
    → Rules C
    → String
    → String
    → (Guard V → Program R V)
    → Type 0
FiresWhenFresh rules k key body =
    (guard : Guard _) → FiresAtMost rules (one_if (guard.fresh && str_eq key k)) (body guard)

sentinel-Owned :
    {C : Type 0} (R : C → Type 0) {V : Type 0} (k : String) (rules : Rules C) (n : ℕ) (key : String)
    (o : Option V)
    → Spends {R = R} k rules n (sentinel_guard key o) (Owned k key)
sentinel-Owned R k rules n key none = tt
sentinel-Owned R k rules n key (some v) = omega arith

module _ {C : Type 0} {R : C → Type 0} {V : Type 0} (k : String) (rules : Rules C) where
  -- A heartbeat that is started for a guard.
  beating-Owned :
      (n : ℕ) (nil : V) (key : String) (token : Option String)
      (beat : Program R (Option (Unit {0})))
      → one_if (str_eq key k) ≤ n
      → IsQuiet k rules beat
      → Spends k rules n (beat >>= λ hb. pure (running_guard nil key token hb)) (Owned k key)
  beating-Owned n nil key token beat le h =
      Spends-bind k rules n beat _ (λ n' _. one_if (str_eq key k) ≤ n') (Owned k key)
        (IsQuiet-Spends k rules n beat _ le h) (λ n' hb le'. le') (λ n' e p. tt)

  replaying-Owned :
      (n : ℕ) (nil : V) (self : Once R V) (key : String) (raw : Option Bytes)
      → Spends k rules n (decode nil self raw >>= λ v. pure (replay_guard key v)) (Owned k key)
  replaying-Owned n nil self key raw =
      Spends-bind k rules n (decode nil self raw) _ (λ n' _. 0 ≤ n') (Owned k key)
        (IsQuiet-Spends k rules n (decode nil self raw) 0 (omega arith)
          (decode-IsQuiet k rules nil self raw))
        (λ n' v p. omega arith) (λ n' e p. tt)

  pushing :
      (key : String) (m : Program R (Guard V)) (stack : Stack V)
      → Spends k rules 0 m (Owned k key)
      → Spends k rules 0 (m >>= λ guard. pure (guard, push_guard guard stack)) (Entered k key)
  pushing key m stack h =
      Spends-bind k rules 0 m _ (Owned k key) (Entered k key) h (λ n guard p. p) (λ n e p. tt)

  -- The entering of a block, given how it claims, resolves and starts its heartbeat.
  entering-Spends :
      (nil : V) (self : Once R V) (key : String) (fp : Option String) (stack : Stack V)
      (opening : Program R (Option ClaimResult)) (claiming : Program R ClaimResult)
      (resolving : ClaimResult → Program R (Directive V))
      (beat : Option String → Program R (Option (Unit {0})))
      → ((n : ℕ) → Spends k rules n opening (Opened rules k key))
      → ((n : ℕ) → Spends k rules n claiming (Paid rules k key))
      → ((c : ClaimResult) → IsQuiet k rules (resolving c))
      → ((token : Option String) → IsQuiet k rules (beat token))
      → Spends k rules 0
          (form key fp opening claiming resolving
              (λ token. beat token >>= λ hb. pure (running_guard nil key token hb))
              (λ raw. decode nil self raw >>= λ v. pure (replay_guard key v))
              (sentinel_guard key)
              (pure (unguarded_guard nil key))
            >>= λ guard. pure (guard, push_guard guard stack))
          (Entered k key)
  entering-Spends nil self key fp stack opening claiming resolving beat o c r q =
      pushing key _ stack (
        form-Spends key fp opening claiming resolving
          (λ token. beat token >>= λ hb. pure (running_guard nil key token hb))
          (λ raw. decode nil self raw >>= λ v. pure (replay_guard key v)) (sentinel_guard key)
          (pure (unguarded_guard nil key)) k rules (Owned k key) (λ n e. tt)
          (λ n token le. beating-Owned n nil key token (beat token) le (q token))
          (λ n raw. replaying-Owned n nil self key raw) (λ n s. sentinel-Owned R k rules n key s)
          (λ n le. le) o c r)

  enter-Spends :
      (nil : V) (self : Once R V) (key : String) (fp : Option String) (stack : Stack V)
      → IsAllowed rules self.policy
      → ProbesOutside rules self.policy
      → IsGuarded rules self.on_store_down
      → Spends k rules 0 (enter nil self key fp stack) (Entered k key)
  unfolding enter resolve_in_flight_cm reclaim_cm fresh_guard
  enter-Spends nil self key fp stack allowed outside guarded =
      subst (λ m. Spends k rules 0 m (Entered {V = V} k key))
        (bind_assoc {D = Guard V × Stack V} (claim_or_open self key fp)
          (guard_after nil self key fp) (λ guard. pure (guard, push_guard guard stack)))
        (entering-Spends nil self key fp stack (claim_or_open self key fp) (store_claim self key fp)
          (resolve self.policy self.codec key) (start_heartbeat self key)
          (λ n. claim_or_open-Spends k rules n self key fp guarded)
          (λ n. store_claim-Spends k rules n self key fp)
          (λ c. resolve-IsQuiet R V k rules self.policy self.codec key c allowed outside)
          (start_heartbeat-IsQuiet k rules self key))

  aenter-Spends :
      (nil : V) (self : Once R V) (key : String) (fp : Option String) (stack : Stack V)
      → IsAllowed rules self.policy
      → ProbesOutside rules self.policy
      → IsGuarded rules self.on_store_down
      → Spends k rules 0 (aenter nil self key fp stack) (Entered k key)
  unfolding aenter aresolve_in_flight_cm areclaim_cm afresh_guard
  aenter-Spends nil self key fp stack allowed outside guarded =
      subst (λ m. Spends k rules 0 m (Entered {V = V} k key))
        (bind_assoc {D = Guard V × Stack V} (aclaim_or_open self key fp)
          (aguard_after nil self key fp) (λ guard. pure (guard, push_guard guard stack)))
        (entering-Spends nil self key fp stack (aclaim_or_open self key fp)
          (astore_claim self key fp) (aresolve self.policy self.codec key)
          (astart_heartbeat self key) (λ n. aclaim_or_open-Spends k rules n self key fp guarded)
          (λ n. astore_claim-Spends k rules n self key fp)
          (λ c. aresolve-IsQuiet R V k rules self.policy self.codec key c allowed outside)
          (astart_heartbeat-IsQuiet k rules self key))

  -- A block from the moment it is entered.
  block-Spends :
      (n : ℕ) (body : Guard V → Program R V) (key : String) (entered : Guard V × Stack V)
      (leave : Bool → Stack V → Program R (Stack V))
      → FiresWhenFresh rules k key body
      → ((clean : Bool) (stack : Stack V) → IsQuiet k rules (leave clean stack))
      → Entered k key n (ok entered)
      → Spends k rules n
          (do
            outcome ← attempt (body entered.0)
            leave (is_clean outcome) (leaving outcome entered.1)
            done outcome)
          (λ _ _. Unit)
  block-Spends n body key entered leave h q paid =
      Spends-bind k rules n (attempt (body entered.0)) _ (Held (λ _ _. Unit)) _
        (Spends-attempt k rules n (body entered.0) (λ _ _. Unit)
          (FiresAtMost-Spends k rules n (one_if (entered.0.fresh && str_eq key k)) (body entered.0)
            paid (h entered.0)))
        (λ n' outcome _. IsQuiet-end k rules n' _ (
          bind-IsQuiet k rules (leave (is_clean outcome) (leaving outcome entered.1)) _
            (q (is_clean outcome) (leaving outcome entered.1)) (λ _. tt)))
        (λ n' e p. absurd p)

  -- Whatever its calls are answered, a block fires its effect under its key at most once for each of
  -- its claims that is answered FRESH, or that finds the store down where it may run on.
  pub with_block-Spends :
      (nil : V) (self : Once R V) (body : Guard V → Program R V) (key : String) (fp : Option String)
      (stack : Stack V)
      → FiresWhenFresh rules k key body
      → IsAllowed rules self.policy
      → ProbesOutside rules self.policy
      → IsGuarded rules self.on_store_down
      → Spends k rules 0 (with_block nil self body key fp stack) (λ _ _. Unit)
  unfolding with_block
  with_block-Spends nil self body key fp stack h allowed outside guarded =
      Spends-bind k rules 0 (enter nil self key fp stack) _ (Entered k key) _
        (enter-Spends nil self key fp stack allowed outside guarded)
        (λ n entered paid.
          block-Spends n body key entered (exit self) h (exit-IsQuiet k rules self) paid)
        (λ n e p. tt)

  pub awith_block-Spends :
      (nil : V) (self : Once R V) (body : Guard V → Program R V) (key : String) (fp : Option String)
      (stack : Stack V)
      → FiresWhenFresh rules k key body
      → IsAllowed rules self.policy
      → ProbesOutside rules self.policy
      → IsGuarded rules self.on_store_down
      → Spends k rules 0 (awith_block nil self body key fp stack) (λ _ _. Unit)
  unfolding awith_block
  awith_block-Spends nil self body key fp stack h allowed outside guarded =
      Spends-bind k rules 0 (aenter nil self key fp stack) _ (Entered k key) _
        (aenter-Spends nil self key fp stack allowed outside guarded)
        (λ n entered paid.
          block-Spends n body key entered (aexit self) h (aexit-IsQuiet k rules self) paid)
        (λ n e p. tt)
