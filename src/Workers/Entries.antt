-- ===== src/Workers/Entries.antt =====
-- The decorator forms of `once` in src/exactly_once/core.py fire the effect once at most for each
-- claim that is answered FRESH, or that finds the store down where they may run on, and call
-- `release` only by the policies that do.
use exactly_once.Prelude.{ℕ, ◌-◌, ◌+◌, ◌≤◌, refl, arith, String, Option, none, some, Bytes, str_eq}
use exactly_once.Errors.{Result}
use exactly_once.Policies.Resolve.{resolve}
use exactly_once.Policies.Aresolve.{aresolve}
use exactly_once.Program.{Program, done, pure, attempt, ◌>>=◌, ◌>>◌}
use exactly_once.Program.Calls
use exactly_once.Core.{
  Once, decode, store_claim, astore_claim, claim_or_open, aclaim_or_open, start_heartbeat,
  stop_heartbeat, astart_heartbeat, astop_heartbeat,
}
use exactly_once.Core.Run.{run, execute_and_commit, reclaim, follow, answer_sentinel}
use exactly_once.Core.Arun.{arun, aexecute_and_commit, areclaim, afollow}
use exactly_once.Workers.{Rules, FiresAtMost, one_if}
use exactly_once.Workers.Claims.{
  form-Spends, store_claim-Spends, astore_claim-Spends, claim_or_open-Spends, aclaim_or_open-Spends,
}
use exactly_once.Workers.Quiet.{
  ProbesOutside, IsAllowed, IsGuarded, start_heartbeat-IsQuiet, stop_heartbeat-IsQuiet,
  astart_heartbeat-IsQuiet, astop_heartbeat-IsQuiet, resolve-IsQuiet, aresolve-IsQuiet,
}
use exactly_once.Workers.Spends.{
  Held, Spends, Spends-bind, Spends-attempt, IsQuiet, bind-IsQuiet, IsQuiet-Spends, IsQuiet-end,
  FiresAtMost-Spends,
}

sentinel-Spends :
    {C : Type 0} (R : C → Type 0) {V : Type 0} (k : String) (rules : Rules C) (n : ℕ) (key : String)
    (o : Option V)
    → Spends {R = R} k rules n (answer_sentinel key o) (λ _ _. Unit)
sentinel-Spends R k rules n key none = tt
sentinel-Spends R k rules n key (some v) = tt

module _ {C : Type 0} {R : C → Type 0} {V : Type 0} (k : String) (rules : Rules C) where
  -- The end of an effect: its key is current no more, its heartbeat is stopped, and its result is
  -- committed.
  abbrev ending : Once R V → String → Option String → Program R (Unit {0}) → Result V → Program R V
  ending self key old stop outcome = do
    Calls.reset_current_key old
    stop
    result ← done outcome
    encoded ← done (self.codec.encode result)
    Calls.commit key encoded
    pure result

  ending-IsQuiet :
      (self : Once R V) (key : String) (old : Option String) (outcome : Result V)
      (stop : Program R (Unit {0}))
      → IsQuiet k rules stop
      → IsQuiet k rules (ending self key old stop outcome)
  ending-IsQuiet self key old outcome stop h = (
    refl,
    refl,
    λ _. bind-IsQuiet k rules stop _ h (λ _. bind-IsQuiet k rules (done outcome) _ tt (λ result.
        bind-IsQuiet k rules (done (self.codec.encode result)) _ tt
          (λ encoded. (refl, refl, λ r. bind-IsQuiet k rules (done r) _ tt (λ _. tt))))),
  )

  -- An effect between the start and the stop of a heartbeat.
  entering-Spends :
      (n : ℕ) (self : Once R V) (func : Program R V) (key : String)
      (beat : Program R (Option (Unit {0}))) (stop : Option (Unit {0}) → Program R (Unit {0}))
      → IsQuiet k rules beat
      → ((hb : Option (Unit {0})) → IsQuiet k rules (stop hb))
      → one_if (str_eq key k) ≤ n
      → FiresAtMost rules (one_if (str_eq key k)) func
      → Spends k rules n
          (do
            hb ← beat
            old ← Calls.set_current_key (some key)
            outcome ← attempt func
            ending self key old (stop hb) outcome)
          (λ _ _. Unit)
  entering-Spends n self func key beat stop q q' le h =
      Spends-bind k rules n beat _ (λ n' _. one_if (str_eq key k) ≤ n') _
        (IsQuiet-Spends k rules n beat _ le q)
        (λ n' hb le'. (
          omega arith,
          refl,
          λ old.
              Spends-bind k rules (n' - 0 + 0) (attempt func) _ (Held (λ _ _. Unit)) _
                (Spends-attempt k rules (n' - 0 + 0) func (λ _ _. Unit)
                  (FiresAtMost-Spends k rules (n' - 0 + 0) (one_if (str_eq key k)) func
                    (omega (arith, le')) h))
                (λ n'' outcome _.
                  IsQuiet-end k rules n'' (ending self key old (stop hb) outcome)
                    (ending-IsQuiet self key old outcome (stop hb) (q' hb)))
                (λ n'' e p. absurd p),
        ))
        (λ n' e p. tt)

  execute-Spends :
      (n : ℕ) (self : Once R V) (func : Program R V) (key : String) (token : Option String)
      → one_if (str_eq key k) ≤ n
      → FiresAtMost rules (one_if (str_eq key k)) func
      → Spends k rules n (execute_and_commit self func key token) (λ _ _. Unit)
  unfolding execute_and_commit
  execute-Spends n self func key token le h =
      entering-Spends n self func key (start_heartbeat self key token) stop_heartbeat
        (start_heartbeat-IsQuiet k rules self key token) (stop_heartbeat-IsQuiet R k rules) le h

  aexecute-Spends :
      (n : ℕ) (self : Once R V) (func : Program R V) (key : String) (token : Option String)
      → one_if (str_eq key k) ≤ n
      → FiresAtMost rules (one_if (str_eq key k)) func
      → Spends k rules n (aexecute_and_commit self func key token) (λ _ _. Unit)
  unfolding aexecute_and_commit
  aexecute-Spends n self func key token le h =
      entering-Spends n self func key (astart_heartbeat self key token) astop_heartbeat
        (astart_heartbeat-IsQuiet k rules self key token) (astop_heartbeat-IsQuiet R k rules) le h

  pub decode-IsQuiet :
      (nil : V) (self : Once R V) (raw : Option Bytes) → IsQuiet k rules (decode nil self raw)
  unfolding decode
  decode-IsQuiet nil self none = tt
  decode-IsQuiet nil self (some raw) = tt

  -- Whatever its calls are answered, `run` fires the effect under its key at most once for
  -- each of its claims that is answered FRESH, or that finds the store down where it may run on, and
  -- it releases the key only where that is
  -- allowed: from nothing paid it spends only what its claims pay.
  pub run-Spends :
      (nil : V) (self : Once R V) (func : Program R V) (key : String) (fp : Option String)
      → FiresAtMost rules (one_if (str_eq key k)) func
      → IsAllowed rules self.policy
      → ProbesOutside rules self.policy
      → IsGuarded rules self.on_store_down
      → Spends k rules 0 (run nil self func key fp) (λ _ _. Unit)
  unfolding run follow reclaim
  run-Spends nil self func key fp h allowed outside guarded =
      form-Spends key fp (claim_or_open self key fp) (store_claim self key fp)
        (resolve self.policy self.codec key) (execute_and_commit self func key) (decode nil self)
        (answer_sentinel key) func k rules (λ _ _. Unit) (λ n e. tt)
        (λ n token le. execute-Spends n self func key token le h)
        (λ n raw. IsQuiet-end k rules n _ (decode-IsQuiet nil self raw))
        (λ n o. sentinel-Spends R k rules n key o)
        (λ n le. FiresAtMost-Spends k rules n (one_if (str_eq key k)) func le h)
        (λ n. claim_or_open-Spends k rules n self key fp guarded)
        (λ n. store_claim-Spends k rules n self key fp)
        (λ c. resolve-IsQuiet R V k rules self.policy self.codec key c allowed outside)

  -- The same of `arun`.
  pub arun-Spends :
      (nil : V) (self : Once R V) (func : Program R V) (key : String) (fp : Option String)
      → FiresAtMost rules (one_if (str_eq key k)) func
      → IsAllowed rules self.policy
      → ProbesOutside rules self.policy
      → IsGuarded rules self.on_store_down
      → Spends k rules 0 (arun nil self func key fp) (λ _ _. Unit)
  unfolding arun afollow areclaim
  arun-Spends nil self func key fp h allowed outside guarded =
      form-Spends key fp (aclaim_or_open self key fp) (astore_claim self key fp)
        (aresolve self.policy self.codec key) (aexecute_and_commit self func key) (decode nil self)
        (answer_sentinel key) func k rules (λ _ _. Unit) (λ n e. tt)
        (λ n token le. aexecute-Spends n self func key token le h)
        (λ n raw. IsQuiet-end k rules n _ (decode-IsQuiet nil self raw))
        (λ n o. sentinel-Spends R k rules n key o)
        (λ n le. FiresAtMost-Spends k rules n (one_if (str_eq key k)) func le h)
        (λ n. aclaim_or_open-Spends k rules n self key fp guarded)
        (λ n. astore_claim-Spends k rules n self key fp)
        (λ c. aresolve-IsQuiet R V k rules self.policy self.codec key c allowed outside)
