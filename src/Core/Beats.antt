-- ===== src/Core/Beats.antt =====
-- The renewal of a lease while an effect runs: the function `beat` of `_start_heartbeat`, run by a
-- thread, and that of `_astart_heartbeat`, run by a task, in src/exactly_once/core.py. `rounds` is the
-- number of waits that end before the thread is told to stop or the task is cancelled in its sleep.
use exactly_once.Prelude.{ℕ, zero, suc, String, Bool, true, false, if◌then◌else◌}
use exactly_once.Errors.{Result, ok, err}
use exactly_once.Program.{Program, pure, attempt, ◌>>=◌, ◌>>◌}
use exactly_once.Program.Calls

module _ {C : Type 0} {R : C → Type 0} where
  -- The body of the `try`, and its `except Exception`.
  abbrev pub go_on : Result Bool → Program R (Unit {0}) → Program R (Unit {0})
  go_on (ok true) rest = rest
  go_on (ok false) rest = pure tt
  go_on (err e) rest = pure tt

  unfoldable pub beat : ℕ → String → String → ℕ → Program R (Unit {0})
  beat zero key token ttl = pure tt
  beat (suc rounds) key token ttl =
      let rest = beat rounds key token ttl in
      do outcome ← attempt (Calls.heartbeat key token ttl); go_on outcome rest

  unfoldable pub abeat : ℕ → ℕ → String → String → ℕ → Program R (Unit {0})
  abeat zero interval key token ttl = pure tt
  abeat (suc rounds) interval key token ttl =
      let rest = abeat rounds interval key token ttl in
      do
        Calls.sleep interval
        renewed ← Calls.heartbeat key token ttl
        if renewed then rest else pure tt
