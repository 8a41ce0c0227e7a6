-- ===== src/Sequence/Steps.antt =====
-- A call of `_run` of src/exactly_once/core.py over any store, by what its claim is answered, and the
-- execution of an effect that keeps no lease.
use exactly_once.Prelude.{◌+◌, ◌≡◌, refl, ap, ◌∙◌, String, false, Option, none, some, Bytes}
use exactly_once.Errors.{Result, ok, err, ◌>>=◌ as continue_with}
use exactly_once.Types.{State, ClaimResult}
use exactly_once.Policies.Resolve.{resolve}
use exactly_once.Program.{Program, done, attempt, pure, from_result, ◌>>=◌, ◌>>◌}
use exactly_once.Program.Calls
use exactly_once.Stores.{Store}
use exactly_once.Core.{Once, differs, decode, check_fingerprint, start_heartbeat, stop_heartbeat}
use exactly_once.Core.Run.{run, follow, execute_and_commit}
use exactly_once.Sequence.{World, Outside, exec}
use exactly_once.Sequence.Laws.{continue, exec-bind, exec-attempt}
use exactly_once.Sequence.Replay.{run_lem}

module _ {C : Type 0} {R : C → Type 0} {S V : Type 0} (store : Store S) (outside : Outside R)
    (nil : V) (self : Once R V) (func : Program R V) (key : String) (fp : Option String)
    (w : World C S) (c : ClaimResult) (s : S)
    (claimed : store.claim (outside.env w.tick) key fp self.lease_ttl w.state ≡ (ok c, s)) where
  pub won_call :
      c.state ≡ State.fresh
      → exec store outside (run nil self func key fp) w
        ≡ exec store outside
            (execute_and_commit self func key c.token)
            (record w { state = s; tick = w.tick + 1 })
  unfolding check_fingerprint
  won_call e =
      rw (run_lem store outside nil self func key fp w)
        (rw claimed (rw (e, check_fingerprint) refl))

  pub replayed_call :
      c.state ≡ State.committed
      → differs c.fingerprint fp ≡ false
      → exec store outside (run nil self func key fp) w
        ≡ exec store outside (decode nil self c.result) (record w { state = s; tick = w.tick + 1 })
  unfolding check_fingerprint
  replayed_call e d =
      rw (run_lem store outside nil self func key fp w)
        (rw claimed (rw (e, check_fingerprint) (rw d refl)))

  pub resolved_call :
      c.state ≡ State.in_flight
      → differs c.fingerprint fp ≡ false
      → exec store outside (run nil self func key fp) w
        ≡ exec store outside
            (resolve self.policy self.codec key c >>= follow nil self func key fp)
            (record w { state = s; tick = w.tick + 1 })
  unfolding check_fingerprint
  resolved_call e d =
      rw (run_lem store outside nil self func key fp w)
        (rw claimed (rw (e, check_fingerprint) (rw d refl)))

pub unleased_start :
    {C : Type 0} {R : C → Type 0} {V : Type 0} (self : Once R V) (key : String)
    (token : Option String)
    → self.lease_ttl ≡ none
    → start_heartbeat self key token ≡ pure none
unfolding start_heartbeat
unleased_start self key none e = refl
unleased_start self key (some token) e = rw (e, start_heartbeat) refl

module _ {C : Type 0} {R : C → Type 0} {S V : Type 0} (store : Store S) (outside : Outside R) where
  abbrev ending : Once R V → String → Option String → Result V → Program R V
  ending self key old outcome = do
    Calls.reset_current_key old
    stop_heartbeat none
    result ← from_result outcome
    encoded ← from_result (self.codec.encode result)
    Calls.commit key encoded
    pure result

  abbrev committed_with : Result (Unit {0}) → V → World C S → Result V × World C S
  committed_with r v w = (continue_with r (λ _. ok v), w)

  answered_commit :
      (r : Result (Unit {0})) (v : V) (w : World C S)
      → exec store outside (done r >>= λ _. pure v) w ≡ committed_with r v w
  unfolding exec
  answered_commit (ok _) v w = refl
  answered_commit (err e) v w = refl

  -- The effect gave `v`, whose encoding `b` is committed: the call answers what the commit does.
  pub executed_call :
      (self : Once R V) (func : Program R V) (key : String) (token : Option String) (v : V)
      (b : Bytes) (w w₁ : World C S)
      → self.lease_ttl ≡ none
      → exec store outside func (record w { current = some key; tick = w.tick + 1 }) ≡ (ok v, w₁)
      → self.codec.encode v ≡ ok b
      → let (r, s) = store.commit (outside.env (w₁.tick + 1)) key b w₁.state in
        exec store outside (execute_and_commit self func key token) w ≡ (
          continue_with r (λ _. ok v),
          record w₁ { state = s; current = w.current; tick = w₁.tick + 1 + 1 },
        )
  unfolding execute_and_commit stop_heartbeat exec
  executed_call self func key token v b w w₁ lease answers enc =
      let w₀ : World C S = record w { current = some key; tick = w.tick + 1 } in
      rw (unleased_start self key token lease, execute_and_commit)
        (exec-bind store outside (attempt func) (ending self key w.current) w₀
          ∙ ap (continue store outside (ending self key w.current))
              (exec-attempt store outside func w₀ ∙ ap (λ out. (ok out.0, out.1)) answers)
          ∙ rw (enc, exec)
              (answered_commit (store.commit (outside.env (w₁.tick + 1)) key b w₁.state).0 v
                (record w₁ {
                  state = (store.commit (outside.env (w₁.tick + 1)) key b w₁.state).1;
                  current = w.current;
                  tick = w₁.tick + 1 + 1;
                })))
