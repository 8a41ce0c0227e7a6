-- ===== src/Sequence/Heartbeats.antt =====
-- The end of an asynchronous heartbeat in `_aexecute_and_commit` of src/exactly_once/core.py.
use exactly_once.Prelude.{ℕ, ◌+◌, ◌≡◌, refl, ap, ◌∙◌, String, Option, some}
use exactly_once.Errors.{Exception, Result, ok, err}
use exactly_once.Program.{Program, done, attempt, from_result, pure, ◌>>=◌, ◌>>◌}
use exactly_once.Program.Calls
use exactly_once.Stores.{Store}
use exactly_once.Core.{Once, astart_heartbeat, astop_heartbeat}
use exactly_once.Core.Arun.{aexecute_and_commit}
use exactly_once.Sequence.{World, Outside, exec}
use exactly_once.Sequence.Calls.{Entered}
use exactly_once.Sequence.Laws.{continue, exec-bind, exec-attempt, exec-external}
use exactly_once.Workers.Spends.{IsExternal}

module _ {C : Type 0} {R : C → Type 0} {S : Type 0} (store : Store S) (outside : Outside R) where
  raised_lem :
      {A : Type 0} (q : Result (Unit {0})) (e : Exception) (rest : Unit {0} → Program R A)
      (w : World C S)
      → q ≡ err e
      → exec store outside (done q >>= rest) w ≡ (err e, w)
  unfolding exec
  raised_lem (ok _) e rest w h = absurd (cc)
  raised_lem (err x) e rest w h = ap (λ q. (q, w)) (cc)

module _ {C : Type 0} {R : C → Type 0} {S V : Type 0} (store : Store S) (outside : Outside R) where
  -- The rest of the call after the effect.
  abbrev leaving : Once R V → String → Option String → Result V → Program R V
  leaving self key old outcome = do
    Calls.reset_current_key old
    Calls.astop_beat
    result ← from_result outcome
    encoded ← from_result (self.codec.encode result)
    Calls.commit key encoded
    pure result

  aexecute_lem :
      (self : Once R V) (func : Program R V) (key token : String) (ttl : ℕ) (w : World C S)
      → self.lease_ttl ≡ some ttl
      → let (r, w₂) =
          exec store outside func (record w { current = some key; tick = w.tick + 1 + 1 }) in
        exec store outside (aexecute_and_commit self func key (some token)) w
        ≡ exec store outside (leaving self key w.current r) w₂
  unfolding aexecute_and_commit astart_heartbeat astop_heartbeat exec
  aexecute_lem self func key token ttl w lease =
      let w₁ : World C S = record w { current = some key; tick = w.tick + 1 + 1 } in
      rw (lease, aexecute_and_commit, astart_heartbeat, exec)
        (exec-bind store outside (attempt func) (leaving self key w.current) w₁
          ∙ ap (continue store outside (leaving self key w.current))
              (exec-attempt store outside func w₁))

  -- If the heartbeat's task has ended with an exception, the call raises that exception after the
  -- effect has run, whatever the effect returned, and nothing is committed.
  pub failed_beat_raises :
      (self : Once R V) (func : Program R V) (key token : String) (ttl : ℕ) (e : Exception)
      (w : World C S)
      → IsExternal func
      → self.lease_ttl ≡ some ttl
      → ((n : ℕ) → outside.beat_end n ≡ err e)
      → let (r, w') = exec store outside (aexecute_and_commit self func key (some token)) w in
        (r ≡ err e)
        × (w'.state ≡ w.state)
        × ((w₁ : World C S) × Entered key w w₁ × (w'.calls ≡ (exec store outside func w₁).1.calls))
  unfolding exec
  failed_beat_raises self func key token ttl e w h lease failed =
      let w₁ : World C S = record w { current = some key; tick = w.tick + 1 + 1 } in
      let (r, w₂) = exec store outside func w₁ in
      let w₃ : World C S = record w₂ { current = w.current; tick = w₂.tick + 1 + 1 } in
      let p =
        aexecute_lem self func key token ttl w lease
        ∙ raised_lem store outside (outside.beat_end (w₂.tick + 1)) e
            (λ _. do
              result ← from_result r
              encoded ← from_result (self.codec.encode result)
              Calls.commit key encoded
              pure result)
            w₃ (failed (w₂.tick + 1)) in
      (
        ap (λ out. out.0) p,
        ap (λ out. out.1.state) p ∙ (exec-external store outside func w₁ h).0,
        (w₁, (refl, refl, refl), ap (λ out. out.1.calls) p),
      )
