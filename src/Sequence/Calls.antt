-- ===== src/Sequence/Calls.antt =====
-- What a call of a decorated function does: `_execute_and_commit` of src/exactly_once/core.py on
-- every outcome of the effect.
use exactly_once.Prelude.{
  ℕ, ◌+◌, ◌≡◌, refl, ap, ◌∙◌, sym, String, Option, none, some, inl, inr, Option-cases, Bytes,
}
use mathlib.Core.Path.{subst}
use exactly_once.Errors.{Result, ok, err, ◌>>=◌ as continue_with}
use exactly_once.Program.{Program, done, attempt, pure, ◌>>=◌, ◌>>◌}
use exactly_once.Program.Calls
use exactly_once.Stores.{Env, Store}
use exactly_once.Core.{Once, start_heartbeat, stop_heartbeat}
use exactly_once.Core.Run.{execute_and_commit}
use exactly_once.Sequence.{World, Outside, exec}
use exactly_once.Sequence.Laws.{continue, exec-bind, exec-attempt, exec-external}
use exactly_once.Workers.Spends.{IsExternal}

-- The world in which the effect starts: the key is current, and the store is as it was.
abbrev pub Entered : {C S : Type 0} → String → World C S → World C S → Type 0
Entered key w w₁ = (w₁.current ≡ some key) × (w₁.state ≡ w.state) × (w₁.calls ≡ w.calls)

module _ {C : Type 0} {R : C → Type 0} {S : Type 0} (store : Store S) (outside : Outside R) where
  stop_lem :
      (hb : Option (Unit {0})) (w : World C S)
      → (n : ℕ) × (exec store outside (stop_heartbeat hb) w ≡ (ok tt, record w { tick = n }))
  unfolding stop_heartbeat exec
  stop_lem none w = (w.tick, refl)
  stop_lem (some _) w = (w.tick + 1, refl)

  -- What a call returns after its commit.
  returned :
      {V : Type 0} (r : Result (Unit {0})) (v : V) (w : World C S)
      → exec store outside (done r >>= λ _. pure v) w ≡ (continue_with r (λ _. ok v), w)
  unfolding exec
  returned (ok _) v w = refl
  returned (err e) v w = refl

module _ {C : Type 0} {R : C → Type 0} {S V : Type 0} (store : Store S) (outside : Outside R) where
  -- How a call that found its key FRESH ends, by the outcome of the effect. An effect that raises,
  -- and a result that cannot be encoded, leave the store as the effect found it; else the encoded
  -- result is committed, and the call returns the result if the commit does not raise.
  abbrev pub Encoded : S → String → V → Result Bytes → Result V × World C S → Type 0
  Encoded s key v (err e) (r, w) = (r ≡ err e) × (w.state ≡ s)
  Encoded s key v (ok b) (r, w) =
      (env : Env) × (w.state ≡ (store.commit env key b s).1)
      × (r ≡ continue_with (store.commit env key b s).0 (λ _. ok v))

  abbrev pub Finished : S → Once R V → String → Result V → Result V × World C S → Type 0
  Finished s self key (err e) (r, w) = (r ≡ err e) × (w.state ≡ s)
  Finished s self key (ok v) out = Encoded s key v (self.codec.encode v) out

  -- A heartbeat starts and stops without a trace in the store.
  pub start_lem :
      (self : Once R V) (key : String) (token : Option String) (w : World C S)
      → (hb : Option (Unit {0})) × (n : ℕ) × (exec store outside (start_heartbeat self key token) w
          ≡ (ok hb, record w { tick = n }))
  unfolding start_heartbeat exec
  start_lem self key none w = (none, w.tick, refl)
  start_lem self key (some token) w = elim (Option-cases self.lease_ttl) [
    | inl e ↦ (none, w.tick, rw (e, start_heartbeat))
    | inr (ttl, e) ↦ (some tt, w.tick + 1, rw (e, start_heartbeat))
  ]

  -- The end of the call, from the outcome of the effect.
  abbrev ending : Once R V → String → Result V → Program R V
  ending self key outcome = do
    result ← done outcome
    encoded ← done (self.codec.encode result)
    Calls.commit key encoded
    pure result

  ending_lem :
      (self : Once R V) (key : String) (r : Result V) (w : World C S)
      → Finished w.state self key r (exec store outside (ending self key r) w)
  unfolding exec
  ending_lem self key (err e) w = (refl, refl)
  ending_lem self key (ok v) w = by_encoding (self.codec.encode v)
    where
      by_encoding :
          (enc : Result Bytes)
          → Encoded w.state key v enc
              (exec store outside (done enc >>= λ encoded. Calls.commit key encoded >> pure v) w)
      by_encoding (err e) = (refl, refl)
      by_encoding (ok b) =
          let (r, s') = store.commit (outside.env w.tick) key b w.state in
          let e = returned store outside r v (record w { state = s'; tick = w.tick + 1 }) in
          (outside.env w.tick, ap (λ out. out.1.state) e, ap (λ out. out.0) e)

  ending_keeps :
      (self : Once R V) (key : String) (r : Result V) (w : World C S)
      → let w' = (exec store outside (ending self key r) w).1 in
        (w'.calls ≡ w.calls) × (w'.current ≡ w.current)
  unfolding exec
  ending_keeps self key (err e) w = (refl, refl)
  ending_keeps self key (ok v) w = by_encoding (self.codec.encode v)
    where
      by_encoding :
          (enc : Result Bytes)
          → let w' =
              (exec store outside
                (done enc >>= λ encoded. Calls.commit key encoded >> pure v)
                w).1 in
            (w'.calls ≡ w.calls) × (w'.current ≡ w.current)
      by_encoding (err e) = (refl, refl)
      by_encoding (ok b) =
          let (r, s') = store.commit (outside.env w.tick) key b w.state in
          let e = returned store outside r v (record w { state = s'; tick = w.tick + 1 }) in
          (ap (λ out. out.1.calls) e, ap (λ out. out.1.current) e)

  -- The rest of the call after the effect, and after the start of the heartbeat.
  abbrev leaving : Once R V → String → Option (Unit {0}) → Option String → Result V → Program R V
  leaving self key hb old outcome =
      Calls.reset_current_key old >> (stop_heartbeat hb >> ending self key outcome)

  abbrev entering : Once R V → Program R V → String → Option (Unit {0}) → Program R V
  entering self func key hb = do
    old ← Calls.set_current_key (some key)
    outcome ← attempt func
    leaving self key hb old outcome

  leaving_lem :
      (self : Once R V) (key : String) (hb : Option (Unit {0})) (old : Option String)
      (outcome : Result V) (w : World C S)
      → (n : ℕ) × (exec store outside (leaving self key hb old outcome) w
          ≡ exec store outside (ending self key outcome) (record w { current = old; tick = n }))
  unfolding exec
  leaving_lem self key hb old outcome w =
      let w' : World C S = record w { current = old; tick = w.tick + 1 } in
      let (n, stopped) = stop_lem store outside hb w' in
      (
        n,
        exec-bind store outside (stop_heartbeat hb) (λ _. ending self key outcome) w'
            ∙ ap (continue store outside (λ _. ending self key outcome)) stopped,
      )

  execute_lem :
      (self : Once R V) (func : Program R V) (key : String) (token : Option String) (w : World C S)
      → (n n' : ℕ) × let (r, w₂) =
            exec store outside func (record w { current = some key; tick = n }) in
          (exec store outside (execute_and_commit self func key token) w
            ≡ exec store outside (ending self key r) (record w₂ { current = w.current; tick = n' }))
  unfolding execute_and_commit exec
  execute_lem self func key token w =
      let (hb, n, started) = start_lem self key token w in
      let w₁ : World C S = record w { current = some key; tick = n + 1 } in
      let (r, w₂) = exec store outside func w₁ in
      let (n', left) = leaving_lem self key hb w.current r w₂ in
      (
        n + 1,
        n',
        exec-bind store outside (start_heartbeat self key token) (entering self func key) w
            ∙ ap (continue store outside (entering self func key)) started
            ∙ exec-bind store outside (attempt func) (leaving self key hb w.current) w₁
            ∙ ap (continue store outside (leaving self key hb w.current))
                (exec-attempt store outside func w₁)
            ∙ left,
      )

  -- `_execute_and_commit`: the effect is entered in a world with its key current, once, and the call
  -- ends as its outcome says, with the current key restored.
  pub execute-Finished :
      (self : Once R V) (func : Program R V) (key : String) (token : Option String) (w : World C S)
      → IsExternal func
      → let (r, w') = exec store outside (execute_and_commit self func key token) w in
        (w₁ : World C S) × Entered key w w₁
        × Finished w.state self key (exec store outside func w₁).0 (r, w')
        × (w'.calls ≡ (exec store outside func w₁).1.calls)
        × (w'.current ≡ w.current)
  execute-Finished self func key token w h =
      let (n, n', e) = execute_lem self func key token w in
      let w₁ : World C S = record w { current = some key; tick = n } in
      let (r, w₂) = exec store outside func w₁ in
      let w₃ : World C S = record w₂ { current = w.current; tick = n' } in
      (
        w₁,
        (refl, refl, refl),
        subst (λ out. Finished w.state self key r out) (sym e)
            (subst (λ s. Finished s self key r (exec store outside (ending self key r) w₃))
              (exec-external store outside func w₁ h).0 (ending_lem self key r w₃)),
        ap (λ out. out.1.calls) e ∙ (ending_keeps self key r w₃).0,
        ap (λ out. out.1.current) e ∙ (ending_keeps self key r w₃).1,
      )
