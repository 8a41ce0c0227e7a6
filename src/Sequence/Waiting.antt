-- ===== src/Sequence/Waiting.antt =====
-- The loop of `Wait` of src/exactly_once/policies.py over the memory store.
use exactly_once.Prelude.{
  ℕ, zero, suc, ◌+◌, ◌<◌, ◌≡◌, refl, String, true, false, Bool, Option, none, some, arith, ltb,
  if◌then◌else◌,
}
use exactly_once.Errors.{Result, ok}
use exactly_once.Types.{State, ClaimRecord}
use exactly_once.Dict.{lookup}
use exactly_once.Program.{Program, pure, ◌>>=◌, ◌>>◌}
use exactly_once.Program.Calls
use exactly_once.Policies.{Directive, stay_quarantined, replay_result}
use exactly_once.Policies.Resolve.{wait_loop, resolve_wait, poll}
use exactly_once.Stores.Memory
use exactly_once.Stores.Memory.{MemoryStore, memory}
use exactly_once.Sequence.{World, Outside, exec}

before : (a b : ℕ) → ltb a b ≡ true → a < b
before a b h = ground arith

module _ {C : Type 0} {R : C → Type 0} (V : Type 0) (outside : Outside R) where
  -- The clock moves between any two calls.
  abbrev pub Advances : Type 0
  Advances = (n : ℕ) → (outside.env n).now < (outside.env (n + 1)).now

  -- A run gave a directive, and left the store alone.
  abbrev Answers : MemoryStore → Result (Directive V) × World C MemoryStore → Type 0
  Answers s (r, w') = ((d : Directive V) × (r ≡ ok d)) × (w'.state ≡ s)

  poll_lem :
      (row : Option ClaimRecord) (interval : ℕ) (rest : Program R (Directive V))
      (w : World C MemoryStore)
      → Answers w.state (exec memory outside rest (record w { tick = w.tick + 1 }))
      → Answers w.state (exec memory outside (poll row (Calls.sleep interval >> rest)) w)
  unfolding poll exec
  poll_lem none interval rest w h = ((_, refl), refl)
  poll_lem (some rec) interval rest w h = by_state rec.state
    where
      by_state :
          (s : State)
          → Answers w.state (
              exec memory outside
                (elim s [
                  | State.committed ↦ pure (replay_result rec.result)
                  | _ ↦ Calls.sleep interval >> rest
                ])
                w)
      by_state State.committed = ((_, refl), refl)
      by_state State.in_flight = h
      by_state State.fresh = h

  if_lem :
      (b : Bool) (m n : Program R (Directive V)) (s : MemoryStore) (w : World C MemoryStore)
      → (b ≡ true → Answers s (exec memory outside m w))
      → (b ≡ false → Answers s (exec memory outside n w))
      → Answers s (exec memory outside (if b then m else n) w)
  if_lem true m n s w if_true if_false = if_true refl
  if_lem false m n s w if_true if_false = if_false refl

  -- Rounds are left for as long as the deadline is ahead.
  loop_lem :
      (f deadline interval : ℕ) (key : String) (w : World C MemoryStore)
      → Advances
      → deadline < (outside.env w.tick).now + suc f
      → Answers w.state (exec memory outside (wait_loop (suc f) deadline interval key) w)
  unfolding wait_loop exec memory Memory.get
  loop_lem zero deadline interval key w clock h =
      if_lem (ltb (outside.env w.tick).now deadline)
        (Calls.get key >>= λ rec.
          poll rec (Calls.sleep interval >> wait_loop zero deadline interval key))
        (pure (stay_quarantined none)) w.state (record w { tick = w.tick + 1 })
        (λ c. absurd (omega (arith, h, before _ _ c))) (λ c. ((_, refl), refl))
  loop_lem (suc f) deadline interval key w clock h =
      let rest : Program R (Directive V) = wait_loop (suc f) deadline interval key in
      let w₂ : World C MemoryStore = record w { tick = w.tick + 1 + 1 } in
      if_lem (ltb (outside.env w.tick).now deadline)
        (Calls.get key >>= λ rec. poll rec (Calls.sleep interval >> rest))
        (pure (stay_quarantined none)) w.state (record w { tick = w.tick + 1 })
        (λ c. poll_lem (lookup key w.state) interval rest w₂ (
          loop_lem f deadline interval key (record w₂ { tick = w₂.tick + 1 }) clock
            (omega (arith, h, clock w.tick, clock (w.tick + 1), clock (w.tick + 1 + 1)))))
        (λ c. ((_, refl), refl))

  -- If the clock moves between any two calls, `Wait` gives a directive, whatever its timeout and
  -- interval: its rounds do not run out. It leaves the store alone.
  pub wait-Answers :
      (timeout interval : ℕ) (key : String) (w : World C MemoryStore)
      → Advances
      → let (r, w') = exec memory outside (resolve_wait timeout interval key) w in
        ((d : Directive V) × (r ≡ ok d)) × (w'.state ≡ w.state)
  unfolding resolve_wait exec
  wait-Answers timeout interval key w clock =
      loop_lem timeout ((outside.env w.tick).now + timeout) interval key
        (record w { tick = w.tick + 1 }) clock (omega (arith, clock w.tick))
