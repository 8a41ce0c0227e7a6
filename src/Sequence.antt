-- ===== src/Sequence.antt =====
-- One program at a time over a store: what a single-threaded caller sees.
pub mod Laws
pub mod Calls
pub mod Replay
pub mod Twice
pub mod Wrapped
pub mod Durably
pub mod Leases
pub mod Probes
pub mod Blocks
pub mod Heartbeats
pub mod Beats
pub mod Waiting
pub mod Steps
pub mod Files
pub mod Withs
use exactly_once.Prelude.{ℕ, ◌+◌, String, Option, none, some, List, [], ◌∷◌, ◌++◌, ◌≡◌}
use exactly_once.Errors.{Result, ok, err}
use exactly_once.Program.{Op, Reply, Program, done, op}
use exactly_once.Stores.{Env, Store}

-- `calls` are the calls of the caller's own code so far, `current` is `_current_key` of the
-- thread, and `tick` counts the calls of a program.
pub record World (C S : Type 0) : Type 0 where
  pub state : S
  pub current : Option String
  pub calls : List C
  pub tick : ℕ

-- What the surroundings answer at each tick: to the store, to the caller's code, by the calls that
-- it made before, the last one first, and to an `await` of the heartbeat's task.
pub record Outside {C : Type 0} (R : C → Type 0) : Type 0 where
  pub env : ℕ → Env
  pub answer : ℕ → List C → (c : C) → Result (R c)
  pub beat_end : ℕ → Result (Unit {0})

module _ {C : Type 0} {R : C → Type 0} {S : Type 0} (store : Store S) (outside : Outside R) where
  -- The world after a call of the store.
  abbrev pub stored : {A : Type 0} → World C S → A × S → A × World C S
  stored w (r, state) = (r, record w { state = state; tick = w.tick + 1 })

  abbrev pub tock : World C S → World C S
  tock w = record w { tick = w.tick + 1 }

  abbrev pub handle : (o : Op C) → World C S → Reply R o × World C S
  handle (Op.claim key fp ttl) w = stored w (store.claim (outside.env w.tick) key fp ttl w.state)
  handle (Op.commit key b) w = stored w (store.commit (outside.env w.tick) key b w.state)
  handle (Op.release key token) w = stored w (store.release (outside.env w.tick) key token w.state)
  handle (Op.heartbeat key token ttl) w =
      stored w (store.heartbeat (outside.env w.tick) key token ttl w.state)
  handle Op.now w = stored w (store.now (outside.env w.tick) w.state)
  handle (Op.get key) w = stored w (store.get (outside.env w.tick) key w.state)
  handle Op.monotonic w = ((outside.env w.tick).now, tock w)
  handle (Op.sleep _) w = (tt, tock w)
  handle (Op.set_current_key key) w = (w.current, record (tock w) { current = key })
  handle (Op.reset_current_key old) w = (tt, record (tock w) { current = old })
  handle Op.get_current_key w = (w.current, tock w)
  handle (Op.start_beat _ _ _ _) w = (tt, tock w)
  handle Op.stop_beat w = (tt, tock w)
  handle Op.astop_beat w = (outside.beat_end w.tick, tock w)
  handle (Op.extern c) w =
      (outside.answer w.tick w.calls c, record (tock w) { calls = c ∷ w.calls })

  unfoldable pub exec : {A : Type 0} → Program R A → World C S → Result A × World C S
  exec (done r) w = (r, w)
  exec (op o f) w = let (r, w') = handle o w in exec (f r) w'
