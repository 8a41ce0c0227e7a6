-- ===== src/Program/Calls.antt =====
-- One program for each call of src/exactly_once/stores/base.py and of the other things that the
-- library's code asks of its surroundings. What the call raises, the program raises.
use exactly_once.Prelude.{ℕ, String, Bool, Option, Bytes}
use exactly_once.Errors.{ok}
use exactly_once.Types.{ClaimResult, ClaimRecord}
use exactly_once.Program.{Op, Program, done, op}

module _ {C : Type 0} {R : C → Type 0} where
  abbrev pub claim : String → Option String → Option ℕ → Program R ClaimResult
  claim key fp ttl = op (Op.claim key fp ttl) done

  abbrev pub commit : String → Bytes → Program R (Unit {0})
  commit key b = op (Op.commit key b) done

  abbrev pub release : String → Option String → Program R (Unit {0})
  release key token = op (Op.release key token) done

  abbrev pub heartbeat : String → String → ℕ → Program R Bool
  heartbeat key token ttl = op (Op.heartbeat key token ttl) done

  abbrev pub now : Program R ℕ
  now = op Op.now done

  abbrev pub get : String → Program R (Option ClaimRecord)
  get key = op (Op.get key) done

  abbrev pub monotonic : Program R ℕ
  monotonic = op Op.monotonic (λ t. done (ok t))

  abbrev pub sleep : ℕ → Program R (Unit {0})
  sleep d = op (Op.sleep d) (λ _. done (ok tt))

  abbrev pub set_current_key : Option String → Program R (Option String)
  set_current_key key = op (Op.set_current_key key) (λ old. done (ok old))

  abbrev pub reset_current_key : Option String → Program R (Unit {0})
  reset_current_key old = op (Op.reset_current_key old) (λ _. done (ok tt))

  -- `current_key()`
  abbrev pub get_current_key : Program R (Option String)
  get_current_key = op Op.get_current_key (λ key. done (ok key))

  abbrev pub start_beat : String → String → ℕ → ℕ → Program R (Unit {0})
  start_beat key token ttl interval = op (Op.start_beat key token ttl interval) (λ _. done (ok tt))

  abbrev pub stop_beat : Program R (Unit {0})
  stop_beat = op Op.stop_beat (λ _. done (ok tt))

  abbrev pub astop_beat : Program R (Unit {0})
  astop_beat = op Op.astop_beat done

  abbrev pub extern : (c : C) → Program R (R c)
  extern c = op (Op.extern c) done
