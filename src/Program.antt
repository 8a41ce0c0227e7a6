-- ===== src/Program.antt =====
-- Python code as a tree of the calls that it makes on what it does not own: the store, the clock,
-- the context variable of src/exactly_once/core.py, the heartbeat of a lease, and the code of the
-- caller (`extern`). A run of a tree, alone or between the calls of others, answers each call.
pub mod Calls
use exactly_once.Prelude.{ℕ, String, Bool, Option, Bytes, ◌≡◌, refl, fun_ext}
use exactly_once.Errors.{Exception, Result, ok, err}
use exactly_once.Types.{ClaimResult, ClaimRecord}

-- `C` is the type of the calls that the caller's code makes.
pub data Op (C : Type 0) : Type 0 where
  claim : String → Option String → Option ℕ → Op C
  commit : String → Bytes → Op C
  release : String → Option String → Op C
  heartbeat : String → String → ℕ → Op C
  now : Op C
  get : String → Op C
  monotonic : Op C
  sleep : ℕ → Op C
  set_current_key : Option String → Op C
  reset_current_key : Option String → Op C
  get_current_key : Op C
  start_beat : String → String → ℕ → ℕ → Op C
  stop_beat : Op C
  astop_beat : Op C
  extern : C → Op C

-- What a call answers. A store's call, the end of an asyncio task that is awaited, and the
-- caller's code may raise.
abbrev pub Reply : {C : Type 0} → (C → Type 0) → Op C → Type 0
Reply R (Op.claim _ _ _) = Result ClaimResult
Reply R (Op.commit _ _) = Result (Unit {0})
Reply R (Op.release _ _) = Result (Unit {0})
Reply R (Op.heartbeat _ _ _) = Result Bool
Reply R Op.now = Result ℕ
Reply R (Op.get _) = Result (Option ClaimRecord)
Reply R Op.monotonic = ℕ
Reply R (Op.sleep _) = Unit {0}
Reply R (Op.set_current_key _) = Option String
Reply R (Op.reset_current_key _) = Unit {0}
Reply R Op.get_current_key = Option String
Reply R (Op.start_beat _ _ _ _) = Unit {0}
Reply R Op.stop_beat = Unit {0}
Reply R Op.astop_beat = Result (Unit {0})
Reply R (Op.extern c) = Result (R c)

pub data Program {C : Type 0} (R : C → Type 0) (A : Type 0) : Type 0 where
  done : Result A → Program R A
  op : (o : Op C) → (Reply R o → Program R A) → Program R A

module _ {C : Type 0} {R : C → Type 0} where
  abbrev pub pure : {A : Type 0} → A → Program R A
  pure a = done (ok a)

  abbrev pub raise : {A : Type 0} → Exception → Program R A
  raise e = done (err e)

  infixl 5 ◌>>=◌ ◌>>◌
  abbrev pub ◌>>=◌ : {A B : Type 0} → Program R A → (A → Program R B) → Program R B
  done (ok a) >>= f = f a
  done (err e) >>= f = done (err e)
  op o k >>= f = op o (λ r. k r >>= f)

  abbrev pub ◌>>◌ : {A B : Type 0} → Program R A → Program R B → Program R B
  m >> n = m >>= λ _. n

  -- The outcome of a `try` block as a value, for its `except` and `finally` clauses.
  abbrev pub attempt : {A : Type 0} → Program R A → Program R (Result A)
  attempt (done r) = pure r
  attempt (op o k) = op o (λ r. attempt (k r))

  abbrev pub from_result : {A : Type 0} → Result A → Program R A
  from_result r = done r

  pub bind_assoc :
      {A B D : Type 0} (m : Program R A) (f : A → Program R B) (g : B → Program R D)
      → (m >>= f >>= g) ≡ (m >>= λ a. f a >>= g)
  bind_assoc (done (ok a)) f g = refl
  bind_assoc (done (err e)) f g = refl
  bind_assoc (op o k) f g = λ i. op o (λ r. bind_assoc (k r) f g i)
