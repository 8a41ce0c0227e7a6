-- ===== src/Errors.antt =====
-- The exceptions of src/exactly_once/errors.py, with those of Python that the library raises or
-- lets through, and the outcome of a call that may raise.
use exactly_once.Prelude.{ℕ, String, Bool, true, false, ◌≡◌}

-- `out_of_fuel` is no exception of Python: it marks a loop of the model that was given too few
-- rounds. `effect_raised n` is an exception of the code that a caller supplies; `n` tells them apart.
pub data Exception : Type 0 where
  unstable_key : Exception
  key_reuse : String → Exception
  quarantined : String → Exception
  result_too_large : Exception
  store_unavailable : Exception
  type_error : Exception
  value_error : Exception
  serialization_failure : Exception
  operational_error : Exception
  connection_error : Exception
  runtime_error : Exception
  out_of_fuel : Exception
  effect_raised : ℕ → Exception

-- The subclasses of `ExactlyOnceError`.
unfoldable pub is_exactly_once_error : Exception → Bool
is_exactly_once_error Exception.unstable_key = true
is_exactly_once_error (Exception.key_reuse _) = true
is_exactly_once_error (Exception.quarantined _) = true
is_exactly_once_error Exception.result_too_large = true
is_exactly_once_error Exception.store_unavailable = true
is_exactly_once_error _ = false

pub data Result {ℓ} (A : Type ℓ) : Type ℓ where
  ok : A → Result A
  err : Exception → Result A

infixl 5 ◌>>=◌
abbrev pub ◌>>=◌ {ℓ κ} : {A : Type ℓ} {B : Type κ} → Result A → (A → Result B) → Result B
ok a >>= f = f a
err e >>= f = err e

pub ok-inj {ℓ} : {A : Type ℓ} {a b : A} → ok a ≡ ok b → a ≡ b
ok-inj h = cc
