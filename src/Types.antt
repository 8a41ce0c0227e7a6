-- ===== src/Types.antt =====
-- The value types of src/exactly_once/_types.py. Times are whole microseconds of a clock, where
-- the source has floats in seconds.
use exactly_once.Prelude.{ℕ, String, Bool, true, false, Option, Bytes}

pub data State : Type 0 where
  fresh in_flight committed : State

pub record ClaimResult : Type 0 where
  pub state : State
  pub key : String
  pub result : Option Bytes
  pub fingerprint : Option String
  pub token : Option String
  pub lease_expires_at : Option ℕ

pub record ClaimRecord : Type 0 where
  pub key : String
  pub state : State
  pub result : Option Bytes
  pub fingerprint : Option String
  pub created_at : Option ℕ
  pub updated_at : Option ℕ
  pub token : Option String
  pub lease_expires_at : Option ℕ

-- `a is b` on states.
abbrev pub is_state : State → State → Bool
is_state State.fresh State.fresh = true
is_state State.in_flight State.in_flight = true
is_state State.committed State.committed = true
is_state _ _ = false
