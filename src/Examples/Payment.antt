-- ===== src/Examples/Payment.antt =====
-- src/examples/payment.py: a charge under its order's key, called twice.
pub mod Laws
use exactly_once.Prelude.{ℕ, ◌+◌, String, false, Option, none, some, List, [], ◌∷◌, length}
use exactly_once.Errors.{Result}
use exactly_once.Codec.{Codec}
use exactly_once.Dict.{Dict, lookup, insert}
use exactly_once.Values.{Value}
use exactly_once.Keys.{Builtins, KeySpec}
use exactly_once.Policies.{quarantine_with}
use exactly_once.Program.{Program, pure, from_result, ◌>>=◌}
use exactly_once.Program.Calls
use exactly_once.Core.Wrapper.{Settings, Callable, decorated}
use exactly_once.Examples.{
  item_of, bound, bound_first, charge_key, charge_dict, local_function, once,
}

-- `stripe_charge(customer, amount, idempotency_key)`
pub data PaymentCall : Type 0 where
  stripe_charge : Value → Value → Option String → PaymentCall

abbrev pub PaymentReply : PaymentCall → Type 0
PaymentReply c = Value

-- `_charges`, a dict whose keys are texts or `None`.
pub record Charges : Type 0 where
  pub unkeyed : Option Value
  pub keyed : Dict Value

abbrev pub no_charges : Charges
no_charges = record { unkeyed = none; keyed = [] }

abbrev pub charge_at : Option String → Charges → Option Value
charge_at none charges = charges.unkeyed
charge_at (some key) charges = lookup key charges.keyed

abbrev pub with_charge : Option String → Value → Charges → Charges
with_charge none charge charges = record charges { unkeyed = some charge }
with_charge (some key) charge charges = record charges { keyed = insert key charge charges.keyed }

-- `len(_charges)`
abbrev pub count_charges : Charges → ℕ
count_charges charges = elim charges.unkeyed [
  | none ↦ length charges.keyed
  | some _ ↦ length charges.keyed + 1
]

module _ (str_of : Value → String) where
  unfoldable pub charge_once : Value → Value → Option String → Charges → Value × Charges
  charge_once customer amount key charges = elim (charge_at key charges) [
    | some charge ↦ (charge, charges)
    | none ↦
        let charge = charge_dict str_of (count_charges charges + 1) customer amount in
        (charge, with_charge key charge charges)
  ]

  -- `_charges` after the calls that were made, the last one first.
  unfoldable pub charges_after : List PaymentCall → Charges
  unfolding charge_once
  charges_after [] = no_charges
  charges_after (stripe_charge customer amount key ∷ past) =
      (charge_once customer amount key (charges_after past)).1

  unfoldable pub payment_reply : List PaymentCall → (c : PaymentCall) → PaymentReply c
  unfolding charges_after charge_once
  payment_reply past (stripe_charge customer amount key) =
      (charge_once customer amount key (charges_after past)).0

  -- `lambda order, **_: f"charge:{order['id']}"`
  unfoldable pub payment_key : List Value → Dict Value → Result Value
  unfolding charge_key
  payment_key args kwargs = charge_key str_of (bound_first "order" args kwargs)

-- The body of `charge_card`.
unfoldable pub charge_card : List Value → Dict Value → Program PaymentReply Value
charge_card args kwargs = do
  order ← from_result (bound "order" args kwargs)
  customer ← from_result (item_of "customer" order)
  amount ← from_result (item_of "amount" order)
  key ← Calls.get_current_key
  Calls.extern (stripe_charge customer amount key)

abbrev pub payment_function : Callable PaymentReply
payment_function = record {
  about = local_function "charge_card" "main.<locals>.charge_card";
  is_coroutine = false;
  body = charge_card;
}

module _ (str_of : Value → String) (codec : Codec Value) where
  abbrev pub payment_settings : Settings PaymentReply
  payment_settings = once (KeySpec.callable (payment_key str_of)) (quarantine_with none) codec

  -- `main`: the results of its two calls.
  unfoldable pub pay_twice : Builtins → Value → Program PaymentReply (Value × Value)
  unfolding decorated charge_card payment_key
  pay_twice py order = do
    first ← decorated py payment_settings payment_function (order ∷ []) []
    again ← decorated py payment_settings payment_function (order ∷ []) []
    pure (first, again)
