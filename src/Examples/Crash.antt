-- ===== src/Examples/Crash.antt =====
-- src/examples/crash_mid_payment.py: a payment whose process dies between the charge and the commit,
-- and which is run again, with and without the library. `ORDER` is a parameter.
pub mod Laws
use exactly_once.Prelude.{
  ℕ, ◌+◌, String, false, Option, none, some, List, [], ◌∷◌, ◌++◌, Bytes, length, ◌==◌, ◌&&◌,
  if◌then◌else◌,
}
use exactly_once.Errors.{Exception, Result, ok, err, effect_raised}
use exactly_once.Codec.{Codec}
use exactly_once.Dict.{Dict, lookup, insert}
use exactly_once.Values.{Value, null}
use exactly_once.Keys.{Builtins, KeySpec}
use exactly_once.Policies.{Policy, Prober, ProbeResult, Verdict}
use exactly_once.Program.{Program, pure, from_result, ◌>>=◌, ◌>>◌}
use exactly_once.Program.Calls
use exactly_once.Core.Wrapper.{Settings, Callable, decorated}
use exactly_once.Stores.{Env, Store}
use exactly_once.Stores.Effects.{Table}
use exactly_once.Stores.Sqlite.{sqlite}
use exactly_once.Sequence.{World, Outside, exec}
use exactly_once.Examples.{
  assertion_error, item_of, bound, charge_key, charge_dict, local_function, once, served, launched,
}

-- `stripe.charge(customer, amount, idempotency_key)` and `stripe._by_key.get(key)`
pub data StripeCall : Type 0 where
  charge : Value → Value → Option String → StripeCall
  charge_by_key : String → StripeCall

abbrev pub StripeReply : StripeCall → Type 0
StripeReply (charge _ _ _) = Value
StripeReply (charge_by_key _) = Option Value

pub record FakeStripe : Type 0 where
  pub charges : List Value
  pub by_key : Dict Value

abbrev pub new_stripe : FakeStripe
new_stripe = record { charges = []; by_key = [] }

abbrev pub killed : Exception
killed = effect_raised 3

module _ (str_of : Value → String) where
  abbrev new_charge : Value → Value → FakeStripe → Value
  new_charge customer amount stripe = charge_dict str_of (length stripe.charges + 1) customer amount

  -- `FakeStripe.charge`
  unfoldable pub charge_stripe : Value → Value → Option String → FakeStripe → Value × FakeStripe
  charge_stripe customer amount none stripe =
      let ch = new_charge customer amount stripe in
      (ch, record stripe { charges = stripe.charges ++ ch ∷ [] })
  charge_stripe customer amount (some key) stripe = elim (lookup key stripe.by_key) [
    | some ch ↦ (ch, stripe)
    | none ↦
        let ch = new_charge customer amount stripe in
        (ch, record { charges = stripe.charges ++ ch ∷ []; by_key = insert key ch stripe.by_key })
  ]

  -- The object after the calls that were made, the last one first.
  unfoldable pub stripe_after : List StripeCall → FakeStripe
  unfolding charge_stripe
  stripe_after [] = new_stripe
  stripe_after (charge customer amount key ∷ past) =
      (charge_stripe customer amount key (stripe_after past)).1
  stripe_after (charge_by_key key ∷ past) = stripe_after past

  unfoldable pub stripe_reply : List StripeCall → (c : StripeCall) → StripeReply c
  unfolding stripe_after charge_stripe
  stripe_reply past (charge customer amount key) =
      (charge_stripe customer amount key (stripe_after past)).0
  stripe_reply past (charge_by_key key) = lookup key (stripe_after past).by_key

  abbrev pub charges_of : {S : Type 0} → World StripeCall S → List Value
  charges_of w = (stripe_after w.calls).charges

  -- How many charges a run that returns leaves.
  abbrev pub counted : {S : Type 0} → Result Value × World StripeCall S → Result ℕ
  counted (ok _, w) = ok (length (charges_of w))
  counted (err e, w) = err e

-- `agent_pays`
unfoldable pub agent_pays : Value → Program StripeReply Value
agent_pays order = do
  customer ← from_result (item_of "customer" order)
  amount ← from_result (item_of "amount" order)
  Calls.extern (charge customer amount none)

abbrev probed : Option Value → ProbeResult Value
probed (some ch) = record { verdict = Verdict.committed; result = ch }
probed none = record { verdict = Verdict.not_committed; result = null }

unfoldable pub prober : String → Program StripeReply (ProbeResult Value)
prober key = do found ← Calls.extern (charge_by_key key); pure (probed found)

-- The body of `charge_card`.
unfoldable pub charge_card_body : List Value → Dict Value → Program StripeReply Value
charge_card_body args kwargs = do
  o ← from_result (bound "o" args kwargs)
  customer ← from_result (item_of "customer" o)
  amount ← from_result (item_of "amount" o)
  key ← Calls.get_current_key
  Calls.extern (charge customer amount key)

abbrev pub crash_function : Callable StripeReply
crash_function = record {
  about = local_function "charge_card" "with_exactly_once.<locals>.charger.<locals>.charge_card";
  is_coroutine = false;
  body = charge_card_body;
}

-- The store once its `commit` is replaced by `_dying_commit`.
abbrev pub dying : Store Table
dying = record sqlite { commit = λ env key b db. (err killed, db) }

-- `contextlib.suppress(Killed)`
abbrev suppressed : Result Value → Result (Unit {0})
suppressed (ok _) = ok tt
suppressed (err (Exception.effect_raised n)) = if n == 3 then ok tt else err (effect_raised n)
suppressed (err e) = err e

module _ (str_of : Value → String) (codec : Codec Value) where
  abbrev pub crash_settings : Settings StripeReply
  crash_settings =
      once (KeySpec.callable (λ args kwargs. charge_key str_of (bound "o" args kwargs)))
        (Policy.check_then_decide (Prober.plain prober)) codec

module _ (py : Builtins) (str_of : Value → String) (codec : Codec Value) (env : ℕ → Env)
    (order : Value) where
  abbrev stripe : Outside StripeReply
  stripe = served env (stripe_reply str_of)

  -- `charger()(ORDER)`
  unfoldable pub charger : Program StripeReply Value
  unfolding decorated charge_card_body charge_key prober
  charger = decorated py (crash_settings str_of codec) crash_function (order ∷ []) []

  -- The number of charges after the step was run, and run again.
  unfoldable pub without_exactly_once : Result ℕ
  unfolding agent_pays stripe_reply stripe_after exec
  without_exactly_once =
      counted str_of (exec sqlite stripe (agent_pays order >> agent_pays order) (launched []))

  -- The first attempt, and the second in the world that it left.
  abbrev pub first_attempt : Result Value × World StripeCall Table
  first_attempt = exec dying stripe charger (launched [])

  abbrev pub second_attempt : Result Value × World StripeCall Table
  second_attempt = exec sqlite stripe charger first_attempt.1

  unfoldable pub with_exactly_once : Result ℕ
  unfolding charger stripe_reply stripe_after exec sqlite
  with_exactly_once = elim (suppressed first_attempt.0) [
    | err e ↦ err e
    | ok _ ↦ counted str_of second_attempt
  ]

  unfoldable pub crash_main : Result (Unit {0})
  unfolding without_exactly_once with_exactly_once
  crash_main = elim without_exactly_once [
    | err e ↦ err e
    | ok naive ↦ elim with_exactly_once [
      | err e ↦ err e
      | ok guarded ↦ if naive == 2 && guarded == 1 then ok tt else err assertion_error
    ]
  ]
