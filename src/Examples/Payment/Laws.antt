-- ===== src/Examples/Payment/Laws.antt =====
-- src/examples/payment.py over a new SQLite file.
use exactly_once.Prelude.{ℕ, ◌≡◌, refl, ◌∙◌, String, some, none, [], ◌∷◌, Bytes, str_append}
use exactly_once.Errors.{ok}
use exactly_once.Codec.{Codec}
use exactly_once.Dict.{lookup, insert}
use exactly_once.Values.{Value, null}
use exactly_once.Keys.{Builtins, own_key, resolve_key, compute_fingerprint}
use exactly_once.Program.{Program, ◌>>=◌, pure}
use exactly_once.Core.Run.{run}
use exactly_once.Core.Wrapper.{decorated, wrapper, key_of, fp_of}
use exactly_once.Stores.{Env}
use exactly_once.Stores.Effects.{Table, overwritten}
use exactly_once.Stores.Sqlite.{sqlite}
use exactly_once.Sequence.{World, Outside, exec}
use exactly_once.Sequence.Laws.{exec-then}
use exactly_once.Sequence.Files.{claimed_effect, lookup-inserted, file_call_runs, file_call_replays}
use exactly_once.Examples.{item_of, charge_key, charge_dict, served, launched}
use exactly_once.Examples.Payment.{
  PaymentCall, PaymentReply, payment_reply, charges_after, charge_once, count_charges, charge_card,
  payment_key, payment_settings, payment_function, pay_twice, stripe_charge,
}

module _ (py : Builtins) (str_of : Value → String) (codec : Codec Value) (env : ℕ → Env)
    (order id customer amount : Value) (b : Bytes) (id_is : item_of "id" order ≡ ok id)
    (customer_is : item_of "customer" order ≡ ok customer)
    (amount_is : item_of "amount" order ≡ ok amount)
    (encoded : codec.encode (charge_dict str_of 1 customer amount) ≡ ok b)
    (decoded : codec.decode b ≡ ok (charge_dict str_of 1 customer amount)) where
  abbrev stripe : Outside PaymentReply
  stripe = served env (payment_reply str_of)

  abbrev order_key : String
  order_key = str_append "charge:" (str_of id)

  abbrev call : Program PaymentReply Value
  call = decorated py (payment_settings str_of codec) payment_function (order ∷ []) []

  call_lem :
      call
      ≡ run null (payment_settings str_of codec).once (charge_card (order ∷ []) []) order_key none
  unfolding decorated wrapper key_of fp_of own_key resolve_key compute_fingerprint payment_key
      charge_key lookup
  call_lem = rw id_is refl

  abbrev charge : Value
  charge = charge_dict str_of 1 customer amount

  -- The file after the first call, and after both.
  abbrev first_claim : Table
  first_claim = insert order_key (claimed_effect (env 0) none) []

  abbrev paid : World PaymentCall Table
  paid = record {
    state = insert order_key (overwritten (env 5).now b (claimed_effect (env 0) none)) first_claim;
    current = none;
    calls = stripe_charge customer amount (some order_key) ∷ [];
    tick = 6;
  }

  first_lem : exec sqlite stripe call (launched []) ≡ (ok charge, paid)
  unfolding exec lookup charge_card payment_reply charges_after charge_once
  first_lem = rw call_lem (
      file_call_runs stripe null (payment_settings str_of codec).once (charge_card (order ∷ []) [])
        order_key none charge b (launched [])
        (record {
          state = first_claim;
          current = some order_key;
          calls = stripe_charge customer amount (some order_key) ∷ [];
          tick = 4;
        })
        refl refl (rw customer_is (rw amount_is refl)) refl encoded)

  again_lem : exec sqlite stripe call paid ≡ (ok charge, record paid { tick = 7 })
  again_lem = rw call_lem (
      file_call_replays stripe null (payment_settings str_of codec).once
        (charge_card (order ∷ []) []) order_key none
        (overwritten (env 5).now b (claimed_effect (env 0) none)) charge b paid
        (lookup-inserted order_key (overwritten (env 5).now b (claimed_effect (env 0) none))
          first_claim)
        refl refl refl decoded)

  twice_lem :
      exec sqlite stripe (pay_twice str_of codec py order) (launched [])
      ≡ (ok (charge, charge), record paid { tick = 7 })
  unfolding pay_twice exec
  twice_lem =
      exec-then sqlite stripe call (λ first. call >>= λ again. pure (first, again)) (launched [])
        first_lem
      ∙ exec-then sqlite stripe call (λ again. pure (charge, again)) paid again_lem

  -- For every order that has an id, a customer and an amount, over a new SQLite file: both calls of
  -- `main` return the first charge of Stripe, and it is the only one, if the codec gives it back.
  pub pay_twice_lem :
      let (r, w) = exec sqlite stripe (pay_twice str_of codec py order) (launched []) in
      (r ≡ ok (charge, charge)) × (count_charges (charges_after str_of w.calls) ≡ 1)
  unfolding charges_after charge_once lookup insert
  pay_twice_lem = rw twice_lem (refl, refl)
