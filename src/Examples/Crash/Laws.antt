-- ===== src/Examples/Crash/Laws.antt =====
-- src/examples/crash_mid_payment.py: what its `main` asserts, for any order.
use exactly_once.Prelude.{
  ℕ, ◌≡◌, refl, ap, ◌∙◌, String, some, none, [], ◌∷◌, Bytes, str_append, eq_refl,
}
use exactly_once.Errors.{ok, err}
use exactly_once.Codec.{Codec}
use exactly_once.Dict.{lookup, insert}
use exactly_once.Values.{Value, null}
use exactly_once.Keys.{Builtins, own_key, resolve_key, compute_fingerprint}
use exactly_once.Policies.Resolve.{resolve, apply_probe, settle}
use exactly_once.Program.{◌>>◌}
use exactly_once.Program.Calls
use exactly_once.Core.{decode}
use exactly_once.Core.Run.{run, follow}
use exactly_once.Core.Wrapper.{decorated, wrapper, key_of, fp_of}
use exactly_once.Stores.{Env}
use exactly_once.Stores.Effects.{Table, selected, won, overwritten}
use exactly_once.Stores.Sqlite.{sqlite}
use exactly_once.Stores.Sqlite.Laws.{claim_new}
use exactly_once.Sequence.{World, Outside, exec}
use exactly_once.Sequence.Steps.{won_call, executed_call, resolved_call}
use exactly_once.Sequence.Probes.{probing_lem}
use exactly_once.Sequence.Files.{
  claimed_effect, claim-present, commit-claimed_effect, lookup-inserted,
}
use exactly_once.Examples.{item_of, charge_key, charge_dict, served, launched}
use exactly_once.Examples.Crash.{
  StripeCall, StripeReply, counted, probed, charge, charge_by_key, stripe_reply, stripe_after,
  charge_stripe, charges_of, killed, agent_pays, prober, charge_card_body, crash_settings, charger,
  dying, without_exactly_once, with_exactly_once, first_attempt, second_attempt, crash_main,
}

module _ (py : Builtins) (str_of : Value → String) (codec : Codec Value) (env : ℕ → Env)
    (order id customer amount : Value) (id_is : item_of "id" order ≡ ok id)
    (customer_is : item_of "customer" order ≡ ok customer)
    (amount_is : item_of "amount" order ≡ ok amount) where
  abbrev stripe : Outside StripeReply
  stripe = served env (stripe_reply str_of)

  agent_pays_lem : agent_pays order ≡ Calls.extern (charge customer amount none)
  unfolding agent_pays
  agent_pays_lem = rw customer_is (rw amount_is refl)

  -- Without a guard the customer is charged twice.
  naive_lem : without_exactly_once py str_of codec env order ≡ ok 2
  unfolding without_exactly_once exec stripe_reply stripe_after charge_stripe
  naive_lem = ap (λ p. counted str_of (exec sqlite stripe (p >> p) (launched []))) agent_pays_lem

  abbrev order_key : String
  order_key = str_append "charge:" (str_of id)

  charger_lem :
      charger py str_of codec env order
      ≡ run null
          (crash_settings str_of codec).once
          (charge_card_body (order ∷ []) [])
          order_key
          none
  unfolding charger decorated wrapper key_of fp_of own_key resolve_key compute_fingerprint
      charge_key lookup
  charger_lem = rw id_is refl

  abbrev charged : Value
  charged = charge_dict str_of 1 customer amount

  -- The world after the first attempt: the row that it claimed, and the charge that it made.
  abbrev crashed : World StripeCall Table
  crashed = record {
    state = insert order_key (claimed_effect (env 0) none) [];
    current = none;
    calls = charge customer amount (some order_key) ∷ [];
    tick = 6;
  }

  module _ (b : Bytes) (encoded : codec.encode charged ≡ ok b) where
    first_lem : first_attempt py str_of codec env order ≡ (err killed, crashed)
    unfolding exec charge_card_body stripe_reply stripe_after charge_stripe lookup sqlite
    first_lem = rw charger_lem (
        won_call dying stripe null (crash_settings str_of codec).once
          (charge_card_body (order ∷ []) []) order_key none (launched [])
          (won order_key none (env 0).token none) crashed.state
          (claim_new (env 0) order_key none none [] refl) refl
        ∙ executed_call dying stripe (crash_settings str_of codec).once
            (charge_card_body (order ∷ []) []) order_key (some (env 0).token) charged b
            (record crashed { calls = []; tick = 1 })
            (record crashed { current = some order_key; tick = 4 }) refl
            (rw customer_is (rw amount_is refl)) encoded)

    -- The world after the second attempt, which asked Stripe for the charge and committed it.
    abbrev resumed : World StripeCall Table
    resumed = record {
      state =
          insert order_key (overwritten (env 8).now b (claimed_effect (env 0) none)) crashed.state;
      current = none;
      calls = charge_by_key order_key ∷ crashed.calls;
      tick = 9;
    }

    asked_lem : exec sqlite stripe (prober order_key) (record crashed { tick = 7 }) ≡ (
      ok (probed (some charged)),
      record crashed { calls = charge_by_key order_key ∷ crashed.calls; tick = 8 },
    )
    unfolding exec prober stripe_reply stripe_after charge_stripe lookup insert
    asked_lem = rw (eq_refl order_key) refl

    second_lem :
        codec.decode b ≡ ok charged
        → second_attempt py str_of codec env order ≡ (ok charged, resumed)
    unfolding exec resolve apply_probe settle follow decode
    second_lem decoded = rw first_lem (
        rw charger_lem (
          resolved_call sqlite stripe null (crash_settings str_of codec).once
            (charge_card_body (order ∷ []) []) order_key none crashed
            (selected order_key (claimed_effect (env 0) none)) crashed.state
            (claim-present (env 6) order_key none none (claimed_effect (env 0) none) crashed.state
              (lookup-inserted order_key (claimed_effect (env 0) none) []))
            refl refl
          ∙ probing_lem sqlite stripe prober codec order_key
              (selected order_key (claimed_effect (env 0) none))
              (follow null (crash_settings str_of codec).once (charge_card_body (order ∷ []) [])
                order_key none)
              (probed (some charged)) (record crashed { tick = 7 })
              (record crashed { calls = charge_by_key order_key ∷ crashed.calls; tick = 8 }) refl
              asked_lem
          ∙ rw (encoded, exec)
              (rw
                (
                  commit-claimed_effect (env 0) (env 8) order_key none b crashed.state
                      (lookup-inserted order_key (claimed_effect (env 0) none) []),
                  exec,
                )
                (rw (decoded, exec) refl))))

    -- The guarded payment ends with one charge.
    guarded_lem : codec.decode b ≡ ok charged → with_exactly_once py str_of codec env order ≡ ok 1
    unfolding with_exactly_once stripe_after charge_stripe lookup
    guarded_lem decoded = rw (first_lem, with_exactly_once) (rw (second_lem decoded) refl)

    -- For every order that has an id, a customer and an amount, over a new SQLite file: the first
    -- attempt dies in the commit and leaves one charge; the second returns that charge, it stays the
    -- only one, and what `main` asserts holds, two charges without the library and one with it, if
    -- the codec encodes the charge and gives it back.
    pub resumed_payment :
        codec.decode b ≡ ok charged
        → let (r, w) = first_attempt py str_of codec env order in
          let (r', w') = second_attempt py str_of codec env order in
          (r ≡ err killed)
          × (charges_of str_of w ≡ charged ∷ [])
          × (r' ≡ ok charged)
          × (charges_of str_of w' ≡ charged ∷ [])
          × (crash_main py str_of codec env order ≡ ok tt)
    unfolding crash_main stripe_after charge_stripe lookup
    resumed_payment decoded = rw (second_lem decoded) (
        rw first_lem
          (refl, refl, refl, refl, rw (naive_lem, crash_main) (rw (guarded_lem decoded) refl)))
