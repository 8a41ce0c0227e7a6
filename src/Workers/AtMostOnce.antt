-- ===== src/Workers/AtMostOnce.antt =====
-- The guarantee of the library over every interleaving of callers, heartbeats and crashes.
use exactly_once.Prelude.{◌+◌, ◌≤◌, refl, String, Bool, true, false, arith}
use exactly_once.Stores.{Store, Exclusive}
use exactly_once.Workers.{one_if, counted}
use exactly_once.Workers.System.{System, Reach}
use exactly_once.Workers.Invariant.{Reach-Inv}

one_if-le : (b : Bool) → one_if b ≤ 1
one_if-le b = ground arith

module _ {C : Type 0} {R : C → Type 0} {V S : Type 0} {store : Store S}
    {present : S → String → Bool} {IsValid : S → Type 0}
    (exclusive : Exclusive present IsValid store) (k : String) where
  -- From any valid store, after any interleaving of the calls of any callers of the decorator and of
  -- blocks, synchronous and asynchronous, of renewals and of crashes, whatever the policies: the
  -- effect of a key is done at most once more than calls took the key's record away and claims of it
  -- found the store down, and once less if the key had a record at the start. A caller's function does
  -- the effect once at most in a run, the body of a block only where its guard is fresh, a prober
  -- never.
  pub fires-le-removed :
      {is_effect : C → Bool} {state : S}
      {s : System R V store present k
        (record { may_release = true; may_open = true; is_effect = is_effect })}
      → IsValid state
      → Reach R V store present k _ state s
      → s.fired + one_if (present state k) ≤ s.removed + 1 + s.outages
  fires-le-removed {s = s} v r =
      let inv = Reach-Inv R store present IsValid exclusive k _ v r in
      omega (arith, inv.paid, inv.claimed, one_if-le (present s.state k))

  -- Where no caller's policy releases records (`quarantine`, `fail`, `wait`), at most one claim of
  -- a key is answered FRESH, and none if the key had a record at the start; and the effect is done at
  -- most as often as a claim was answered FRESH, and once more for each claim that found the store
  -- down, if callers may run on (`on_store_down="open"`), else never more. The callers are those
  -- above.
  pub fires_at_most_once :
      {is_effect : C → Bool} (may_open : Bool) {state : S}
      {s : System R V store present k
        (record { may_release = false; may_open = may_open; is_effect = is_effect })}
      → IsValid state
      → Reach R V store present k _ state s
      → (s.fired ≤ s.fresh + counted may_open s.outages) × (s.fresh + one_if (present state k) ≤ 1)
  fires_at_most_once may_open {s = s} v r =
      let inv = Reach-Inv R store present IsValid exclusive k _ v r in
      (
        omega (arith, inv.paid),
        omega (arith, inv.claimed, inv.not_removed refl, one_if-le (present s.state k)),
      )
