-- ===== src/Workers/Claims.antt =====
-- What the four forms of `once` in src/exactly_once/core.py have in common: a claim, a policy where the
-- key is in flight, and one more claim where the policy answers RUN. The parts of a form in which they
-- differ are parameters here.
use exactly_once.Prelude.{
  ℕ, ◌-◌, ◌+◌, ◌≤◌, ◌≡◌, refl, String, Bool, true, false, ◌&&◌, not, Option, none, some, Bytes,
  arith, Option-cases, inl, inr, str_eq,
}
use mathlib.Core.Path.{subst}
use exactly_once.Errors.{Exception, Result, ok, err, quarantined}
use exactly_once.Types.{State, ClaimResult, is_state}
use exactly_once.Policies.{Action, Directive}
use exactly_once.Program.{Op, Program, raise, attempt, ◌>>=◌, ◌>>◌}
use exactly_once.Core.{
  Once, store_claim, astore_claim, claim_or_open, aclaim_or_open, check_fingerprint, recover,
  handle_store_down, OnStoreDown, differs,
}
use exactly_once.Workers.{Rules, credits, one_if}
use exactly_once.Workers.Quiet.{IsGuarded}
use exactly_once.Workers.Spends.{Held, Spends, Spends-attempt, Spends-bind, IsQuiet, IsQuiet-Spends}

-- A claim that is answered FRESH pays for one effect under its key, and so does one that finds the
-- store down, where callers may run on.
abbrev pub Paid : {C : Type 0} → Rules C → String → String → ℕ → Result ClaimResult → Type 0
Paid rules k key n (ok c) = c.state ≡ State.fresh → one_if (str_eq key k) ≤ n
Paid rules k key n (err Exception.store_unavailable) =
    rules.may_open ≡ true → one_if (str_eq key k) ≤ n
Paid rules k key n (err _) = Unit

-- The same for what `claim_or_open` gives.
abbrev pub Opened :
    {C : Type 0} → Rules C → String → String → ℕ → Result (Option ClaimResult) → Type 0
Opened rules k key n (ok (some c)) = Paid rules k key n (ok c)
Opened rules k key n (ok none) = one_if (str_eq key k) ≤ n
Opened rules k key n (err e) = Unit

claim-Paid :
    {C : Type 0} (R : C → Type 0) (rules : Rules C) (k : String) (n : ℕ) (key : String)
    (fp : Option String) (ttl : Option ℕ) (r : Result ClaimResult)
    → Paid rules k key (n - 0 + credits k rules R (Op.claim key fp ttl) r) r
claim-Paid R rules k n key fp ttl (ok c) = λ e. rw e (ground arith)
claim-Paid R rules k n key fp ttl (err Exception.store_unavailable) = λ e. rw e (ground arith)
claim-Paid R rules k n key fp ttl (err _) = tt

module _ {C : Type 0} {R : C → Type 0} {V : Type 0} (k : String) (rules : Rules C) where
  pub store_claim-Spends :
      (n : ℕ) (self : Once R V) (key : String) (fp : Option String)
      → Spends k rules n (store_claim self key fp) (Paid rules k key)
  unfolding store_claim
  store_claim-Spends n self key fp = elim (Option-cases self.lease_ttl) [
    | inl e ↦ rw (e, store_claim) (omega arith, refl, claim-Paid R rules k n key fp none)
    | inr (ttl, e) ↦
        rw (e, store_claim) (omega arith, refl, claim-Paid R rules k n key fp (some ttl))
  ]

  recover-Spends :
      (n : ℕ) (self : Once R V) (key : String) (r : Result ClaimResult)
      → IsGuarded rules self.on_store_down
      → Paid rules k key n r
      → Spends k rules n (recover self r) (Opened rules k key)
  unfolding handle_store_down
  recover-Spends n self key (ok c) guarded p = p
  recover-Spends n self key (err Exception.store_unavailable) guarded p =
      by_setting self.on_store_down refl
    where
      by_setting :
          (o : OnStoreDown)
          → self.on_store_down ≡ o
          → Spends k rules n (recover self (err Exception.store_unavailable)) (Opened rules k key)
      by_setting OnStoreDown.fail e = rw (e, handle_store_down) tt
      by_setting OnStoreDown.open_ e =
          rw (e, handle_store_down) (p (subst (IsGuarded rules) e guarded))
  recover-Spends n self key (err _) guarded p = tt

  pub claim_or_open-Spends :
      (n : ℕ) (self : Once R V) (key : String) (fp : Option String)
      → IsGuarded rules self.on_store_down
      → Spends k rules n (claim_or_open self key fp) (Opened rules k key)
  unfolding claim_or_open
  claim_or_open-Spends n self key fp guarded =
      Spends-bind k rules n (attempt (store_claim self key fp)) _ (Held (Paid rules k key)) _
        (Spends-attempt k rules n (store_claim self key fp) (Paid rules k key)
          (store_claim-Spends n self key fp))
        (λ n' r p. recover-Spends n' self key r guarded p) (λ n' e p. absurd p)

  -- The asynchronous claims are the same programs.
  pub astore_claim-Spends :
      (n : ℕ) (self : Once R V) (key : String) (fp : Option String)
      → Spends k rules n (astore_claim self key fp) (Paid rules k key)
  unfolding astore_claim store_claim
  astore_claim-Spends n self key fp = store_claim-Spends n self key fp

  pub aclaim_or_open-Spends :
      (n : ℕ) (self : Once R V) (key : String) (fp : Option String)
      → IsGuarded rules self.on_store_down
      → Spends k rules n (aclaim_or_open self key fp) (Opened rules k key)
  unfolding aclaim_or_open astore_claim claim_or_open store_claim
  aclaim_or_open-Spends n self key fp guarded = claim_or_open-Spends n self key fp guarded

-- A form: how it claims and resolves, and what it does with a claim that was answered FRESH, with a
-- result, with a sentinel, and where the store is down.
module _ {C : Type 0} {R : C → Type 0} {V A : Type 0} (key : String) (fp : Option String)
    (opening : Program R (Option ClaimResult)) (claiming : Program R ClaimResult)
    (resolving : ClaimResult → Program R (Directive V)) (fresh : Option String → Program R A)
    (replay : Option Bytes → Program R A) (sentinel : Option V → Program R A)
    (unguarded : Program R A) where
  abbrev reclaiming : Program R A
  reclaiming = do
    claim ← claiming
    elim claim.state [
      | State.fresh ↦ fresh claim.token
      | State.committed ↦ replay claim.result
      | State.in_flight ↦ raise (quarantined key)
    ]

  abbrev following : Directive V → Program R A
  following directive = elim directive.action [
    | Action.replay ↦ replay directive.result
    | Action.quarantine ↦ sentinel directive.sentinel
    | Action.run ↦ reclaiming
  ]

  abbrev answering : State → ClaimResult → Program R A
  answering State.fresh claim = fresh claim.token
  answering State.committed claim = replay claim.result
  answering State.in_flight claim = do directive ← resolving claim; following directive

  abbrev opened : Option ClaimResult → Program R A
  opened none = unguarded
  opened (some claim) = do check_fingerprint claim fp; answering claim.state claim

  abbrev pub form : Program R A
  form = do claim ← opening; opened claim

  module _ (k : String) (rules : Rules C) (Q : ℕ → Result A → Type 0)
      (raises : (n : ℕ) (e : Exception) → Q n (err e))
      (fresh-Spends : (n : ℕ) (token : Option String)
        → one_if (str_eq key k) ≤ n
        → Spends k rules n (fresh token) Q)
      (replay-Spends : (n : ℕ) (raw : Option Bytes) → Spends k rules n (replay raw) Q)
      (sentinel-Spends : (n : ℕ) (o : Option V) → Spends k rules n (sentinel o) Q)
      (unguarded-Spends : (n : ℕ) → one_if (str_eq key k) ≤ n → Spends k rules n unguarded Q)
      (opening-Spends : (n : ℕ) → Spends k rules n opening (Opened rules k key))
      (claiming-Spends : (n : ℕ) → Spends k rules n claiming (Paid rules k key))
      (resolving-IsQuiet : (c : ClaimResult) → IsQuiet k rules (resolving c)) where
    reclaiming-Spends : (n : ℕ) → Spends k rules n reclaiming Q
    reclaiming-Spends n =
        Spends-bind k rules n claiming _ (Paid rules k key) Q (claiming-Spends n)
          (λ n' c paid. by_state n' c paid c.state refl) (λ n' e p. raises n' e)
      where
        by_state :
            (n' : ℕ) (c : ClaimResult)
            → Paid rules k key n' (ok c)
            → (s : State) → c.state ≡ s
            → Spends k rules n'
                (elim c.state [
                  | State.fresh ↦ fresh c.token
                  | State.committed ↦ replay c.result
                  | State.in_flight ↦ raise (quarantined key)
                ])
                Q
        by_state n' c paid State.fresh e = rw e (fresh-Spends n' c.token (paid e))
        by_state n' c paid State.in_flight e = rw e (raises n' (quarantined key))
        by_state n' c paid State.committed e = rw e (replay-Spends n' c.result)

    following-Spends : (n : ℕ) (directive : Directive V) → Spends k rules n (following directive) Q
    following-Spends n directive = by_action directive.action refl
      where
        by_action : (a : Action) → directive.action ≡ a → Spends k rules n (following directive) Q
        by_action Action.quarantine e = rw e (sentinel-Spends n directive.sentinel)
        by_action Action.run e = rw e (reclaiming-Spends n)
        by_action Action.replay e = rw e (replay-Spends n directive.result)

    answering-Spends :
        (n : ℕ) (c : ClaimResult)
        → Paid rules k key n (ok c)
        → Spends k rules n (answering c.state c) Q
    answering-Spends n c paid = by_state c.state refl
      where
        by_state : (s : State) → c.state ≡ s → Spends k rules n (answering s c) Q
        by_state State.fresh e = fresh-Spends n c.token (paid e)
        by_state State.committed e = replay-Spends n c.result
        by_state State.in_flight e =
            Spends-bind k rules n (resolving c) _ (λ n' _. 0 ≤ n') Q
              (IsQuiet-Spends k rules n (resolving c) 0 (omega arith) (resolving-IsQuiet c))
              (λ n' d p. following-Spends n' d) (λ n' e p. raises n' e)

    opened-Spends :
        (n : ℕ) (o : Option ClaimResult)
        → Opened rules k key n (ok o)
        → Spends k rules n (opened o) Q
    unfolding check_fingerprint
    opened-Spends n none p = unguarded-Spends n p
    opened-Spends n (some c) p =
        by_test (not (is_state c.state State.fresh) && differs c.fingerprint fp) refl
      where
        by_test :
            (b : Bool)
            → (not (is_state c.state State.fresh) && differs c.fingerprint fp) ≡ b
            → Spends k rules n (opened (some c)) Q
        by_test true e = rw (e, check_fingerprint) (raises n _)
        by_test false e = rw (e, check_fingerprint) (answering-Spends n c p)

    -- A form spends what its claims pay, if its part for a FRESH claim spends what that claim pays.
    pub form-Spends : Spends k rules 0 form Q
    form-Spends =
        Spends-bind k rules 0 opening _ (Opened rules k key) Q (opening-Spends 0)
          (λ n o p. opened-Spends n o p) (λ n e p. raises n e)
