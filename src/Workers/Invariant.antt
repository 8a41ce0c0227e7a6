-- ===== src/Workers/Invariant.antt =====
-- What holds of the store, the programs under way and the counters after every step.
use exactly_once.Prelude.{
  ℕ, ◌+◌, ◌-◌, ◌≤◌, ◌≡◌, refl, ◌⊎◌, inl, inr, String, Bool, true, false, List, ◌∷◌, ◌++◌, ◌&&◌, not,
  arith, Bool-cases, eq_iff, str_eq, sym,
}
use mathlib.Core.Path.{subst}
use exactly_once.Errors.{Exception, ok, err, Result}
use exactly_once.Types.{State, ClaimResult, is_state}
use exactly_once.Program.{Op, Reply, Program, op}
use exactly_once.Stores.{Env, Store, Exclusive}
use exactly_once.Workers.{Rules, perform, gains, outage, credits, fires, releases, one_if, counted}
use exactly_once.Workers.System.{
  System, Step, Reach, Caller, call, acall, block, ablock, act, renew, crash, start, here, next,
  advance,
}
use exactly_once.Workers.Pool.{Affords, Pool, Pool-split, Pool-insert}
use exactly_once.Workers.Entries.{run-Spends, arun-Spends}
use exactly_once.Workers.Owners.{with_block-Spends, awith_block-Spends}

lost_le : (p p' : Bool) → 0 + one_if p ≤ one_if p' + one_if (p && not p')
lost_le p p' = ground arith

won_le : (p p' : Bool) → p ≡ false → p' ≡ true → 1 + one_if p ≤ one_if p' + one_if (p && not p')
won_le p p' a b = ground arith

not_lost : (p p' : Bool) → (p ≡ true → p' ≡ true) → one_if (p && not p') ≡ 0
not_lost true p' h = rw (h refl)
not_lost false p' h = refl

not_releasing : (a b : Bool) → a && not b ≡ false → b ≡ false → a ≡ false
not_releasing a b h e = ground arith

and_left : (a b : Bool) → a && b ≡ true → a ≡ true
and_left a b h = ground arith

and_right : (a b : Bool) → a && b ≡ true → b ≡ true
and_right a b h = ground arith

is_fresh : (s : State) → is_state s State.fresh ≡ true → s ≡ State.fresh
is_fresh s h = ground arith

counted_same : (b : Bool) (g n : ℕ) → g + counted b n ≤ g + counted b (n + 0)
counted_same b g n = ground arith

counted_add : (b c : Bool) (n : ℕ) → one_if (b && c) + counted b n ≤ counted b (n + one_if c)
counted_add b c n = ground arith

-- What an answer pays for is counted.
credits_lem :
    {C : Type 0} (R : C → Type 0) (k : String) (rules : Rules C) (o : Op C) (r : Reply R o) (n : ℕ)
    → credits k rules R o r + counted rules.may_open n
      ≤ gains k R o r + counted rules.may_open (n + outage k R o r)
credits_lem R k rules (Op.claim key fp ttl) (ok c) n =
    counted_same rules.may_open (gains k R (Op.claim key fp ttl) (ok c)) n
credits_lem R k rules (Op.claim key fp ttl) (err Exception.store_unavailable) n =
    ground (arith, counted_add rules.may_open (str_eq key k) n)
credits_lem R k rules (Op.claim key fp ttl) (err _) n = counted_same rules.may_open 0 n
credits_lem R k rules _ r n = counted_same rules.may_open 0 n

-- Where a record that is there stays, so does the bound on the claims.
claimed_keeps :
    (fresh removed : ℕ) (p p' : Bool)
    → fresh ≤ removed + one_if p
    → (p ≡ true → p' ≡ true)
    → fresh ≤ removed + one_if p'
claimed_keeps fresh removed true p' h keep = rw (keep refl) h
claimed_keeps fresh removed false p' h keep = omega arith

module _ {C : Type 0} (R : C → Type 0) {S : Type 0} (store : Store S) (present : S → String → Bool)
    (IsValid : S → Type 0) (exclusive : Exclusive present IsValid store) (k : String) where
  -- One call keeps the store valid, and loses the record of `k` only by a release of `k`.
  pub perform_keeps :
      (env : Env) (s : S) (o : Op C) (free : Reply R o)
      → IsValid s
      → IsValid (perform R store env s o free).1
        × (present s k ≡ true
            → (present (perform R store env s o free).1 k ≡ true) ⊎ (releases k o ≡ true))
  perform_keeps env s (Op.claim key fp ttl) free v =
      let (v', keep) = exclusive.claim_keeps env key fp ttl s v in (v', λ h. inl (keep k h))
  perform_keeps env s (Op.commit key b) free v =
      let (v', keep) = exclusive.commit_keeps env key b s v in (v', λ h. inl (keep k h))
  perform_keeps env s (Op.release key token) free v = (
    exclusive.release_valid env key token s v,
    λ h. elim (exclusive.release_keeps env key token s k v h) [
      | inl kept ↦ inl kept
      | inr same ↦ inr ((eq_iff key k).1 (sym same))
    ],
  )
  perform_keeps env s (Op.heartbeat key token ttl) free v =
      let (v', keep) = exclusive.heartbeat_keeps env key token ttl s v in (v', λ h. inl (keep k h))
  perform_keeps env s Op.now free v =
      let (v', keep) = exclusive.now_keeps env s v in (v', λ h. inl (keep k h))
  perform_keeps env s (Op.get key) free v =
      let (v', keep) = exclusive.get_keeps env key s v in (v', λ h. inl (keep k h))
  perform_keeps env s _ free v = (v, λ h. inl h)

  -- A claim is answered FRESH only where there was no record, and then there is one.
  account :
      (env : Env) (s : S) (o : Op C) (free : Reply R o)
      → IsValid s
      → let (r, s') = perform R store env s o free in
        gains k R o r + one_if (present s k)
        ≤ one_if (present s' k) + one_if (present s k && not (present s' k))
  account env s (Op.claim key fp ttl) free v = by_reply (store.claim env key fp ttl s).0 refl
    where
      by_reply :
          (r : Result ClaimResult)
          → (store.claim env key fp ttl s).0 ≡ r
          → gains k R (Op.claim key fp ttl) r + one_if (present s k)
            ≤ one_if (present (store.claim env key fp ttl s).1 k)
              + one_if (present s k && not (present (store.claim env key fp ttl s).1 k))
      by_reply (err e) h = lost_le _ _
      by_reply (ok c) h = elim (Bool-cases (str_eq key k && is_state c.state State.fresh)) [
        | inr other ↦ rw other (lost_le _ _)
        | inl wins ↦
            let same = (eq_iff key k).0 (and_left _ _ wins) in
            let w =
              exclusive.claim_wins env key fp ttl s c v h (is_fresh c.state (and_right _ _ wins)) in
            rw wins (
              won_le _ _ (subst (λ j. present s j ≡ false) same w.0)
                (subst (λ j. present (store.claim env key fp ttl s).1 j ≡ true) same w.1))
      ]
  account env s _ free v = lost_le _ _

  -- The record of `k` is lost only where the call was a release that the program may make.
  lost_only_by_release :
      (env : Env) (s : S) (o : Op C) (free : Reply R o)
      → IsValid s
      → releases k o ≡ false
      → let (r, s') = perform R store env s o free in one_if (present s k && not (present s' k)) ≡ 0
  lost_only_by_release env s o free v quiet =
      not_lost _ _
        (λ h. elim ((perform_keeps env s o free v).1 h) [ inl kept ↦ kept | inr released ↦ cc ])

  module _ {V : Type 0} (rules : Rules C) where
    -- `before` says whether the key had a record at the start.
    pub record Inv (before : Bool) (s : System R V store present k rules) : Type 0 where
      pub valid : IsValid s.state
      pub left : ℕ
      pub pool : Pool k rules left s.workers
      pub paid : s.fired + left ≤ s.fresh + counted rules.may_open s.outages
      pub claimed : s.fresh + one_if before ≤ s.removed + one_if (present s.state k)
      pub not_removed : rules.may_release ≡ false → s.removed ≡ 0

    Caller-Affords : {p : Program R V} → Caller R V store present k rules p → Affords k rules 0 p
    Caller-Affords (call nil self func key fp h allowed outside guarded) =
        run-Spends k rules nil self func key fp h allowed outside guarded
    Caller-Affords (acall nil self func key fp h allowed outside guarded) =
        arun-Spends k rules nil self func key fp h allowed outside guarded
    Caller-Affords (block nil self body key fp stack h allowed outside guarded) =
        with_block-Spends k rules nil self body key fp stack h allowed outside guarded
    Caller-Affords (ablock nil self body key fp stack h allowed outside guarded) =
        awith_block-Spends k rules nil self body key fp stack h allowed outside guarded

    act-Inv :
        {before : Bool} (s : System R V store present k rules) (pre post : List (Program R V))
        (o : Op C) (f : Reply R o → Program R V) (env : Env) (free : Reply R o)
        → s.workers ≡ pre ++ (op o f ∷ post)
        → Inv before s
        → Inv before (advance R V store present k rules s pre post o f env free)
    act-Inv {before} s pre post o f env free e inv =
        let (m, r, sp, rest, le) =
          Pool-split k rules inv.left pre (op o f) post
            (subst (λ ws. Pool k rules inv.left ws) e inv.pool) in
        let answer = (perform R store env s.state o free).0 in
        let acc = account env s.state o free inv.valid in
        record {
          valid = (perform_keeps env s.state o free inv.valid).0;
          left = (m - fires rules o + credits k rules R o answer) + r;
          pool = Pool-insert k rules _ r pre (f answer) post (sp.2 answer) rest;
          paid = omega (arith, sp.0, inv.paid, le, credits_lem R k rules o answer s.outages);
          claimed = omega (arith, acc, inv.claimed);
          not_removed = λ h. omega (
            arith,
            inv.not_removed h,
            lost_only_by_release env s.state o free inv.valid (not_releasing _ _ sp.1 h),
          );
        }

    Step-Inv :
        {before : Bool} {s t : System R V store present k rules}
        → Step R V store present k rules s t
        → Inv before s
        → Inv before t
    Step-Inv {before} {s} (act pre post o f env free e e') inv =
        subst (Inv before) (sym e') (act-Inv s pre post o f env free e inv)
    Step-Inv {before} {s} (renew env key token ttl e') inv =
        let (v, keep) = exclusive.heartbeat_keeps env key token ttl s.state inv.valid in
        subst (Inv before) (sym e') (record {
          valid = v;
          left = inv.left;
          pool = inv.pool;
          paid = inv.paid;
          claimed = claimed_keeps (s.fresh + one_if before) s.removed _ _ inv.claimed (keep k);
          not_removed = inv.not_removed;
        })
    Step-Inv {before} {s} (crash pre post p e e') inv =
        let (m, r, sp, rest, le) =
          Pool-split k rules inv.left pre p post
            (subst (λ ws. Pool k rules inv.left ws) e inv.pool) in
        subst (Inv before) (sym e') (record {
          valid = inv.valid;
          left = r;
          pool = rest;
          paid = omega (arith, inv.paid, le);
          claimed = inv.claimed;
          not_removed = inv.not_removed;
        })
    Step-Inv {before} {s} (start p caller e') inv = subst (Inv before) (sym e') (record {
      valid = inv.valid;
      left = inv.left;
      pool = (0, inv.left, Caller-Affords caller, inv.pool, omega arith);
      paid = inv.paid;
      claimed = inv.claimed;
      not_removed = inv.not_removed;
    })

    pub Reach-Inv :
        {state : S} {s : System R V store present k rules}
        → IsValid state
        → Reach R V store present k rules state s
        → Inv (present state k) s
    Reach-Inv {state} v here = record {
      valid = v;
      left = 0;
      pool = tt;
      paid = omega arith;
      claimed = omega arith;
      not_removed = λ h. refl;
    }
    Reach-Inv v (next r step) = Step-Inv step (Reach-Inv v r)
