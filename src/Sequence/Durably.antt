-- ===== src/Sequence/Durably.antt =====
-- Two calls of a decorated function over any store that is exclusive and durable, with other callers
-- between them.
use exactly_once.Prelude.{
  ◌+◌, ◌≡◌, ◌≢◌, refl, ap, ◌∙◌, sym, String, Bool, false, Option, none, some, Bytes, [],
}
use mathlib.Core.Path.{subst}
use exactly_once.Errors.{Result, ok, err, ok-inj, ◌>>=◌ as continue_with}
use exactly_once.Types.{State, ClaimResult}
use exactly_once.Program.{Program, ◌>>=◌}
use exactly_once.Stores.{Store, Exclusive, Durable}
use exactly_once.Core.{Once, differs, decode, check_fingerprint, recover}
use exactly_once.Core.Run.{run, execute_and_commit, after_claim}
use exactly_once.Sequence.{World, Outside, exec}
use exactly_once.Sequence.Calls.{Finished, Encoded, execute-Finished}
use exactly_once.Sequence.Replay.{run_lem}
use exactly_once.Workers.Spends.{IsExternal}
use exactly_once.Workers.{Rules}
use exactly_once.Workers.System.{System, Later}
use exactly_once.Workers.Permanence.{Later-Committed}

module _ {C : Type 0} {R : C → Type 0} {S V : Type 0} (store : Store S) (outside : Outside R) where
  -- The world after the claim of a call.
  abbrev claimed_world : Once R V → String → Option String → World C S → World C S
  claimed_world self key fp w = record w {
    state = (store.claim (outside.env w.tick) key fp self.lease_ttl w.state).1;
    tick = w.tick + 1;
  }

  fresh_lem :
      (nil : V) (self : Once R V) (func : Program R V) (key : String) (fp : Option String)
      (w : World C S) (c : ClaimResult)
      → (store.claim (outside.env w.tick) key fp self.lease_ttl w.state).0 ≡ ok c
      → c.state ≡ State.fresh
      → exec store outside (run nil self func key fp) w
        ≡ exec store outside
            (execute_and_commit self func key c.token)
            (claimed_world self key fp w)
  unfolding check_fingerprint
  fresh_lem nil self func key fp w c e fresh =
      run_lem store outside nil self func key fp w
      ∙ ap
          (λ r.
            exec store outside (recover self r >>= after_claim nil self func key fp)
              (claimed_world self key fp w))
          e
      ∙ rw (fresh, check_fingerprint) refl

  replay_lem :
      (nil : V) (self : Once R V) (func : Program R V) (key : String) (fp : Option String)
      (w : World C S) (c : ClaimResult) (b : Bytes) (v : V)
      → (store.claim (outside.env w.tick) key fp self.lease_ttl w.state).0 ≡ ok c
      → c.state ≡ State.committed
      → c.result ≡ some b
      → differs c.fingerprint fp ≡ false
      → self.codec.decode b ≡ ok v
      → exec store outside (run nil self func key fp) w ≡ (ok v, claimed_world self key fp w)
  unfolding check_fingerprint decode exec
  replay_lem nil self func key fp w c b v e committed result same back =
      run_lem store outside nil self func key fp w
      ∙ ap
          (λ r.
            exec store outside (recover self r >>= after_claim nil self func key fp)
              (claimed_world self key fp w))
          e
      ∙ rw (committed, check_fingerprint) (rw same (rw (result, decode) (rw back refl)))

answered :
    {V : Type 0} (q : Result (Unit {0})) (u v : V)
    → continue_with q (λ _. ok u) ≡ ok v
    → (q ≡ ok tt) × (u ≡ v)
answered (ok tt) u v e = (refl, ok-inj e)
answered (err x) u v e = absurd (cc)

module _ {C : Type 0} {R : C → Type 0} {S V : Type 0} {store : Store S} (outside : Outside R)
    {present : S → String → Bool} {IsValid : S → Type 0} {result_at : S → String → Option Bytes}
    (exclusive : Exclusive present IsValid store) (durable : Durable result_at IsValid store) where
  -- The result of a call is committed, and the store is valid.
  abbrev Settled : Once R V → String → V → S → Type 0
  Settled self key v s =
      (b : Bytes) × (self.codec.encode v ≡ ok b) × IsValid s × (result_at s key ≡ some b)

  Finished-Settled :
      (self : Once R V) (key : String) (s : S) (outcome r : Result V) (w : World C S) (v : V)
      → IsValid s
      → result_at s key ≡ none
      → Finished store outside s self key outcome (r, w)
      → r ≡ ok v
      → Settled self key v w.state
  Finished-Settled self key s (err e) r w v valid empty h returned = absurd (let q = h.0 in cc)
  Finished-Settled self key s (ok u) r w v valid empty h returned =
      by_encoding (self.codec.encode u) refl h
    where
      by_encoding :
          (enc : Result Bytes)
          → self.codec.encode u ≡ enc
          → Encoded store outside s key u enc (r, w)
          → Settled self key v w.state
      by_encoding (err e) q h' = absurd (let p = h'.0 in cc)
      by_encoding (ok b) q (env, st, re) =
          let (commits, same) = answered (store.commit env key b s).0 u v (sym re ∙ returned) in
          (
            b,
            ap self.codec.encode (sym same) ∙ q,
            subst IsValid (sym st) (exclusive.commit_keeps env key b s valid).0,
            ap (λ x. result_at x key) st ∙ durable.commit_sets env key b s valid commits empty,
          )

  first-Settled :
      (nil : V) (self : Once R V) (func : Program R V) (key : String) (fp : Option String)
      (w : World C S) (c : ClaimResult) (v : V)
      → IsExternal func
      → IsValid w.state
      → (store.claim (outside.env w.tick) key fp self.lease_ttl w.state).0 ≡ ok c
      → c.state ≡ State.fresh
      → (exec store outside (run nil self func key fp) w).0 ≡ ok v
      → Settled self key v (exec store outside (run nil self func key fp) w).1.state
  first-Settled nil self func key fp w c v h valid e fresh returned =
      let env = outside.env w.tick in
      let w₀ = claimed_world store outside self key fp w in
      let (w₁, entered, finished, _, _) =
        execute-Finished store outside self func key c.token w₀ h in
      let run_is = fresh_lem store outside nil self func key fp w c e fresh in
      subst (λ out. Settled self key v out.1.state) (sym run_is)
        (Finished-Settled self key w₀.state (exec store outside func w₁).0 _ _ v
          (exclusive.claim_keeps env key fp self.lease_ttl w.state valid).0
          (durable.claim_opens env key fp self.lease_ttl w.state c valid e fresh) finished
          (sym (ap (λ out. out.0) run_is) ∙ returned))

  -- Over any store that is exclusive and durable: once a call whose claim was answered FRESH has
  -- returned `v`, a call of the key in any later world, after whatever other callers, renewals and
  -- crashes have done to the store meanwhile, returns `v` with no call of the caller's code, if its
  -- claim answers with a fingerprint that does not differ and `v` is decoded from its encoding, which
  -- is not empty.
  pub durable_call_replays :
      {k : String} {rules : Rules C} {s t : System R V store present k rules} (nil : V)
      (self self' : Once R V) (func func' : Program R V) (key : String) (fp fp' : Option String)
      (w w'' : World C S) (c c' : ClaimResult) (v : V)
      → IsExternal func
      → IsValid w.state
      → (store.claim (outside.env w.tick) key fp self.lease_ttl w.state).0 ≡ ok c
      → c.state ≡ State.fresh
      → (exec store outside (run nil self func key fp) w).0 ≡ ok v
      → (exec store outside (run nil self func key fp) w).1.state ≡ s.state
      → Later R V store present k rules s t
      → t.state ≡ w''.state
      → (store.claim (outside.env w''.tick) key fp' self'.lease_ttl w''.state).0 ≡ ok c'
      → differs c'.fingerprint fp' ≡ false
      → ((b : Bytes) → self.codec.encode v ≡ ok b → (b ≢ []) × (self'.codec.decode b ≡ ok v))
      → let (r, w₃) = exec store outside (run nil self' func' key fp') w'' in
        (r ≡ ok v) × (w₃.calls ≡ w''.calls)
  durable_call_replays nil self self' func func' key fp fp' w w'' c c' v h valid e fresh returned
        starts later ends e' same back =
      let (b, enc, valid', there) =
        first-Settled nil self func key fp w c v h valid e fresh returned in
      let (full, decoded) = back b enc in
      let (valid'', there'') =
        Later-Committed exclusive durable _ _ key b later
          (subst IsValid starts valid', ap (λ x. result_at x key) (sym starts) ∙ there) in
      let (committed, result) =
        durable.claim_replays (outside.env w''.tick) key fp' self'.lease_ttl w''.state b c'
          (subst IsValid ends valid'') (ap (λ x. result_at x key) (sym ends) ∙ there'') e' in
      let replayed =
        replay_lem store outside nil self' func' key fp' w'' c' b v e' committed (result full) same
          decoded in
      (ap (λ out. out.0) replayed, ap (λ out. out.1.calls) replayed)
