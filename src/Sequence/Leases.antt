-- ===== src/Sequence/Leases.antt =====
-- A call that finds its key in flight with a lease, over the memory store: the policies that adopt a
-- key, `auto_retry` and `check_then_decide` of src/exactly_once/policies.py.
use exactly_once.Prelude.{
  ◌+◌, ◌∙◌, ap, ◌≤◌, ◌<◌, ◌≡◌, refl, ℕ, String, true, false, Option, none, some, ltb, arith,
  eq_refl, inl, inr, Option-cases,
}
use exactly_once.Errors.{ok, err, quarantined}
use exactly_once.Types.{State, ClaimRecord, ClaimResult}
use exactly_once.Codec.{Codec}
use exactly_once.Dict.{lookup, insert, remove, lookup-remove}
use exactly_once.Policies.{Policy, run_again}
use exactly_once.Policies.Resolve.{resolve}
use exactly_once.Program.{Program, done, pure, ◌>>=◌, ◌>>◌}
use exactly_once.Program.Calls
use exactly_once.Stores.{Env}
use exactly_once.Stores.Memory
use exactly_once.Stores.Memory.{MemoryStore, memory, claimed_row}
use exactly_once.Core.{Once, differs, check_fingerprint, store_claim}
use exactly_once.Core.Run.{run, follow, reclaim, execute_and_commit}
use exactly_once.Sequence.{World, Outside, exec}
use exactly_once.Sequence.Laws.{exec-bind}
use exactly_once.Sequence.Replay.{run_lem, claim_lem}

before : (a b : ℕ) → a < b → ltb a b ≡ true
before a b h = ground arith

after : (a b : ℕ) → b ≤ a → ltb a b ≡ false
after a b h = ground arith

pub release_own :
    (env : Env) (key : String) (s : MemoryStore) (row : ClaimRecord)
    → lookup key s ≡ some row
    → row.state ≡ State.in_flight
    → Memory.release env key row.token s ≡ (ok tt, remove key s)
unfolding Memory.release
release_own env key s row e fl = elim (Option-cases row.token) [
  | inl t ↦ rw (e, Memory.release) (rw (fl, t) refl)
  | inr (token, t) ↦ rw (e, Memory.release) (rw (fl, t) (rw (eq_refl) refl))
]

pub gone : (key : String) (s : MemoryStore) → lookup key (remove key s) ≡ none
gone key s = rw (lookup-remove key key s, eq_refl) refl

module _ {C : Type 0} {R : C → Type 0} (outside : Outside R) where
  pub released_lem :
      {A B : Type 0} (key : String) (token : Option String) (d : A) (f : A → Program R B)
      (s : MemoryStore) (w : World C MemoryStore)
      → memory.release (outside.env w.tick) key token w.state ≡ (ok tt, s)
      → exec memory outside (Calls.release key token >> pure d >>= f) w
        ≡ exec memory outside (f d) (record w { state = s; tick = w.tick + 1 })
  unfolding exec
  released_lem key token d f s w e =
      ap
        (λ out.
          exec memory outside (done out.0 >> pure d >>= f)
            (record w { state = out.1; tick = w.tick + 1 }))
        e

module _ {C : Type 0} {R : C → Type 0} {V : Type 0} (outside : Outside R) where
  -- The policies that may adopt a key.
  abbrev pub Adopts : Policy R V → Type 0
  Adopts Policy.auto_retry = Unit {0}
  Adopts (Policy.check_then_decide _) = Unit {0}
  Adopts _ = ⊥

  wait_for_owner :
      (policy : Policy R V) (codec : Codec V) (key : String) (c : ClaimResult) (expires : ℕ)
      (nil : V) (self : Once R V) (func : Program R V) (fp : Option String)
      (w : World C MemoryStore)
      → Adopts policy
      → c.lease_expires_at ≡ some expires
      → (outside.env w.tick).now < expires
      → exec memory outside (resolve policy codec key c >>= follow nil self func key fp) w
        ≡ (err (quarantined key), record w { tick = w.tick + 1 })
  unfolding resolve follow exec memory Memory.now
  wait_for_owner (Policy.quarantine _) codec key c expires nil self func fp w p e h = absurd p
  wait_for_owner Policy.fail codec key c expires nil self func fp w p e h = absurd p
  wait_for_owner Policy.auto_retry codec key c expires nil self func fp w p e h =
      rw (e, exec) (rw (before (outside.env w.tick).now expires h, exec) refl)
  wait_for_owner (Policy.check_then_decide _) codec key c expires nil self func fp w p e h =
      rw (e, exec) (rw (before (outside.env w.tick).now expires h, exec) refl)
  wait_for_owner (Policy.wait _ _) codec key c expires nil self func fp w p e h = absurd p

  -- While the lease of a key in flight has not run out by the store's clock, a call under
  -- `auto_retry` or `check_then_decide` with an equal or absent fingerprint raises QuarantinedError:
  -- it does not adopt the key, makes no call of the caller's code, and leaves the store alone.
  pub live_lease_refused :
      (nil : V) (self : Once R V) (func : Program R V) (key : String) (fp : Option String)
      (w : World C MemoryStore) (row : ClaimRecord) (expires : ℕ)
      → Adopts self.policy
      → lookup key w.state ≡ some row
      → row.state ≡ State.in_flight
      → row.lease_expires_at ≡ some expires
      → (outside.env (w.tick + 1)).now < expires
      → differs row.fingerprint fp ≡ false
      → exec memory outside (run nil self func key fp) w
        ≡ (err (quarantined key), record w { tick = w.tick + 1 + 1 })
  unfolding memory Memory.claim check_fingerprint
  live_lease_refused nil self func key fp w row expires p e fl lease h d =
      rw (run_lem memory outside nil self func key fp w) (
        rw (e, Memory.claim)
          (rw (fl, check_fingerprint)
            (rw d (
              wait_for_owner self.policy self.codec key _ expires nil self func fp
                (record w { tick = w.tick + 1 }) p lease h))))

  pub reclaim_absent :
      (nil : V) (self : Once R V) (func : Program R V) (key : String) (fp : Option String)
      (w : World C MemoryStore)
      → lookup key w.state ≡ none
      → let env = outside.env w.tick in
        exec memory outside (reclaim nil self func key fp) w
        ≡ exec memory outside (execute_and_commit self func key (some env.token)) (record w {
          state = insert key (claimed_row env key fp self.lease_ttl) w.state;
          tick = w.tick + 1;
        })
  unfolding reclaim memory Memory.claim
  reclaim_absent nil self func key fp w e =
      rw
        (
          exec-bind memory outside (store_claim self key fp) _ w,
          claim_lem memory outside self key fp w,
        )
        (rw (e, Memory.claim) refl)

  adopt :
      (policy : Policy R V) (codec : Codec V) (key : String) (c : ClaimResult) (expires : ℕ)
      (row : ClaimRecord) (nil : V) (self : Once R V) (func : Program R V) (fp : Option String)
      (w : World C MemoryStore)
      → policy ≡ Policy.auto_retry
      → c.lease_expires_at ≡ some expires
      → expires ≤ (outside.env w.tick).now
      → lookup key w.state ≡ some row
      → row.state ≡ State.in_flight
      → c.token ≡ row.token
      → exec memory outside (resolve policy codec key c >>= follow nil self func key fp) w
        ≡ exec memory outside
            (reclaim nil self func key fp)
            (record w { state = remove key w.state; tick = w.tick + 1 + 1 })
  unfolding resolve exec memory Memory.now follow
  adopt policy codec key c expires row nil self func fp w p lease h e fl t = rw p (
      rw (lease, exec)
        (rw (after (outside.env w.tick).now expires h, exec)
          (released_lem outside key c.token run_again (follow nil self func key fp)
            (remove key w.state) (record w { tick = w.tick + 1 })
            (ap (λ token. memory.release (outside.env (w.tick + 1)) key token w.state) t
              ∙ release_own (outside.env (w.tick + 1)) key w.state row e fl))))

  -- Once the lease of a key in flight has run out by the store's clock, a call under `auto_retry`
  -- with an equal or absent fingerprint drops the record, claims the key anew with its own
  -- fingerprint and lease, and executes.
  pub lapsed_lease_adopted :
      (nil : V) (self : Once R V) (func : Program R V) (key : String) (fp : Option String)
      (w : World C MemoryStore) (row : ClaimRecord) (expires : ℕ)
      → self.policy ≡ Policy.auto_retry
      → lookup key w.state ≡ some row
      → row.state ≡ State.in_flight
      → row.lease_expires_at ≡ some expires
      → expires ≤ (outside.env (w.tick + 1)).now
      → differs row.fingerprint fp ≡ false
      → let env = outside.env (w.tick + 1 + 1 + 1) in
        exec memory outside (run nil self func key fp) w
        ≡ exec memory outside (execute_and_commit self func key (some env.token)) (record w {
          state = insert key (claimed_row env key fp self.lease_ttl) (remove key w.state);
          tick = w.tick + 1 + 1 + 1 + 1;
        })
  unfolding memory Memory.claim check_fingerprint
  lapsed_lease_adopted nil self func key fp w row expires p e fl lease h d =
      let w₁ : World C MemoryStore = record w { tick = w.tick + 1 } in
      rw (run_lem memory outside nil self func key fp w) (
        rw (e, Memory.claim)
          (rw (fl, check_fingerprint)
            (rw d (
              adopt self.policy self.codec key _ expires row nil self func fp w₁ p lease h e fl refl
              ∙ reclaim_absent nil self func key fp
                  (record w { state = remove key w.state; tick = w.tick + 1 + 1 + 1 })
                  (gone key w.state)))))
