-- ===== src/Sequence/Replay.antt =====
-- `_run` of src/exactly_once/core.py over the memory store, by what the store holds for the key.
use exactly_once.Prelude.{
  ◌+◌, ◌≡◌, refl, ◌≢◌, ap, ◌∙◌, sym, String, true, false, Option, none, some, inl, inr,
  Option-cases,
}
use exactly_once.Errors.{ok, err, key_reuse, quarantined}
use exactly_once.Types.{State, ClaimResult, ClaimRecord, is_state}
use exactly_once.Dict.{lookup, insert}
use exactly_once.Program.{Program, attempt, ◌>>=◌}
use exactly_once.Codec.{Codec}
use exactly_once.Policies.{Policy}
use exactly_once.Policies.Resolve.{resolve}
use exactly_once.Stores.{Store}
use exactly_once.Stores.Memory
use exactly_once.Stores.Memory.{MemoryStore, memory, claimed_row, observed}
use exactly_once.Core.{
  Once, decode, differs, store_claim, claim_or_open, recover, check_fingerprint,
}
use exactly_once.Core.Run.{run, follow, after_claim, execute_and_commit}
use exactly_once.Sequence.{World, Outside, exec}
use exactly_once.Sequence.Laws.{continue, exec-bind, exec-attempt}

module _ {C : Type 0} {R : C → Type 0} {S V : Type 0} (store : Store S) (outside : Outside R) where
  pub claim_lem :
      (self : Once R V) (key : String) (fp : Option String) (w : World C S)
      → let (r, s) = store.claim (outside.env w.tick) key fp self.lease_ttl w.state in
        exec store outside (store_claim self key fp) w
        ≡ (r, record w { state = s; tick = w.tick + 1 })
  unfolding store_claim exec
  claim_lem self key fp w = elim (Option-cases self.lease_ttl) [
    | inl e ↦ rw (e, store_claim)
    | inr (ttl, e) ↦ rw (e, store_claim)
  ]

  -- A call goes on with what its claim is answered.
  pub run_lem :
      (nil : V) (self : Once R V) (func : Program R V) (key : String) (fp : Option String)
      (w : World C S)
      → let (r, s) = store.claim (outside.env w.tick) key fp self.lease_ttl w.state in
        exec store outside (run nil self func key fp) w
        ≡ exec store outside
            (recover self r >>= after_claim nil self func key fp)
            (record w { state = s; tick = w.tick + 1 })
  unfolding run claim_or_open exec
  run_lem nil self func key fp w =
      let (r, s) = store.claim (outside.env w.tick) key fp self.lease_ttl w.state in
      let w' : World C S = record w { state = s; tick = w.tick + 1 } in
      let go = after_claim nil self func key fp in
      exec-bind store outside (attempt (store_claim self key fp) >>= recover self) go w
      ∙ ap (continue store outside go) (
          exec-bind store outside (attempt (store_claim self key fp)) (recover self) w
          ∙ ap (continue store outside (recover self)) (
              exec-attempt store outside (store_claim self key fp) w
              ∙ ap (λ out. (ok out.0, out.1)) (claim_lem self key fp w)))
      ∙ sym (exec-bind store outside (recover self r) go w')

not_fresh_state : (s : State) → s ≢ State.fresh → is_state s State.fresh ≡ false
not_fresh_state State.fresh n = absurd (n refl)
not_fresh_state State.in_flight n = refl
not_fresh_state State.committed n = refl

module _ {C : Type 0} {R : C → Type 0} {V : Type 0} (outside : Outside R) where
  -- No record: the call claims the key and executes.
  pub absent_lem :
      (nil : V) (self : Once R V) (func : Program R V) (key : String) (fp : Option String)
      (w : World C MemoryStore)
      → lookup key w.state ≡ none
      → let env = outside.env w.tick in
        exec memory outside (run nil self func key fp) w
        ≡ exec memory outside (execute_and_commit self func key (some env.token)) (record w {
          state = insert key (claimed_row env key fp self.lease_ttl) w.state;
          tick = w.tick + 1;
        })
  unfolding memory Memory.claim check_fingerprint
  absent_lem nil self func key fp w e =
      rw (run_lem memory outside nil self func key fp w) (rw (e, Memory.claim))

  -- A record that is committed: the call answers with the stored result and changes nothing.
  pub committed_lem :
      (nil : V) (self : Once R V) (func : Program R V) (key : String) (fp : Option String)
      (w : World C MemoryStore) (row : ClaimRecord)
      → lookup key w.state ≡ some row
      → row.state ≡ State.committed
      → differs row.fingerprint fp ≡ false
      → exec memory outside (run nil self func key fp) w
        ≡ exec memory outside (decode nil self row.result) (record w { tick = w.tick + 1 })
  unfolding memory Memory.claim check_fingerprint
  committed_lem nil self func key fp w row e c d =
      rw (run_lem memory outside nil self func key fp w)
        (rw (e, Memory.claim) (rw (c, check_fingerprint) (rw d refl)))

  -- The policies that quarantine and raise.
  abbrev pub Raises : Policy R V → Type 0
  Raises (Policy.quarantine none) = Unit
  Raises Policy.fail = Unit
  Raises _ = ⊥

  refuse :
      (policy : Policy R V) (codec : Codec V) (key : String) (c : ClaimResult) (nil : V)
      (self : Once R V) (func : Program R V) (fp : Option String) (w : World C MemoryStore)
      → Raises policy
      → exec memory outside (resolve policy codec key c >>= follow nil self func key fp) w
        ≡ (err (quarantined key), w)
  unfolding resolve follow exec
  refuse (Policy.quarantine none) codec key c nil self func fp w h = refl
  refuse (Policy.quarantine (some v)) codec key c nil self func fp w h = absurd h
  refuse Policy.fail codec key c nil self func fp w h = refl
  refuse Policy.auto_retry codec key c nil self func fp w h = absurd h
  refuse (Policy.check_then_decide prober) codec key c nil self func fp w h = absurd h
  refuse (Policy.wait timeout interval) codec key c nil self func fp w h = absurd h

  -- While a key is in flight, a call with an equal or absent fingerprint under `quarantine` (with
  -- no sentinel) or `fail` raises QuarantinedError for the key: it makes no call of the caller's
  -- code and changes nothing.
  pub in_flight_refused :
      (nil : V) (self : Once R V) (func : Program R V) (key : String) (fp : Option String)
      (w : World C MemoryStore) (row : ClaimRecord)
      → Raises self.policy
      → lookup key w.state ≡ some row
      → row.state ≡ State.in_flight
      → differs row.fingerprint fp ≡ false
      → exec memory outside (run nil self func key fp) w
        ≡ (err (quarantined key), record w { tick = w.tick + 1 })
  unfolding memory Memory.claim check_fingerprint
  in_flight_refused nil self func key fp w row h e c d =
      rw (run_lem memory outside nil self func key fp w) (
        rw (e, Memory.claim)
          (rw (c, check_fingerprint)
            (rw d (refuse self.policy self.codec key _ nil self func fp _ h))))

  -- A call with another fingerprint than the record of its key, which is not FRESH, raises
  -- KeyReuseError for the key under every policy, makes no call of the caller's code and leaves the
  -- store alone.
  pub mismatch_refused :
      (nil : V) (self : Once R V) (func : Program R V) (key : String) (fp : Option String)
      (w : World C MemoryStore) (row : ClaimRecord)
      → lookup key w.state ≡ some row
      → row.state ≢ State.fresh
      → differs row.fingerprint fp ≡ true
      → exec memory outside (run nil self func key fp) w
        ≡ (err (key_reuse key), record w { tick = w.tick + 1 })
  unfolding memory Memory.claim check_fingerprint exec
  mismatch_refused nil self func key fp w row e n d =
      rw (run_lem memory outside nil self func key fp w)
        (rw (e, Memory.claim) (rw (not_fresh_state row.state n, check_fingerprint) (rw d refl)))
