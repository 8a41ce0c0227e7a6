-- ===== src/Sequence/Probes.antt =====
-- A call that finds its key in flight after a crash, under `check_then_decide` of
-- src/exactly_once/policies.py, over the memory store: the prober's verdict decides.
use exactly_once.Prelude.{
  ◌+◌, ◌∙◌, ap, sym, ◌≡◌, refl, String, false, Option, none, some, Bytes, eq_refl,
}
use mathlib.Core.Path.{subst}
use exactly_once.Errors.{Result, ok, err, quarantined}
use exactly_once.Types.{State, ClaimRecord, ClaimResult}
use exactly_once.Dict.{lookup, insert, remove, lookup-insert}
use exactly_once.Codec.{Codec}
use exactly_once.Policies.{Policy, Prober, ProbeResult, Verdict, Directive, run_again}
use exactly_once.Policies.Resolve.{resolve, apply_probe, settle}
use exactly_once.Program.{Program, pure, ◌>>=◌, ◌>>◌}
use exactly_once.Stores.{Env, Store}
use exactly_once.Stores.Memory
use exactly_once.Stores.Memory.{MemoryStore, memory, claimed_row, observed}
use exactly_once.Core.{Once, differs, check_fingerprint, decode}
use exactly_once.Core.Run.{run, follow, execute_and_commit}
use exactly_once.Sequence.{World, Outside, exec}
use exactly_once.Sequence.Laws.{continue, exec-bind, exec-external}
use exactly_once.Sequence.Replay.{run_lem}
use exactly_once.Sequence.Leases.{released_lem, reclaim_absent, release_own, gone}
use exactly_once.Workers.Spends.{IsExternal}

module _ {C : Type 0} {R : C → Type 0} {V : Type 0} where
  -- What the policy does with the answer of its prober.
  abbrev pub deciding : Codec V → String → ClaimResult → ProbeResult V → Program R (Directive V)
  deciding codec key claim probe = do
    directive ← apply_probe codec probe
    settle key claim directive.action directive.result
    pure directive

module _ {C : Type 0} {R : C → Type 0} {S V : Type 0} (store : Store S) (outside : Outside R) where
  -- The policy goes on with what its prober answered.
  pub probing_lem :
      (f : String → Program R (ProbeResult V)) (codec : Codec V) (key : String)
      (claim : ClaimResult) (go : Directive V → Program R V) (probe : ProbeResult V)
      (w w₁ : World C S)
      → claim.lease_expires_at ≡ none
      → exec store outside (f key) w ≡ (ok probe, w₁)
      → exec store outside
          (resolve (Policy.check_then_decide (Prober.plain f)) codec key claim >>= go)
          w
        ≡ exec store outside (deciding codec key claim probe >>= go) w₁
  unfolding resolve
  probing_lem f codec key claim go probe w w₁ lease e = rw lease (
      exec-bind store outside (f key >>= deciding codec key claim) go w
      ∙ ap (continue store outside go) (
          exec-bind store outside (f key) (deciding codec key claim) w
          ∙ ap (continue store outside (deciding codec key claim)) e)
      ∙ sym (exec-bind store outside (deciding codec key claim probe) go w₁))

-- The record of a key that was in flight, after it is committed.
abbrev pub settled_row : Env → Bytes → ClaimRecord → ClaimRecord
settled_row env b row = record row {
  state = State.committed;
  result = some b;
  updated_at = some env.now;
}

own_released :
    (env : Env) (key : String) (s : MemoryStore) (row : ClaimRecord)
    → lookup key s ≡ some row
    → row.state ≡ State.in_flight
    → memory.release env key row.token s ≡ (ok tt, remove key s)
unfolding memory
own_released env key s row e fl = release_own env key s row e fl

pub commit_in_flight :
    (env : Env) (key : String) (b : Bytes) (s : MemoryStore) (row : ClaimRecord)
    → lookup key s ≡ some row
    → row.state ≡ State.in_flight
    → memory.commit env key b s ≡ (ok tt, insert key (settled_row env b row) s)
unfolding memory Memory.commit
commit_in_flight env key b s row e fl = rw (e, Memory.commit) (rw fl refl)

module _ {C : Type 0} {R : C → Type 0} {V : Type 0} (outside : Outside R) where
  -- How a call ends, by the verdict of its prober, from the world `w` in which the prober answered.
  -- The result of the probe has the encoding `b`, from which `v` is decoded.
  abbrev pub Decided :
      Once R V
      → Program R V
      → String
      → Option String
      → ClaimRecord
      → Bytes
      → V
      → World C MemoryStore
      → Result V × World C MemoryStore
      → Verdict
      → Type 0
  Decided self func key fp row b v w out Verdict.committed =
      (out.0 ≡ ok v)
      × (out.1.calls ≡ w.calls)
      × (lookup key out.1.state ≡ some (settled_row (outside.env w.tick) b row))
  Decided self func key fp row b v w out Verdict.unknown = out ≡ (err (quarantined key), w)
  Decided self func key fp row b v w out Verdict.not_committed =
      let env = outside.env (w.tick + 1) in
      out
      ≡ exec memory outside (execute_and_commit self func key (some env.token)) (record w {
        state = insert key (claimed_row env key fp self.lease_ttl) (remove key w.state);
        tick = w.tick + 1 + 1;
      })

  decide :
      (nil : V) (self : Once R V) (func : Program R V) (key : String) (fp : Option String)
      (row : ClaimRecord) (probe : ProbeResult V) (b : Bytes) (v : V) (w : World C MemoryStore)
      → lookup key w.state ≡ some row
      → row.state ≡ State.in_flight
      → self.codec.encode probe.result ≡ ok b
      → self.codec.decode b ≡ ok v
      → (verdict : Verdict) → probe.verdict ≡ verdict
      → Decided self func key fp row b v w
          (exec memory outside
            (deciding self.codec key (observed key row) probe >>= follow nil self func key fp)
            w)
          verdict
  unfolding exec apply_probe settle follow decode
  decide nil self func key fp row probe b v w e fl enc dec Verdict.unknown q =
      rw (q, apply_probe) refl
  decide nil self func key fp row probe b v w e fl enc dec Verdict.committed q =
      rw (q, apply_probe)
        (rw (enc, exec)
          (rw (commit_in_flight (outside.env w.tick) key b w.state row e fl, exec)
            (rw (dec, exec)
              (
                refl,
                refl,
                rw (lookup-insert key key (settled_row (outside.env w.tick) b row) w.state, eq_refl)
                    refl,
              ))))
  decide nil self func key fp row probe b v w e fl enc dec Verdict.not_committed q =
      rw (q, apply_probe)
        (released_lem outside key row.token run_again (follow nil self func key fp)
            (remove key w.state) w (own_released (outside.env w.tick) key w.state row e fl)
          ∙ reclaim_absent outside nil self func key fp
              (record w { state = remove key w.state; tick = w.tick + 1 }) (gone key w.state))

  -- A call with an equal or absent fingerprint that finds its key in flight with no lease, under
  -- `check_then_decide` with a plain prober that answers: its verdict decides. COMMITTED: the call
  -- returns the result of the probe, if the codec gives it back, and commits it under the key, with no
  -- call but the prober's. UNKNOWN: it raises QuarantinedError for the key, with the store as it was.
  -- NOT_COMMITTED: it drops the record, claims the key anew and executes the effect.
  pub probed_call-Decided :
      (nil : V) (self : Once R V) (func : Program R V) (f : String → Program R (ProbeResult V))
      (key : String) (fp : Option String) (row : ClaimRecord) (probe : ProbeResult V) (b : Bytes)
      (v : V) (w w₁ : World C MemoryStore)
      → self.policy ≡ Policy.check_then_decide (Prober.plain f)
      → IsExternal (f key)
      → lookup key w.state ≡ some row
      → row.state ≡ State.in_flight
      → row.lease_expires_at ≡ none
      → differs row.fingerprint fp ≡ false
      → exec memory outside (f key) (record w { tick = w.tick + 1 }) ≡ (ok probe, w₁)
      → self.codec.encode probe.result ≡ ok b
      → self.codec.decode b ≡ ok v
      → (w₁.state ≡ w.state)
        × Decided self func key fp row b v w₁
            (exec memory outside (run nil self func key fp) w)
            probe.verdict
  unfolding memory Memory.claim check_fingerprint resolve follow exec
  probed_call-Decided nil self func f key fp row probe b v w w₁ p h e fl lease d answers enc dec =
      let kept : w₁.state ≡ w.state =
        sym (ap (λ out. out.1.state) answers)
        ∙ (exec-external memory outside (f key) (record w { tick = w.tick + 1 }) h).0 in
      (
        kept,
        subst (λ out. Decided self func key fp row b v w₁ out probe.verdict)
            (sym (
              rw (run_lem memory outside nil self func key fp w) (
                rw (e, Memory.claim)
                  (rw (fl, check_fingerprint)
                    (rw d (
                      rw p (
                        probing_lem memory outside f self.codec key (observed key row)
                          (follow nil self func key fp) probe (record w { tick = w.tick + 1 }) w₁
                          lease answers)))))))
            (decide nil self func key fp row probe b v w₁ (ap (lookup key) kept ∙ e) fl enc dec
              probe.verdict refl),
      )
