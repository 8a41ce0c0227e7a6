-- ===== src/Sequence/Withs.antt =====
-- A whole `with` statement over a `once` object of src/exactly_once/core.py with no lease, over the
-- memory store.
use exactly_once.Prelude.{◌+◌, ◌≡◌, refl, ap, ◌∙◌, String, false, Option, none, some, Bytes, ◌∷◌}
use exactly_once.Errors.{Result, ok, err}
use exactly_once.Types.{State, ClaimRecord}
use exactly_once.Dict.{lookup, insert}
use exactly_once.Program.{Program, attempt, from_result, ◌>>=◌, ◌>>◌}
use exactly_once.Stores.Memory
use exactly_once.Stores.Memory.{MemoryStore, memory, claimed_row}
use exactly_once.Core.{Once, differs, check_fingerprint, stop_heartbeat}
use exactly_once.Core.Guards.{
  Guard, Stack, enter, exit, fresh_guard, running_guard, replay_guard, push_guard, pop_guard,
}
use exactly_once.Workers.Blocks.{with_block, leaving, is_clean}
use exactly_once.Sequence.{World, Outside, exec}
use exactly_once.Sequence.Laws.{continue, exec-bind, exec-attempt}
use exactly_once.Sequence.Probes.{settled_row, commit_in_flight}
use exactly_once.Sequence.Steps.{unleased_start}
use exactly_once.Sequence.Blocks.{enter_lem, enter_committed}

module _ {C : Type 0} {R : C → Type 0} {V : Type 0} (outside : Outside R) (nil : V)
    (self : Once R V) (body : Guard V → Program R V) (key : String) (fp : Option String)
    (stack : Stack V) (w : World C MemoryStore) where
  -- The rest of the statement after `__enter__`.
  abbrev inside : Guard V × Stack V → Program R V
  inside entered = do
    outcome ← attempt (body entered.0)
    exit self (is_clean outcome) (leaving outcome entered.1)
    from_result outcome

  abbrev left : Guard V × Stack V → Result V → Program R V
  left entered outcome =
      exit self (is_clean outcome) (leaving outcome entered.1) >> from_result outcome

  unleased_enter :
      self.lease_ttl ≡ none
      → lookup key w.state ≡ none
      → let env = outside.env w.tick in
        let guard = running_guard nil key (some env.token) none in
        exec memory outside (enter nil self key fp stack) w ≡ (
          ok (guard, guard ∷ stack),
          record w {
            state = insert key (claimed_row env key fp self.lease_ttl) w.state;
            tick = w.tick + 1;
          },
        )
  unfolding memory Memory.claim check_fingerprint fresh_guard push_guard exec
  unleased_enter lease e = rw (enter_lem outside nil self key fp stack w) (
      rw (e, Memory.claim)
        (rw (unleased_start self key (some (outside.env w.tick).token) lease, fresh_guard) refl))

  -- Under a key with no record the body runs with a fresh guard, and its result is committed.
  pub block_runs :
      (v : V) (b : Bytes) (w₁ : World C MemoryStore)
      → self.lease_ttl ≡ none
      → lookup key w.state ≡ none
      → let env = outside.env w.tick in
        let row = claimed_row env key fp self.lease_ttl in
        exec memory outside
            (body (running_guard nil key (some env.token) none))
            (record w { state = insert key row w.state; tick = w.tick + 1 })
          ≡ (ok v, w₁)
        → lookup key w₁.state ≡ some row
        → self.codec.encode v ≡ ok b
        → exec memory outside (with_block nil self body key fp stack) w ≡ (
          ok v,
          record w₁ {
            state = insert key (settled_row (outside.env w₁.tick) b row) w₁.state;
            tick = w₁.tick + 1;
          },
        )
  unfolding with_block exit pop_guard stop_heartbeat exec
  block_runs v b w₁ lease absent answers held enc =
      let env = outside.env w.tick in
      let guard = running_guard nil key (some env.token) none in
      let row = claimed_row env key fp self.lease_ttl in
      let w₀ : World C MemoryStore = record w {
        state = insert key row w.state;
        tick = w.tick + 1;
      } in
      exec-bind memory outside (enter nil self key fp stack) inside w
      ∙ ap (continue memory outside inside) (unleased_enter lease absent)
      ∙ exec-bind memory outside (attempt (body guard)) (left (guard, guard ∷ stack)) w₀
      ∙ ap (continue memory outside (left (guard, guard ∷ stack)))
          (exec-attempt memory outside (body guard) w₀ ∙ ap (λ out. (ok out.0, out.1)) answers)
      ∙ rw (enc, exec)
          (rw (commit_in_flight (outside.env w₁.tick) key b w₁.state row held refl, exec) refl)

  skipped :
      (v : V) (r : Result V) (w' : World C MemoryStore)
      → exec memory outside (left (replay_guard key v, replay_guard key v ∷ stack) r) w' ≡ (r, w')
  unfolding exit pop_guard exec
  skipped v (ok _) w' = refl
  skipped v (err _) w' = refl

  -- Under a committed key the body runs with the stored result, and `__exit__` does nothing.
  pub block_skips :
      (row : ClaimRecord) (v : V) (b : Bytes) (out : Result V × World C MemoryStore)
      → lookup key w.state ≡ some row
      → row.state ≡ State.committed
      → row.result ≡ some b
      → differs row.fingerprint fp ≡ false
      → self.codec.decode b ≡ ok v
      → exec memory outside (body (replay_guard key v)) (record w { tick = w.tick + 1 }) ≡ out
      → exec memory outside (with_block nil self body key fp stack) w ≡ out
  unfolding with_block exec
  block_skips row v b out e committed has same dec answers =
      let guard = replay_guard key v in
      let w₀ : World C MemoryStore = record w { tick = w.tick + 1 } in
      exec-bind memory outside (enter nil self key fp stack) inside w
      ∙ ap (continue memory outside inside)
          (enter_committed outside nil self key fp stack w row b v e committed has same dec)
      ∙ exec-bind memory outside (attempt (body guard)) (left (guard, guard ∷ stack)) w₀
      ∙ ap (continue memory outside (left (guard, guard ∷ stack)))
          (exec-attempt memory outside (body guard) w₀ ∙ ap (λ o. (ok o.0, o.1)) answers)
      ∙ skipped v out.0 out.1
