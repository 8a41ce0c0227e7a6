-- ===== src/Sequence/Blocks.antt =====
-- The context-manager form of src/exactly_once/core.py over the memory store: `__enter__` by what the
-- store holds for the key, and `__exit__` by how the block ended.
use exactly_once.Prelude.{
  ℕ, ◌+◌, ◌≡◌, refl, ap, ◌∙◌, sym, String, true, false, Option, none, some, Bytes, ◌∷◌,
}
use exactly_once.Errors.{ok, ok-inj}
use exactly_once.Types.{State, ClaimRecord, ClaimResult}
use exactly_once.Dict.{lookup, insert}
use exactly_once.Program.{Program, done, attempt, pure, from_result, bind_assoc, ◌>>=◌, ◌>>◌}
use exactly_once.Program.Calls
use exactly_once.Stores.{Env}
use exactly_once.Stores.Memory
use exactly_once.Stores.Memory.{MemoryStore, memory, claimed_row}
use exactly_once.Core.{
  Once, decode, differs, store_claim, claim_or_open, recover, check_fingerprint, start_heartbeat,
  stop_heartbeat,
}
use exactly_once.Core.Guards.{
  Guard, Stack, enter, exit, guard_after, fresh_guard, running_guard, replay_guard, push_guard,
  pop_guard,
}
use exactly_once.Workers.Blocks.{leaving}
use exactly_once.Sequence.{World, Outside, exec}
use exactly_once.Sequence.Calls.{start_lem}
use exactly_once.Sequence.Laws.{continue, exec-bind, exec-attempt}
use exactly_once.Sequence.Replay.{claim_lem}
use exactly_once.Sequence.Twice.{commit_ok, commit_claimed, done_row}

-- The guard of a block that ran, with the result that the block left in it.
abbrev ran : {V : Type 0} → V → String → Option String → Option (Unit {0}) → V → Guard V
ran nil key token hb v = record (running_guard nil key token hb) { result = v }

module _ {C : Type 0} {R : C → Type 0} {V : Type 0} (outside : Outside R) where
  -- The rest of `__enter__` after the claim.
  abbrev entering :
      V
      → Once R V
      → String
      → Option String
      → Stack V
      → Option ClaimResult
      → Program R (Guard V × Stack V)
  entering nil self key fp stack claim = do
    guard ← guard_after nil self key fp claim
    pure (guard, push_guard guard stack)

  pub enter_lem :
      (nil : V) (self : Once R V) (key : String) (fp : Option String) (stack : Stack V)
      (w : World C MemoryStore)
      → let (r, s) = memory.claim (outside.env w.tick) key fp self.lease_ttl w.state in
        exec memory outside (enter nil self key fp stack) w
        ≡ exec memory outside
            (recover self r >>= entering nil self key fp stack)
            (record w { state = s; tick = w.tick + 1 })
  unfolding enter claim_or_open exec
  enter_lem nil self key fp stack w =
      let (r, s) = memory.claim (outside.env w.tick) key fp self.lease_ttl w.state in
      let w' : World C MemoryStore = record w { state = s; tick = w.tick + 1 } in
      let go = entering nil self key fp stack in
      exec-bind memory outside (attempt (store_claim self key fp) >>= recover self) go w
      ∙ ap (continue memory outside go) (
          exec-bind memory outside (attempt (store_claim self key fp)) (recover self) w
          ∙ ap (continue memory outside (recover self)) (
              exec-attempt memory outside (store_claim self key fp) w
              ∙ ap (λ out. (ok out.0, out.1)) (claim_lem memory outside self key fp w)))
      ∙ sym (exec-bind memory outside (recover self r) go w')

  -- A key with no record: the guard is fresh, and the key is claimed.
  enter_absent :
      (nil : V) (self : Once R V) (key : String) (fp : Option String) (stack : Stack V)
      (w : World C MemoryStore)
      → lookup key w.state ≡ none
      → let env = outside.env w.tick in
        (hb : Option (Unit {0})) × (n : ℕ) × (exec memory outside (enter nil self key fp stack) w
          ≡ (
            ok (
              running_guard nil key (some env.token) hb,
              running_guard nil key (some env.token) hb ∷ stack,
            ),
            record w {
              state = insert key (claimed_row env key fp self.lease_ttl) w.state;
              tick = n;
            },
          ))
  unfolding memory Memory.claim check_fingerprint fresh_guard push_guard exec
  enter_absent nil self key fp stack w e =
      let env = outside.env w.tick in
      let w₀ : World C MemoryStore = record w {
        state = insert key (claimed_row env key fp self.lease_ttl) w.state;
        tick = w.tick + 1;
      } in
      let f : Option (Unit {0}) → Program R (Guard V) =
        λ hb. pure (running_guard nil key (some env.token) hb) in
      let g : Guard V → Program R (Guard V × Stack V) =
        λ guard. pure (guard, push_guard guard stack) in
      let (hb, n, started) = start_lem memory outside self key (some env.token) w₀ in
      (
        hb,
        n,
        rw (enter_lem nil self key fp stack w) (
            rw (e, Memory.claim)
              (exec-bind memory outside (start_heartbeat self key (some env.token) >>= f) g w₀
                ∙ ap (continue memory outside g) (
                    exec-bind memory outside (start_heartbeat self key (some env.token)) f w₀
                    ∙ ap (continue memory outside f) started))),
      )

  -- A committed key: the guard is not fresh, and holds the value that is decoded.
  pub enter_committed :
      (nil : V) (self : Once R V) (key : String) (fp : Option String) (stack : Stack V)
      (w : World C MemoryStore) (row : ClaimRecord) (b : Bytes) (v : V)
      → lookup key w.state ≡ some row
      → row.state ≡ State.committed
      → row.result ≡ some b
      → differs row.fingerprint fp ≡ false
      → self.codec.decode b ≡ ok v
      → exec memory outside (enter nil self key fp stack) w
        ≡ (ok (replay_guard key v, replay_guard key v ∷ stack), record w { tick = w.tick + 1 })
  unfolding memory Memory.claim check_fingerprint decode push_guard exec
  enter_committed nil self key fp stack w row b v e c has d back =
      rw (enter_lem nil self key fp stack w)
        (rw (e, Memory.claim) (rw (c, check_fingerprint) (rw d (rw (has, decode) (rw back refl)))))

  -- The end of `__exit__` once the heartbeat has stopped.
  abbrev committing : Once R V → String → V → Stack V → Program R (Stack V)
  committing self key v stack = do
    encoded ← from_result (self.codec.encode v)
    Calls.commit key encoded
    pure stack

  committing_lem :
      (self : Once R V) (key : String) (v : V) (stack : Stack V) (b : Bytes)
      (w : World C MemoryStore)
      → self.codec.encode v ≡ ok b
      → let env = outside.env w.tick in
        exec memory outside (committing self key v stack) w
        ≡ (ok stack, record w { state = (memory.commit env key b w.state).1; tick = w.tick + 1 })
  unfolding exec
  committing_lem self key v stack b w enc =
      rw (enc, exec) (rw (commit_ok (outside.env w.tick) key b w.state) refl)

  -- The block ended with no exception: its result is committed.
  exit_clean :
      (nil : V) (self : Once R V) (key : String) (token : Option String) (hb : Option (Unit {0}))
      (v : V) (stack : Stack V) (b : Bytes) (w : World C MemoryStore)
      → self.codec.encode v ≡ ok b
      → (env : Env) × (n : ℕ) × (exec memory outside
            (exit self true (ran nil key token hb v ∷ stack))
            w
          ≡ (ok stack, record w { state = (memory.commit env key b w.state).1; tick = n }))
  unfolding exit pop_guard stop_heartbeat exec
  exit_clean nil self key token none v stack b w enc = (
    outside.env w.tick,
    w.tick + 1,
    ap (λ m. exec memory outside m w) (bind_assoc (done (self.codec.encode v)) _ _)
        ∙ committing_lem self key v stack b w enc,
  )
  exit_clean nil self key token (some _) v stack b w enc = (
    outside.env (w.tick + 1),
    w.tick + 1 + 1,
    ap (λ m. exec memory outside m (record w { tick = w.tick + 1 }))
          (bind_assoc (done (self.codec.encode v)) _ _)
        ∙ committing_lem self key v stack b (record w { tick = w.tick + 1 }) enc,
  )

  -- The block raised: nothing is committed.
  exit_raised :
      (nil : V) (self : Once R V) (key : String) (token : Option String) (hb : Option (Unit {0}))
      (v : V) (stack : Stack V) (w : World C MemoryStore)
      → (n : ℕ) × (exec memory outside (exit self false (ran nil key token hb v ∷ stack)) w
          ≡ (ok stack, record w { tick = n }))
  unfolding exit pop_guard stop_heartbeat exec
  exit_raised nil self key token none v stack w = (w.tick, refl)
  exit_raised nil self key token (some _) v stack w = (w.tick + 1, refl)

  -- A block is entered under a key that had no record, leaves the store alone, ends with no exception
  -- and with the result `v` in the guard that `__enter__` gave it, and is left: a later block under the
  -- key, of any `once` object, with an equal or absent fingerprint, is entered with a guard that is
  -- not fresh and holds `v`, if `v` is decoded from its encoding, and entering it leaves the store
  -- alone.
  pub block_replays :
      (nil : V) (self self' : Once R V) (key : String) (fp fp' : Option String)
      (stack stack' : Stack V) (entered : Guard V × Stack V) (v : V) (b : Bytes)
      (w w₂ : World C MemoryStore)
      → lookup key w.state ≡ none
      → (exec memory outside (enter nil self key fp stack) w).0 ≡ ok entered
      → w₂.state ≡ (exec memory outside (enter nil self key fp stack) w).1.state
      → self.codec.encode v ≡ ok b
      → self'.codec.decode b ≡ ok v
      → differs fp fp' ≡ false
      → let w₃ = (exec memory outside (exit self true (leaving (ok v) entered.1)) w₂).1 in
        exec memory outside (enter nil self' key fp' stack') w₃
        ≡ (ok (replay_guard key v, replay_guard key v ∷ stack'), record w₃ { tick = w₃.tick + 1 })
  block_replays nil self self' key fp fp' stack stack' entered v b w w₂ absent given left enc dec
        same =
      let env = outside.env w.tick in
      let w₃ : World C MemoryStore =
        (exec memory outside (exit self true (leaving (ok v) entered.1)) w₂).1 in
      let (hb, n, enters) = enter_absent nil self key fp stack w absent in
      let (env', n', ended) = exit_clean nil self key (some env.token) hb v stack b w₂ enc in
      let guard = ok-inj (sym given ∙ ap (λ out. out.0) enters) in
      let claimed : w₂.state ≡ insert key (claimed_row env key fp self.lease_ttl) w.state =
        left ∙ ap (λ out. out.1.state) enters in
      let state : w₃.state
          ≡ (memory.commit env' key b
              (insert key (claimed_row env key fp self.lease_ttl) w.state)).1 =
        ap (λ g. (exec memory outside (exit self true (leaving (ok v) g.1)) w₂).1.state) guard
        ∙ ap (λ out. out.1.state) ended
        ∙ ap (λ s. (memory.commit env' key b s).1) claimed in
      enter_committed nil self' key fp' stack' w₃ (done_row env env' key fp self.lease_ttl b) b v
        (ap (lookup key) state ∙ commit_claimed env env' key fp self.lease_ttl b w.state) refl refl
        same dec
