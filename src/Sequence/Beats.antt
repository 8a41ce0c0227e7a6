-- ===== src/Sequence/Beats.antt =====
-- The heartbeat of src/exactly_once/core.py over the memory store.
use exactly_once.Prelude.{
  false, Option, sym, ◌∙◌, ◌<◌, ℕ, zero, suc, ◌+◌, ◌≡◌, refl, ap, String, true, some, arith, eq_iff,
}
use exactly_once.Errors.{ok, err, quarantined}
use exactly_once.Types.{State, ClaimRecord}
use exactly_once.Dict.{lookup, insert, lookup-insert}
use exactly_once.Core.{Once, differs}
use exactly_once.Core.Run.{run}
use exactly_once.Program.{Program}
use exactly_once.Sequence.Leases.{Adopts, live_lease_refused}
use exactly_once.Core.Beats.{beat, go_on}
use native.Mathlib.Numerals.{unary_clauses}
use mathlib.Core.Path.{subst}
use exactly_once.Stores.{Env}
use exactly_once.Stores.Memory
use exactly_once.Stores.Memory.{MemoryStore, memory}
use exactly_once.Sequence.{World, Outside, exec}

abbrev renewed_row : Env → ℕ → ClaimRecord → ClaimRecord
renewed_row env ttl row = record row { lease_expires_at = some (env.now + ttl) }

heartbeat_lem :
    (env : Env) (key token : String) (ttl : ℕ) (s : MemoryStore) (row : ClaimRecord)
    → lookup key s ≡ some row
    → row.state ≡ State.in_flight
    → row.token ≡ some token
    → Memory.heartbeat env key token ttl s ≡ (ok true, insert key (renewed_row env ttl row) s)
unfolding Memory.heartbeat
heartbeat_lem env key token ttl s row e f o =
    rw (e, Memory.heartbeat) (rw f (rw o (ground (arith, eq_iff token token))))

module _ {C : Type 0} {R : C → Type 0} (outside : Outside R) where
  abbrev after_beat : String → ℕ → World C MemoryStore → ClaimRecord → World C MemoryStore
  after_beat key ttl w row = record w {
    state = insert key (renewed_row (outside.env w.tick) ttl row) w.state;
    tick = w.tick + 1;
  }

  beat_lem :
      (n : ℕ) (key token : String) (ttl : ℕ) (w : World C MemoryStore) (row : ClaimRecord)
      → lookup key w.state ≡ some row
      → row.state ≡ State.in_flight
      → row.token ≡ some token
      → exec memory outside (beat (suc n) key token ttl) w
        ≡ exec memory outside (beat n key token ttl) (after_beat key ttl w row)
  unfolding exec beat memory
  beat_lem n key token ttl w row e f o =
      ap
        (λ q.
          exec memory outside (go_on q.0 (beat n key token ttl))
            (record w { state = q.1; tick = w.tick + 1 }))
        (heartbeat_lem (outside.env w.tick) key token ttl w.state row e f o)

  stopped_lem :
      (key token : String) (ttl : ℕ) (w : World C MemoryStore)
      → exec memory outside (beat zero key token ttl) w ≡ (ok tt, w)
  unfolding exec beat
  stopped_lem key token ttl w = refl

  renewed_lem :
      (key : String) (ttl : ℕ) (w : World C MemoryStore) (row : ClaimRecord)
      → lookup key (after_beat key ttl w row).state
        ≡ some (renewed_row (outside.env w.tick) ttl row)
  renewed_lem key ttl w row = ground (
    arith,
    lookup-insert key key (renewed_row (outside.env w.tick) ttl row) w.state,
    eq_iff key key,
  )

  -- While a key is in flight under the token of its owner, a heartbeat of one round or more ends with
  -- no exception and leaves the record as it was, but for a lease of the full length from the clock of
  -- its last round on.
  beats_renew :
      (n : ℕ) (key token : String) (ttl : ℕ) (w : World C MemoryStore) (row : ClaimRecord)
      → lookup key w.state ≡ some row
      → row.state ≡ State.in_flight
      → row.token ≡ some token
      → let (r, w') = exec memory outside (beat (suc n) key token ttl) w in
        (r ≡ ok tt)
        × (lookup key w'.state
            ≡ some (record row { lease_expires_at = some ((outside.env (w.tick + n)).now + ttl) }))
        × (w'.calls ≡ w.calls)
  beats_renew zero key token ttl w row e f o = rw (beat_lem zero key token ttl w row e f o) (
      rw (stopped_lem key token ttl (after_beat key ttl w row))
        (refl, simp unary_clauses (renewed_lem key ttl w row), refl))
  beats_renew (suc n) key token ttl w row e f o =
      let w' = after_beat key ttl w row in
      let row' = renewed_row (outside.env w.tick) ttl row in
      let (ended, renewed, quiet) =
        beats_renew n key token ttl w' row' (renewed_lem key ttl w row) f o in
      let later : w.tick + 1 + n ≡ w.tick + suc n = omega arith in
      rw (beat_lem (suc n) key token ttl w row e f o) (
        ended,
        subst
            (λ t.
              lookup key (exec memory outside (beat (suc n) key token ttl) w').1.state
              ≡ some (record row { lease_expires_at = some ((outside.env t).now + ttl) }))
            later renewed,
        quiet,
      )

module _ {C : Type 0} {R : C → Type 0} {V : Type 0} (outside : Outside R) where
  -- A key whose owner's heartbeat has run for one round or more is not adopted by a later call under
  -- `auto_retry` or `check_then_decide` with an equal or absent fingerprint, until a full lease has
  -- passed by the clock of the store since the heartbeat's last round: the call raises QuarantinedError
  -- for the key, makes no call of the caller's code, the prober included, and leaves the store alone.
  pub renewed_key_refused :
      (n : ℕ) (key token : String) (ttl : ℕ) (row : ClaimRecord) (nil : V) (self : Once R V)
      (func : Program R V) (fp : Option String) (w w' : World C MemoryStore)
      → lookup key w.state ≡ some row
      → row.state ≡ State.in_flight
      → row.token ≡ some token
      → Adopts outside self.policy
      → (exec memory outside (beat (suc n) key token ttl) w).1.state ≡ w'.state
      → (outside.env (w'.tick + 1)).now < (outside.env (w.tick + n)).now + ttl
      → differs row.fingerprint fp ≡ false
      → exec memory outside (run nil self func key fp) w'
        ≡ (err (quarantined key), record w' { tick = w'.tick + 1 + 1 })
  renewed_key_refused n key token ttl row nil self func fp w w' e f o adopts beaten early same =
      let (ended, renewed, quiet) = beats_renew outside n key token ttl w row e f o in
      let expires = (outside.env (w.tick + n)).now + ttl in
      live_lease_refused outside nil self func key fp w'
        (record row { lease_expires_at = some expires }) expires adopts
        (ap (lookup key) (sym beaten) ∙ renewed) f refl early same
