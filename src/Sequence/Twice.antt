-- ===== src/Sequence/Twice.antt =====
-- Two calls of `once` objects with one key over the memory store, one after the other.
use mathlib.Core.Path.{subst}
use exactly_once.Prelude.{
  ℕ, ◌+◌, ◌≡◌, refl, ap, ◌∙◌, sym, String, false, Option, none, some, arith, Bytes, eq_refl,
}
use exactly_once.Errors.{Exception, Result, ok, err, quarantined, ◌>>=◌ as continue_with}
use exactly_once.Types.{State, ClaimRecord}
use exactly_once.Dict.{lookup, insert, lookup-insert}
use exactly_once.Program.{Program}
use exactly_once.Stores.{Env}
use exactly_once.Stores.Memory
use exactly_once.Stores.Memory.{MemoryStore, memory, claimed_row}
use exactly_once.Core.{Once, differs, decode}
use exactly_once.Core.Run.{run}
use exactly_once.Sequence.{World, Outside, exec}
use exactly_once.Sequence.Calls.{Finished, Encoded, execute-Finished}
use exactly_once.Sequence.Replay.{absent_lem, committed_lem, in_flight_refused, Raises}
use exactly_once.Workers.Spends.{IsExternal}

-- The record of a key whose effect returned.
abbrev pub done_row : Env → Env → String → Option String → Option ℕ → Bytes → ClaimRecord
done_row env env' key fp ttl b = record (claimed_row env key fp ttl) {
  state = State.committed;
  result = some b;
  updated_at = some env'.now;
}

claimed_lookup :
    (env : Env) (key : String) (fp : Option String) (ttl : Option ℕ) (db : MemoryStore)
    → lookup key (insert key (claimed_row env key fp ttl) db) ≡ some (claimed_row env key fp ttl)
claimed_lookup env key fp ttl db =
    rw (lookup-insert key key (claimed_row env key fp ttl) db, eq_refl) refl

pub commit_ok :
    (env : Env) (key : String) (b : Bytes) (db : MemoryStore)
    → (memory.commit env key b db).0 ≡ ok tt
unfolding memory Memory.commit
commit_ok env key b db = ground arith

pub commit_claimed :
    (env env' : Env) (key : String) (fp : Option String) (ttl : Option ℕ) (b : Bytes)
    (db : MemoryStore)
    → let db' = (memory.commit env' key b (insert key (claimed_row env key fp ttl) db)).1 in
      lookup key db' ≡ some (done_row env env' key fp ttl b)
unfolding memory Memory.commit
commit_claimed env env' key fp ttl b db =
    rw (claimed_lookup env key fp ttl db, Memory.commit)
      (rw
        (
          lookup-insert key key (done_row env env' key fp ttl b)
              (insert key (claimed_row env key fp ttl) db),
          eq_refl,
        )
        refl)

module _ {C : Type 0} {R : C → Type 0} {V : Type 0} (outside : Outside R) where
  -- How the first call of a key ends: it returned a value, whose encoding is committed, or it raised
  -- and the record is still as it was claimed.
  abbrev pub Ends :
      Once R V
      → String
      → Option String
      → Env
      → World C MemoryStore
      → Result V
      → World C MemoryStore
      → Type 0
  Ends self key fp env w (ok v) w' =
      (env' : Env) × (b : Bytes) × (self.codec.encode v ≡ ok b)
      × (lookup key w'.state ≡ some (done_row env env' key fp self.lease_ttl b))
  Ends self key fp env w (err e) w' =
      lookup key w'.state ≡ some (claimed_row env key fp self.lease_ttl)

  Finished-Ends :
      (self : Once R V) (key : String) (fp : Option String) (env : Env) (w : World C MemoryStore)
      (effect : Result V) (r : Result V) (w' : World C MemoryStore)
      → Finished memory outside
          (insert key (claimed_row env key fp self.lease_ttl) w.state)
          self
          key
          effect
          (r, w')
      → Ends self key fp env w r w'
  Finished-Ends self key fp env w (err e) r w' h =
      subst (λ q. Ends self key fp env w q w') (sym h.0)
        (rw (h.1) (claimed_lookup env key fp self.lease_ttl w.state))
  Finished-Ends self key fp env w (ok v) r w' h = by_encoding (self.codec.encode v) refl h
    where
      by_encoding :
          (enc : Result Bytes)
          → self.codec.encode v ≡ enc
          → Encoded memory outside
              (insert key (claimed_row env key fp self.lease_ttl) w.state)
              key
              v
              enc
              (r, w')
          → Ends self key fp env w r w'
      by_encoding (err e) q h' =
          subst (λ q. Ends self key fp env w q w') (sym h'.0)
            (rw (h'.1) (claimed_lookup env key fp self.lease_ttl w.state))
      by_encoding (ok b) q (env', st, re) =
          subst (λ q. Ends self key fp env w q w')
            (sym (re ∙ ap (λ c. continue_with c (λ _. ok v)) (commit_ok env' key b _)))
            (env', b, q, rw st (commit_claimed env env' key fp self.lease_ttl b w.state))

  -- A call of a key with no record ends in one of two ways. It returns a value: then its encoding is
  -- committed under the key, with the fingerprint of the call. It raises, since the effect raised
  -- or its result cannot be encoded: then the key's record is still in flight, as it was claimed.
  pub first_call-Ends :
      (nil : V) (self : Once R V) (func : Program R V) (key : String) (fp : Option String)
      (w : World C MemoryStore)
      → IsExternal func
      → lookup key w.state ≡ none
      → let (r, w') = exec memory outside (run nil self func key fp) w in
        Ends self key fp (outside.env w.tick) w r w'
  first_call-Ends nil self func key fp w h e =
      let env = outside.env w.tick in
      let w₀ : World C MemoryStore = record w {
        state = insert key (claimed_row env key fp self.lease_ttl) w.state;
        tick = w.tick + 1;
      } in
      let (w₁, entered, finished, _, _) =
        execute-Finished memory outside self func key (some env.token) w₀ h in
      rw (absent_lem outside nil self func key fp w e)
        (Finished-Ends self key fp env w (exec memory outside func w₁).0 _ _ finished)

  -- Once a call of a key has returned `v`, any later call of the key, of any function and `once`
  -- object with the same codec and an equal or absent fingerprint, returns `v` again if `v` is
  -- decoded from its encoding: it makes no call of the caller's code and leaves the store alone.
  pub replays_first_result :
      (nil : V) (self self' : Once R V) (func func' : Program R V) (key : String)
      (fp fp' : Option String) (w : World C MemoryStore) (v : V)
      → IsExternal func
      → lookup key w.state ≡ none
      → (exec memory outside (run nil self func key fp) w).0 ≡ ok v
      → ((b : Bytes) → self.codec.encode v ≡ ok b → self'.codec.decode b ≡ ok v)
      → differs fp fp' ≡ false
      → let w' = (exec memory outside (run nil self func key fp) w).1 in
        exec memory outside (run nil self' func' key fp') w'
        ≡ (ok v, record w' { tick = w'.tick + 1 })
  unfolding decode exec
  replays_first_result nil self self' func func' key fp fp' w v h e returned round same =
      let w' = (exec memory outside (run nil self func key fp) w).1 in
      let (env', b, enc, row) =
        subst (λ r. Ends self key fp (outside.env w.tick) w r w') returned
          (first_call-Ends nil self func key fp w h e) in
      committed_lem outside nil self' func' key fp' w' _ row refl same
      ∙ ap (λ r. (r, record w' { tick = w'.tick + 1 })) (round b enc)

  -- After a call of a key with no record that raised, a later call of the key with an equal or absent
  -- fingerprint, under `quarantine` (with no sentinel) or `fail`, raises QuarantinedError: the effect
  -- of unknown outcome is not run again, no call of the caller's code is made, and nothing changes.
  pub failed_call_never_refires :
      (nil : V) (self self' : Once R V) (func func' : Program R V) (key : String)
      (fp fp' : Option String) (w : World C MemoryStore) (e : Exception)
      → IsExternal func
      → lookup key w.state ≡ none
      → (exec memory outside (run nil self func key fp) w).0 ≡ err e
      → Raises outside self'.policy
      → differs fp fp' ≡ false
      → let w' = (exec memory outside (run nil self func key fp) w).1 in
        exec memory outside (run nil self' func' key fp') w'
        ≡ (err (quarantined key), record w' { tick = w'.tick + 1 })
  failed_call_never_refires nil self self' func func' key fp fp' w e h absent raised p same =
      let w' = (exec memory outside (run nil self func key fp) w).1 in
      in_flight_refused outside nil self' func' key fp' w' _ p
        (subst (λ r. Ends self key fp (outside.env w.tick) w r w') raised
          (first_call-Ends nil self func key fp w h absent))
        refl same
