-- ===== src/Sequence/Files.antt =====
-- Calls of the decorator over a SQLite file that no other process writes to, with no lease.
use exactly_once.Prelude.{
  ℕ, ◌+◌, ◌≡◌, refl, ap, ◌∙◌, String, false, Option, none, some, Bytes, eq_refl,
}
use exactly_once.Errors.{ok, ◌>>=◌ as continue_with}
use exactly_once.Types.{State}
use exactly_once.Dict.{lookup, insert, lookup-insert}
use exactly_once.Program.{Program}
use exactly_once.Stores.{Env}
use exactly_once.Stores.Effects.{Table, EffectRow, inserted, won, selected, overwritten, upsert}
use exactly_once.Stores.Sqlite
use exactly_once.Stores.Sqlite.{sqlite, lease_from}
use exactly_once.Stores.Sqlite.Laws.{claim_new, claim_met}
use exactly_once.Core.{Once, differs, decode}
use exactly_once.Core.Run.{run}
use exactly_once.Sequence.{World, Outside, exec}
use exactly_once.Sequence.Steps.{won_call, replayed_call, executed_call}

-- The row of a key that was just claimed.
abbrev pub claimed_effect : Env → Option String → EffectRow
claimed_effect env fp = inserted env.now fp env.token none

pub commit-claimed_effect :
    (env env' : Env) (key : String) (fp : Option String) (b : Bytes) (db : Table)
    → lookup key db ≡ some (claimed_effect env fp)
    → sqlite.commit env' key b db
      ≡ (ok tt, insert key (overwritten env'.now b (claimed_effect env fp)) db)
unfolding sqlite Sqlite.commit upsert
commit-claimed_effect env env' key fp b db e = rw (e, upsert) refl

pub claim-present :
    (env : Env) (key : String) (fp : Option String) (ttl : Option ℕ) (row : EffectRow) (db : Table)
    → lookup key db ≡ some row
    → sqlite.claim env key fp ttl db ≡ (ok (selected key row), db)
unfolding sqlite
claim-present env key fp ttl row db e = claim_met env key fp ttl db row e

pub lookup-inserted :
    (key : String) (row : EffectRow) (db : Table) → lookup key (insert key row db) ≡ some row
lookup-inserted key row db = rw (lookup-insert key key row db, eq_refl) refl

module _ {C : Type 0} {R : C → Type 0} {V : Type 0} (outside : Outside R) (nil : V)
    (self : Once R V) (func : Program R V) (key : String) (fp : Option String) where
  -- The first call of a key: the result of the effect is committed.
  pub file_call_runs :
      (v : V) (b : Bytes) (w w₁ : World C Table)
      → self.lease_ttl ≡ none
      → lookup key w.state ≡ none
      → let env = outside.env w.tick in
        let db = insert key (claimed_effect env fp) w.state in
        exec sqlite outside func
            (record w { state = db; current = some key; tick = w.tick + 1 + 1 })
          ≡ (ok v, w₁)
        → w₁.state ≡ db
        → self.codec.encode v ≡ ok b
        → exec sqlite outside (run nil self func key fp) w ≡ (
          ok v,
          record w₁ {
            state =
                insert key
                  (overwritten (outside.env (w₁.tick + 1)).now b (claimed_effect env fp))
                  w₁.state;
            current = w.current;
            tick = w₁.tick + 1 + 1;
          },
        )
  unfolding sqlite
  file_call_runs v b w w₁ lease absent answers kept enc =
      let env = outside.env w.tick in
      let env' = outside.env (w₁.tick + 1) in
      let db = insert key (claimed_effect env fp) w.state in
      let w₀ : World C Table = record w { state = db; tick = w.tick + 1 } in
      let there = ap (lookup key) kept ∙ lookup-inserted key (claimed_effect env fp) w.state in
      won_call sqlite outside nil self func key fp w (won key fp env.token none) db
        (rw lease (claim_new env key fp none w.state absent)) refl
      ∙ executed_call sqlite outside self func key (some env.token) v b w₀ w₁ lease answers enc
      ∙ ap
          (λ out. (
            continue_with out.0 (λ _. ok v),
            record w₁ { state = out.1; current = w.current; tick = w₁.tick + 1 + 1 },
          ))
          (commit-claimed_effect env env' key fp b w₁.state there)

  -- A later call of the key: the stored result comes back, and nothing is run.
  pub file_call_replays :
      (row : EffectRow) (v : V) (b : Bytes) (w : World C Table)
      → lookup key w.state ≡ some row
      → row.state ≡ State.committed
      → row.result ≡ some b
      → differs row.fingerprint fp ≡ false
      → self.codec.decode b ≡ ok v
      → exec sqlite outside (run nil self func key fp) w ≡ (ok v, record w { tick = w.tick + 1 })
  unfolding sqlite decode exec
  file_call_replays row v b w e committed has same dec =
      replayed_call sqlite outside nil self func key fp w _ w.state
        (claim-present (outside.env w.tick) key fp self.lease_ttl row w.state e) committed same
      ∙ rw (has, decode) (rw dec refl)
