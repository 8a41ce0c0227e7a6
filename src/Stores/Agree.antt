-- ===== src/Stores/Agree.antt =====
-- The memory store and the SQLite store, asked the same things: src/exactly_once/stores/memory.py and
-- sqlite.py answer alike, but for the lease of a committed record, which memory.py leaves as it was and
-- sqlite.py clears.
pub mod Records
pub mod Claims
pub mod Answers
pub mod Laws
use exactly_once.Prelude.{
  ℕ, ◌+◌, String, Bool, true, false, ◌≡◌, ◌≢◌, refl, sym, ap, ◌∙◌, Option, none, some, List, [],
  ◌∷◌, Bytes, ◌⊎◌, inl, inr, ◌&&◌, ◌||◌, not, Bool-cases, Option-cases, arith, eq_iff, str_eq,
  if◌then◌else◌,
}
use mathlib.Core.Path.{subst}
use exactly_once.Errors.{Result, ok, err}
use exactly_once.Types.{State, ClaimResult, ClaimRecord, is_state}
use exactly_once.Dict.{Dict, lookup, insert, remove, lookup-insert, lookup-remove}
use exactly_once.Stores.Base.{Env, Store}
use exactly_once.Stores.Memory
use exactly_once.Stores.Memory.{MemoryStore, memory}
use exactly_once.Stores.Effects
use exactly_once.Stores.Effects.{
  EffectRow, Table, row_to_record, upsert, delete, deletes, renew, select, overwritten,
}
use exactly_once.Stores.Sqlite
use exactly_once.Stores.Sqlite.{sqlite}
use exactly_once.Stores.Sqlite.Laws.{claim_new, claim_met}

-- Equal but for the lease, and for that too unless they are committed.
pub record SameRecord (r s : ClaimRecord) : Type 0 where
  pub same_key : r.key ≡ s.key
  pub same_state : r.state ≡ s.state
  pub same_result : r.result ≡ s.result
  pub same_fingerprint : r.fingerprint ≡ s.fingerprint
  pub same_created_at : r.created_at ≡ s.created_at
  pub same_updated_at : r.updated_at ≡ s.updated_at
  pub same_token : r.token ≡ s.token
  pub same_lease : s.state ≢ State.committed → r.lease_expires_at ≡ s.lease_expires_at

pub record SameClaim (c d : ClaimResult) : Type 0 where
  pub same_key : c.key ≡ d.key
  pub same_state : c.state ≡ d.state
  pub same_result : c.result ≡ d.result
  pub same_fingerprint : c.fingerprint ≡ d.fingerprint
  pub same_token : c.token ≡ d.token
  pub same_lease : d.state ≢ State.committed → c.lease_expires_at ≡ d.lease_expires_at

abbrev pub SameFound : Option ClaimRecord → Option ClaimRecord → Type 0
SameFound none none = Unit
SameFound (some r) (some s) = SameRecord r s
SameFound _ _ = ⊥

-- What a call asks, and what it is answered.
pub data Request : Type 0 where
  claim : String → Option String → Option ℕ → Request
  commit : String → Bytes → Request
  release : String → Option String → Request
  heartbeat : String → String → ℕ → Request
  now : Request
  get : String → Request

abbrev pub Answer : Request → Type 0
Answer (claim _ _ _) = Result ClaimResult
Answer (commit _ _) = Result (Unit {0})
Answer (release _ _) = Result (Unit {0})
Answer (heartbeat _ _ _) = Result Bool
Answer now = Result ℕ
Answer (get _) = Result (Option ClaimRecord)

abbrev pub serve : {S : Type 0} → Store S → Env → (q : Request) → S → Answer q × S
serve store env (claim key fp ttl) s = store.claim env key fp ttl s
serve store env (commit key b) s = store.commit env key b s
serve store env (release key token) s = store.release env key token s
serve store env (heartbeat key token ttl) s = store.heartbeat env key token ttl s
serve store env now s = store.now env s
serve store env (get key) s = store.get env key s

-- A store after a sequence of calls.
abbrev pub after : {S : Type 0} → Store S → List (Env × Request) → S → S
after store [] s = s
after store ((env, q) ∷ rest) s = after store rest (serve store env q s).1

abbrev pub SameAnswer : (q : Request) → Answer q → Answer q → Type 0
SameAnswer (claim _ _ _) (ok c) (ok d) = SameClaim c d
SameAnswer (claim _ _ _) (err x) (err y) = x ≡ y
SameAnswer (claim _ _ _) _ _ = ⊥
SameAnswer (get _) (ok r) (ok s) = SameFound r s
SameAnswer (get _) (err x) (err y) = x ≡ y
SameAnswer (get _) _ _ = ⊥
SameAnswer (commit _ _) a b = a ≡ b
SameAnswer (release _ _) a b = a ≡ b
SameAnswer (heartbeat _ _ _) a b = a ≡ b
SameAnswer now a b = a ≡ b

-- The answers of two stores to a sequence of calls are the same, one by one.
abbrev pub SameAnswers : {S T : Type 0} → Store S → Store T → List (Env × Request) → S → T → Type 0
SameAnswers one two [] s t = Unit
SameAnswers one two ((env, q) ∷ rest) s t =
    SameAnswer q (serve one env q s).0 (serve two env q t).0
    × SameAnswers one two rest (serve one env q s).1 (serve two env q t).1
