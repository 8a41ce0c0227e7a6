-- ===== src/Workers.antt =====
-- Several callers of the library over one store: their calls of the store interleave in any order,
-- and any of them may crash between two calls.
pub mod Spends
pub mod Quiet
pub mod Claims
pub mod Blocks
pub mod Entries
pub mod Exits
pub mod Owners
pub mod System
pub mod Pool
pub mod Invariant
pub mod AtMostOnce
pub mod Permanence
use exactly_once.Prelude.{
  ℕ, ◌+◌, ◌-◌, ◌≤◌, ◌≡◌, String, Bool, true, false, Option, none, some, List, ◌∷◌, ◌++◌, ◌&&◌, not,
  str_eq, if◌then◌else◌,
}
use exactly_once.Errors.{Exception, Result, ok, err}
use exactly_once.Types.{State, is_state}
use exactly_once.Program.{Op, Reply, Program, done, op}
use exactly_once.Stores.{Env, Store}

module _ {C : Type 0} (R : C → Type 0) {S : Type 0} (store : Store S) where
  -- A call of the store is answered by the store, in one step. Any other call is answered by the
  -- surroundings, which choose `free`.
  abbrev pub perform : Env → S → (o : Op C) → Reply R o → Reply R o × S
  perform env s (Op.claim key fp ttl) free = store.claim env key fp ttl s
  perform env s (Op.commit key b) free = store.commit env key b s
  perform env s (Op.release key token) free = store.release env key token s
  perform env s (Op.heartbeat key token ttl) free = store.heartbeat env key token ttl s
  perform env s Op.now free = store.now env s
  perform env s (Op.get key) free = store.get env key s
  perform env s Op.monotonic free = (free, s)
  perform env s (Op.sleep _) free = (free, s)
  perform env s (Op.set_current_key _) free = (free, s)
  perform env s (Op.reset_current_key _) free = (free, s)
  perform env s Op.get_current_key free = (free, s)
  perform env s (Op.start_beat _ _ _ _) free = (free, s)
  perform env s Op.stop_beat free = (free, s)
  perform env s Op.astop_beat free = (free, s)
  perform env s (Op.extern _) free = (free, s)

-- The number `n` if `b`, else 0.
abbrev pub counted : Bool → ℕ → ℕ
counted true n = n
counted false n = 0

abbrev pub one_if : Bool → ℕ
one_if true = 1
one_if false = 0

-- What the callers may do: use the policies that release records, and run on without a guard where
-- the store is down (`on_store_down="open"`). `is_effect` picks the calls of the callers' own code that
-- are the effect to be guarded.
pub record Rules (C : Type 0) : Type 0 where
  pub may_release : Bool
  pub may_open : Bool
  pub is_effect : C → Bool

-- What is counted for one key `k`.
module _ {C : Type 0} (k : String) where
  -- A claim of the key that is answered FRESH.
  abbrev pub gains : (R : C → Type 0) (o : Op C) → Reply R o → ℕ
  gains R (Op.claim key _ _) (ok c) = one_if (str_eq key k && is_state c.state State.fresh)
  gains R _ _ = 0

  -- A claim of the key that finds the store down.
  abbrev pub outage : (R : C → Type 0) (o : Op C) → Reply R o → ℕ
  outage R (Op.claim key _ _) (err Exception.store_unavailable) = one_if (str_eq key k)
  outage R _ _ = 0

  -- What an answer pays for: one effect for a claim that is answered FRESH, and one for a claim that
  -- finds the store down, where callers may run on.
  abbrev pub credits : Rules C → (R : C → Type 0) (o : Op C) → Reply R o → ℕ
  credits rules R (Op.claim key _ _) (ok c) = one_if (str_eq key k && is_state c.state State.fresh)
  credits rules R (Op.claim key _ _) (err Exception.store_unavailable) =
      one_if (rules.may_open && str_eq key k)
  credits rules R _ _ = 0

  abbrev pub releases : Op C → Bool
  releases (Op.release key _) = str_eq key k
  releases _ = false

module _ {C : Type 0} (rules : Rules C) where
  -- A call of the caller's own code that is the effect.
  abbrev pub fires : Op C → ℕ
  fires (Op.extern c) = one_if (rules.is_effect c)
  fires _ = 0

  -- The caller's own code: it makes calls of its own, the effect at most `n` times among them, and asks
  -- for the current key at most.
  abbrev pub FiresAtMost : {R : C → Type 0} {A : Type 0} → ℕ → Program R A → Type 0
  FiresAtMost n (done r) = Unit
  FiresAtMost n (op (Op.extern c) f) =
      (one_if (rules.is_effect c) ≤ n)
      × ((r : _) → FiresAtMost (n - one_if (rules.is_effect c)) (f r))
  FiresAtMost n (op Op.get_current_key f) = (r : _) → FiresAtMost n (f r)
  FiresAtMost n (op _ f) = ⊥
