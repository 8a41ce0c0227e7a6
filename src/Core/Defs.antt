-- ===== src/Core/Defs.antt =====
-- The object of `once` in src/exactly_once/core.py, and the internals that its two forms share.
use exactly_once.Prelude.{
  ℕ, zero, suc, ◌/◌, String, Bool, false, Option, none, some, Bytes, ◌&&◌, not, str_eq,
  if◌then◌else◌,
}
use exactly_once.Errors.{Exception, Result, ok, err, key_reuse, store_unavailable}
use exactly_once.Types.{State, ClaimResult, is_state}
use exactly_once.Codec.{Codec}
use exactly_once.Policies.{Policy}
use exactly_once.Program.{Program, pure, raise, attempt, from_result, ◌>>=◌, ◌>>◌}
use exactly_once.Program.Calls

pub data OnStoreDown : Type 0 where
  fail open_ : OnStoreDown

-- The fields that `__init__` sets and the claiming of a key reads. The key and the fingerprint
-- specs are in Keys, the stack of guards in Guards. Intervals are microseconds.
pub record Once {C : Type 0} (R : C → Type 0) (V : Type 0) : Type 0 where
  pub policy : Policy R V
  pub codec : Codec V
  pub on_store_down : OnStoreDown
  pub lease_ttl : Option ℕ
  pub heartbeat_interval : Option ℕ

-- The interval that `__init__` sets: three beats to a lease, unless the caller gave one that is not 0.
abbrev pub interval_of : Option ℕ → Option ℕ → Option ℕ
interval_of (some (suc n)) ttl = some (suc n)
interval_of _ none = none
interval_of _ (some ttl) = some (ttl / 3)

-- Python's `x or 1.0` on an interval: an interval of zero counts as none.
abbrev or_one_second : Option ℕ → ℕ
or_one_second none = 1_000_000
or_one_second (some zero) = 1_000_000
or_one_second (some (suc n)) = suc n

module _ {C : Type 0} {R : C → Type 0} {V : Type 0} where
  -- A result that is absent decodes to Python's `None`, which is `nil`.
  unfoldable pub decode : V → Once R V → Option Bytes → Program R V
  decode nil self none = pure nil
  decode nil self (some raw) = from_result (self.codec.decode raw)

  unfoldable pub store_claim : Once R V → String → Option String → Program R ClaimResult
  store_claim self key fp = elim self.lease_ttl [
    | none ↦ Calls.claim key fp none
    | some ttl ↦ Calls.claim key fp (some ttl)
  ]

  -- `none` is the signal to run without a guard.
  unfoldable pub handle_store_down : Once R V → Program R (Option ClaimResult)
  handle_store_down self = elim self.on_store_down [
    | OnStoreDown.open_ ↦ pure none
    | OnStoreDown.fail ↦ raise store_unavailable
  ]

  -- The `except StoreUnavailableError` of `_claim_or_open`.
  abbrev pub recover : Once R V → Result ClaimResult → Program R (Option ClaimResult)
  recover self (ok claim) = pure (some claim)
  recover self (err Exception.store_unavailable) = handle_store_down self
  recover self (err e) = raise e

  unfoldable pub claim_or_open : Once R V → String → Option String → Program R (Option ClaimResult)
  unfolding store_claim handle_store_down
  claim_or_open self key fp = do outcome ← attempt (store_claim self key fp); recover self outcome

  unfoldable pub start_heartbeat : Once R V → String → Option String → Program R (Option (Unit {0}))
  start_heartbeat self key none = pure none
  start_heartbeat self key (some token) = elim self.lease_ttl [
    | none ↦ pure none
    | some ttl ↦ do
      Calls.start_beat key token ttl (or_one_second self.heartbeat_interval)
      pure (some tt)
  ]

  unfoldable pub astore_claim : Once R V → String → Option String → Program R ClaimResult
  astore_claim self key fp = elim self.lease_ttl [
    | none ↦ Calls.claim key fp none
    | some ttl ↦ Calls.claim key fp (some ttl)
  ]

  unfoldable pub aclaim_or_open : Once R V → String → Option String → Program R (Option ClaimResult)
  unfolding astore_claim handle_store_down
  aclaim_or_open self key fp = do outcome ← attempt (astore_claim self key fp); recover self outcome

  unfoldable pub astart_heartbeat :
      Once R V → String → Option String → Program R (Option (Unit {0}))
  astart_heartbeat self key none = pure none
  astart_heartbeat self key (some token) = elim self.lease_ttl [
    | none ↦ pure none
    | some ttl ↦ do
      Calls.start_beat key token ttl (or_one_second self.heartbeat_interval)
      pure (some tt)
  ]

-- Both fingerprints are there and they are not the same.
abbrev pub differs : Option String → Option String → Bool
differs (some stored) (some fp) = not (str_eq stored fp)
differs _ _ = false

module _ {C : Type 0} {R : C → Type 0} where
  -- The handle is `none` where no heartbeat was started.
  unfoldable pub stop_heartbeat : Option (Unit {0}) → Program R (Unit {0})
  stop_heartbeat none = pure tt
  stop_heartbeat (some _) = Calls.stop_beat

  -- `await task` raises what ended the task, but for its cancellation.
  unfoldable pub astop_heartbeat : Option (Unit {0}) → Program R (Unit {0})
  astop_heartbeat none = pure tt
  astop_heartbeat (some _) = Calls.astop_beat

  unfoldable pub check_fingerprint : ClaimResult → Option String → Program R (Unit {0})
  check_fingerprint claim fp =
      if not (is_state claim.state State.fresh) && differs claim.fingerprint fp
      then raise (key_reuse claim.key)
      else pure tt
