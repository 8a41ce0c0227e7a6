-- ===== src/Tests/Stores.antt =====
-- The stores on concrete tables and with peers that interfere.
use exactly_once.Prelude.{
  ℕ, zero, suc, ◌+◌, ◌<◌, ◌≡◌, refl, none, some, [], ◌∷◌, String, arith, List, ltb, if◌then◌else◌,
  ◌*◌,
}
use exactly_once.Errors
use exactly_once.Errors.{Result, ok, err, store_unavailable}
use exactly_once.Types.{State}
use exactly_once.Dict.{lookup, insert}
use exactly_once.Stores.{Attempt, Exclusive, Durable}
use exactly_once.Stores.Redis.Durability.{result_under, redis-Durable}
use exactly_once.Stores.Effects.{Table, inserted, upsert, won}
use exactly_once.Stores.Sqlite.{claim_attempts}
use exactly_once.Stores.Sqlite.Races.{Ends}
use exactly_once.Stores.Postgres.{tx}
use exactly_once.Stores.Postgres.Retries
use exactly_once.Stores.Postgres.Retries.{tx-Ends, tx-retries, IsTxError}
use exactly_once.Stores.Agree.{Request}
use exactly_once.Stores.Redis.{Database, Hash, find, redis_with, claimed, committed_over, answered}
use exactly_once.Stores.Redis.Retention.{retained_until}
use exactly_once.Stores.Redis.InFlight.{in_flight_never_expires}
use exactly_once.Stores.Redis.Laws
use exactly_once.Stores.Redis.Laws.{holds, redis-Exclusive}
use exactly_once.Tests.Inputs

-- A peer's row for key "k".
abbrev met : Table
met = ("k", inserted 5 none "p" none) ∷ []

-- The peer releases its row after the first of two attempts.
abbrev releasing : ℕ → Table → Table
releasing n db = []

abbrev mint : ℕ → String
mint n = "t"

-- The second attempt wins.
claim_after_release :
    (claim_attempts releasing mint 2 9 none "k" none met).0 ≡ ok (won "k" none "t" none)
unfolding claim_attempts lookup insert
claim_after_release = refl

-- Two serialization failures, then a commit.
abbrev flaky : ℕ → Attempt
flaky zero = Attempt.serialization_failure
flaky (suc zero) = Attempt.serialization_failure
flaky (suc (suc n)) = Attempt.commits

abbrev committed_body : Table → (Unit {0}) × Table
committed_body d = (tt, upsert 9 "k" (7 ∷ []) d)

tx-Ends_example : Retries.Ends IsTxError committed_body met (tx flaky 0 5 committed_body met)
tx-Ends_example = tx-Ends flaky committed_body met 0 4

flaky_start : (i : ℕ) → i < 2 → flaky (i + 0) ≡ Attempt.serialization_failure
flaky_start zero h = refl
flaky_start (suc zero) h = refl
flaky_start (suc (suc n)) h = absurd (omega (arith, h))

tx-retries_example : tx flaky 0 5 committed_body met ≡ (ok tt, upsert 9 "k" (7 ∷ []) met)
tx-retries_example = tx-retries flaky committed_body met 0 5 2 flaky_start refl (omega arith)

abbrev no_keys : Database → List String
no_keys db = []

redis-Exclusive_example :
    Exclusive
      (holds "eo:")
      Laws.IsValid
      (redis_with "eo:" 0 Errors.Exception.connection_error no_keys)
redis-Exclusive_example = redis-Exclusive "eo:" no_keys Errors.Exception.connection_error

redis-Durable_example :
    Durable
      (result_under "eo:")
      Laws.IsValid
      (redis_with "eo:" 0 Errors.Exception.connection_error no_keys)
redis-Durable_example = redis-Durable "eo:" no_keys Errors.Exception.connection_error

-- A database with one hash, which is in flight, and a store that keeps results for a minute.
abbrev in_flight_hash : Hash
in_flight_hash = claimed (Inputs.env_at 1) "" 0

abbrev one_hash : Database
one_hash = ("eo:k", in_flight_hash) ∷ []

abbrev committed_hash : Hash
committed_hash = committed_over (Inputs.env_at 5) 60 (7 ∷ []) in_flight_hash

retained_until_example :
    ((answered "k" committed_hash).state
      ≡ (if ltb 7 (5 + 60 * 1000000) then State.committed else State.fresh))
    × ((answered "k" committed_hash).result
        ≡ (if ltb 7 (5 + 60 * 1000000) then some (7 ∷ []) else none))
unfolding lookup insert find redis_with
retained_until_example =
    retained_until "eo:" 60 store_unavailable no_keys (Inputs.env_at 5) "k" (7 ∷ []) one_hash
      in_flight_hash ((Inputs.env_at 6, Request.release "k" none) ∷ []) (Inputs.env_at 7) none none
      (answered "k" committed_hash) (omega arith) refl refl refl (λ q. cc) (omega arith, tt) refl

in_flight_never_expires_example : (answered "k" in_flight_hash).state ≡ State.in_flight
unfolding lookup insert redis_with
in_flight_never_expires_example =
    in_flight_never_expires "eo:" 60 store_unavailable no_keys
      ((Inputs.env_at 1, Request.claim "k" none none) ∷ []) (Inputs.env_at 900) "k" none none
      in_flight_hash (answered "k" in_flight_hash) refl refl refl
