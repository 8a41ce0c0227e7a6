-- ===== src/Stores/Postgres/Retries.antt =====
-- The retries of a serializable transaction: how `_tx` and the loop of `aclaim` end.
use exactly_once.Prelude.{ℕ, zero, suc, ◌+◌, ◌<◌, ◌≡◌, refl, ap, ◌∙◌, ◌⊎◌, inl, inr, arith}
use exactly_once.Errors
use exactly_once.Errors.{Result, ok, err, store_unavailable, operational_error, runtime_error}
use exactly_once.Stores.Base.{Attempt}
use exactly_once.Stores.Effects.{Table}
use exactly_once.Stores.Postgres.{tx, atx, once_tx}

Attempt-cases :
    (a : Attempt)
    → (a ≡ Attempt.commits)
      ⊎ ((a ≡ Attempt.serialization_failure)
          ⊎ ((a ≡ Attempt.connection_lost) ⊎ (a ≡ Attempt.lost_after)))
Attempt-cases Attempt.commits = inl refl
Attempt-cases Attempt.serialization_failure = inr (inl refl)
Attempt-cases Attempt.connection_lost = inr (inr (inl refl))
Attempt-cases Attempt.lost_after = inr (inr (inr refl))

-- A transaction that was run in one piece and answered, that was run in one piece though the caller
-- got an exception, or that left no trace; the two last with one of the exceptions `IsError`.
module _ {A : Type 0} (IsError : Errors.Exception → Type 0) (body : Table → A × Table)
    (db : Table) where
  pub data Ends : Result A × Table → Type 0 where
    commits : Ends (ok (body db).0, (body db).1)
    unanswered : (e : Errors.Exception) → IsError e → Ends (err e, (body db).1)
    rolled_back : (e : Errors.Exception) → IsError e → Ends (err e, db)

abbrev pub IsTxError : Errors.Exception → Type 0
IsTxError e = (e ≡ Errors.Exception.serialization_failure) ⊎ (e ≡ store_unavailable)

abbrev pub IsRawError : Errors.Exception → Type 0
IsRawError e = (e ≡ Errors.Exception.serialization_failure) ⊎ (e ≡ operational_error)

module _ {A : Type 0} (attempt : ℕ → Attempt) (body : Table → A × Table) (db : Table) where
  -- With a try left, `_tx` runs its body at most once to the end: it answers, or raises a
  -- serialization failure or StoreUnavailableError, and never its RuntimeError.
  pub tx-Ends : (n left : ℕ) → Ends IsTxError body db (tx attempt n (suc left) body db)
  unfolding tx
  tx-Ends n zero = elim (Attempt-cases (attempt n)) [
    | inl e ↦ rw (e, tx) commits
    | inr (inl e) ↦ rw (e, tx) (rolled_back Errors.Exception.serialization_failure (inl refl))
    | inr (inr (inl e)) ↦ rw (e, tx) (rolled_back store_unavailable (inr refl))
    | inr (inr (inr e)) ↦ rw (e, tx) (unanswered store_unavailable (inr refl))
  ]
  tx-Ends n (suc k) = elim (Attempt-cases (attempt n)) [
    | inl e ↦ rw (e, tx) commits
    | inr (inl e) ↦ rw (e, tx) (tx-Ends (suc n) k)
    | inr (inr (inl e)) ↦ rw (e, tx) (rolled_back store_unavailable (inr refl))
    | inr (inr (inr e)) ↦ rw (e, tx) (unanswered store_unavailable (inr refl))
  ]

  -- The loop of `aclaim` ends in the same ways, but a lost connection is an OperationalError.
  pub atx-Ends : (n left : ℕ) → Ends IsRawError body db (atx attempt n (suc left) body db)
  unfolding atx
  atx-Ends n zero = elim (Attempt-cases (attempt n)) [
    | inl e ↦ rw (e, atx) commits
    | inr (inl e) ↦ rw (e, atx) (rolled_back Errors.Exception.serialization_failure (inl refl))
    | inr (inr (inl e)) ↦ rw (e, atx) (rolled_back operational_error (inr refl))
    | inr (inr (inr e)) ↦ rw (e, atx) (unanswered operational_error (inr refl))
  ]
  atx-Ends n (suc k) = elim (Attempt-cases (attempt n)) [
    | inl e ↦ rw (e, atx) commits
    | inr (inl e) ↦ rw (e, atx) (atx-Ends (suc n) k)
    | inr (inr (inl e)) ↦ rw (e, atx) (rolled_back operational_error (inr refl))
    | inr (inr (inr e)) ↦ rw (e, atx) (unanswered operational_error (inr refl))
  ]

  pub once_tx-Ends : (a : Attempt) → Ends IsRawError body db (once_tx a body db)
  unfolding once_tx
  once_tx-Ends Attempt.commits = commits
  once_tx-Ends Attempt.serialization_failure =
      rolled_back Errors.Exception.serialization_failure (inl refl)
  once_tx-Ends Attempt.connection_lost = rolled_back operational_error (inr refl)
  once_tx-Ends Attempt.lost_after = unanswered operational_error (inr refl)

  here : {n : ℕ} {a : Attempt} → attempt (0 + n) ≡ a → attempt n ≡ a
  here {n} e = ap attempt (omega arith) ∙ e

  -- If `k` attempts fail to serialize, fewer than the tries that are left, and the next one commits,
  -- the transaction answers what its body does.
  pub tx-retries :
      (n left k : ℕ)
      → ((i : ℕ) → i < k → attempt (i + n) ≡ Attempt.serialization_failure)
      → attempt (k + n) ≡ Attempt.commits
      → k < left
      → tx attempt n left body db ≡ (ok (body db).0, (body db).1)
  unfolding tx
  tx-retries n zero k fails done h = absurd (omega arith)
  tx-retries n (suc left) zero fails done h = rw (here done, tx) refl
  tx-retries n (suc zero) (suc k) fails done h = absurd (omega (arith, h))
  tx-retries n (suc (suc left)) (suc k) fails done h =
      rw (here (fails 0 (omega (arith, h))), tx)
        (tx-retries (suc n) (suc left) k
          (λ i lt. ap attempt (omega arith) ∙ fails (suc i) (omega (arith, lt)))
          (ap attempt (omega arith) ∙ done) (omega (arith, h)))

-- What holds of the table before and after a body holds however its transaction ends.
module _ {A : Type 0} (IsError : Errors.Exception → Type 0) (body : Table → A × Table) where
  pub Ends-both :
      {db : Table} {r : Result A × Table} (P : Table → Type 0)
      → P db
      → P (body db).1
      → Ends IsError body db r
      → P r.1
  Ends-both P p q commits = q
  Ends-both P p q (unanswered e h) = q
  Ends-both P p q (rolled_back e h) = p

  pub Ends-ok :
      {db : Table} {r : Result A × Table} (a : A)
      → Ends IsError body db r
      → r.0 ≡ ok a
      → (ok (body db).0 ≡ r.0) × (r.1 ≡ (body db).1)
  Ends-ok a commits h = (refl, refl)
  Ends-ok a (unanswered e x) h = absurd (cc)
  Ends-ok a (rolled_back e x) h = absurd (cc)
