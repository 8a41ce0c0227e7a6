-- ===== src/Workers/Spends.antt =====
-- How often a program may fire the effect: each time is paid for by a claim of the key `k` that was
-- answered FRESH, or that found the store down where callers may run on, whatever the calls answer.
use exactly_once.Prelude.{ℕ, ◌+◌, ◌-◌, ◌≤◌, ◌≡◌, refl, String, false, ◌&&◌, not, arith}
use exactly_once.Errors.{Exception, Result, ok, err}
use exactly_once.Program.{Op, Reply, Program, done, op, attempt, ◌>>=◌}
use exactly_once.Workers.{Rules, FiresAtMost, one_if, credits, fires, releases}

-- What holds of an outcome that `attempt` gives as a value.
abbrev pub Held : {A : Type 0} → (ℕ → Result A → Type 0) → ℕ → Result (Result A) → Type 0
Held P n (ok r) = P n r
Held P n (err e) = ⊥

-- `rules` tells whether the program may call `release` on the key.
module _ {C : Type 0} {R : C → Type 0} (k : String) (rules : Rules C) where
  abbrev pub Spends : {A : Type 0} → ℕ → Program R A → (ℕ → Result A → Type 0) → Type 0
  Spends n (done r) Q = Q n r
  Spends n (op o f) Q =
      (fires rules o ≤ n)
      × (releases k o && not rules.may_release ≡ false)
      × ((r : Reply R o) → Spends (n - fires rules o + credits k rules R o r) (f r) Q)

  pub Spends-bind :
      {A B : Type 0} (n : ℕ) (m : Program R A) (f : A → Program R B) (P : ℕ → Result A → Type 0)
      (Q : ℕ → Result B → Type 0)
      → Spends n m P
      → ((n' : ℕ) (a : A) → P n' (ok a) → Spends n' (f a) Q)
      → ((n' : ℕ) (e : Exception) → P n' (err e) → Q n' (err e))
      → Spends n (m >>= f) Q
  Spends-bind n (done (ok a)) f P Q h k₁ k₂ = k₁ n a h
  Spends-bind n (done (err e)) f P Q h k₁ k₂ = k₂ n e h
  Spends-bind n (op o g) f P Q h k₁ k₂ = (
    h.0,
    h.1,
    λ r. Spends-bind (n - fires rules o + credits k rules R o r) (g r) f P Q (h.2 r) k₁ k₂,
  )

  -- What is not spent can be left over: more to spend does no harm.
  Spends-weaken :
      {A : Type 0} (n : ℕ) (m : Program R A) (P Q : ℕ → Result A → Type 0)
      → Spends n m P
      → ((n' : ℕ) (r : Result A) → P n' r → Q n' r)
      → Spends n m Q
  Spends-weaken n (done r) P Q h w = w n r h
  Spends-weaken n (op o f) P Q h w =
      (h.0, h.1, λ r. Spends-weaken (n - fires rules o + credits k rules R o r) (f r) P Q (h.2 r) w)

  pub Spends-attempt :
      {A : Type 0} (n : ℕ) (m : Program R A) (P : ℕ → Result A → Type 0)
      → Spends n m P
      → Spends n (attempt m) (Held P)
  Spends-attempt n (done r) P h = h
  Spends-attempt n (op o f) P h =
      (h.0, h.1, λ r. Spends-attempt (n - fires rules o + credits k rules R o r) (f r) P (h.2 r))

-- A program that fires no effect, and releases it only where that is allowed.
module _ {C : Type 0} {R : C → Type 0} (k : String) (rules : Rules C) where
  abbrev pub IsQuiet : {A : Type 0} → Program R A → Type 0
  IsQuiet (done r) = Unit
  IsQuiet (op o f) =
      (fires rules o ≡ 0)
      × (releases k o && not rules.may_release ≡ false)
      × ((r : Reply R o) → IsQuiet (f r))

  pub bind-IsQuiet :
      {A B : Type 0} (m : Program R A) (f : A → Program R B)
      → IsQuiet m
      → ((a : A) → IsQuiet (f a))
      → IsQuiet (m >>= f)
  bind-IsQuiet (done (ok a)) f h hf = hf a
  bind-IsQuiet (done (err e)) f h hf = tt
  bind-IsQuiet (op o g) f h hf = (h.0, h.1, λ r. bind-IsQuiet (g r) f (h.2 r) hf)

  pub attempt-IsQuiet : {A : Type 0} (m : Program R A) → IsQuiet m → IsQuiet (attempt m)
  attempt-IsQuiet (done r) h = tt
  attempt-IsQuiet (op o f) h = (h.0, h.1, λ r. attempt-IsQuiet (f r) (h.2 r))

  pub IsQuiet-Spends :
      {A : Type 0} (n : ℕ) (m : Program R A) (lo : ℕ)
      → lo ≤ n
      → IsQuiet m
      → Spends k rules n m (λ n' _. lo ≤ n')
  IsQuiet-Spends n (done r) lo le h = le
  IsQuiet-Spends n (op o f) lo le h = (
    omega (arith, h.0),
    h.1,
    λ r.
        IsQuiet-Spends (n - fires rules o + credits k rules R o r) (f r) lo (omega (arith, h.0))
          (h.2 r),
  )

  -- At the end of a program what is left does not matter.
  pub IsQuiet-end :
      {A : Type 0} (n : ℕ) (m : Program R A) → IsQuiet m → Spends k rules n m (λ _ _. Unit)
  IsQuiet-end n m h =
      Spends-weaken k rules n m (λ n' _. 0 ≤ n') (λ _ _. Unit)
        (IsQuiet-Spends n m 0 (omega arith) h) (λ n' r p. tt)

-- The caller's own code: it makes calls of its own, and asks for the current key at most.
abbrev pub IsExternal : {C : Type 0} {R : C → Type 0} {A : Type 0} → Program R A → Type 0
IsExternal (done r) = Unit
IsExternal (op (Op.extern c) f) = (r : _) → IsExternal (f r)
IsExternal (op Op.get_current_key f) = (r : _) → IsExternal (f r)
IsExternal (op _ f) = ⊥

module _ {C : Type 0} {R : C → Type 0} {A : Type 0} (k : String) (rules : Rules C) where
  -- The caller's own code that never fires the effect is quiet.
  pub FiresAtMost-IsQuiet :
      (n : ℕ) (m : Program R A) → n ≤ 0 → FiresAtMost rules n m → IsQuiet k rules m
  FiresAtMost-IsQuiet n (done r) le h = tt
  FiresAtMost-IsQuiet n (op (Op.extern c) f) le h = (
    omega (arith, h.0, le),
    refl,
    λ r. FiresAtMost-IsQuiet (n - one_if (rules.is_effect c)) (f r) (omega (arith, le)) (h.1 r),
  )
  FiresAtMost-IsQuiet n (op Op.get_current_key f) le h =
      (refl, refl, λ r. FiresAtMost-IsQuiet n (f r) le (h r))
  FiresAtMost-IsQuiet n (op _ f) le h = absurd h

  -- The caller's own code spends what it fires.
  pub FiresAtMost-Spends :
      (n m : ℕ) (p : Program R A) → m ≤ n → FiresAtMost rules m p → Spends k rules n p (λ _ _. Unit)
  FiresAtMost-Spends n m (done r) le h = tt
  FiresAtMost-Spends n m (op (Op.extern c) f) le h = (
    omega (arith, h.0, le),
    refl,
    λ r.
        FiresAtMost-Spends (n - one_if (rules.is_effect c) + 0) (m - one_if (rules.is_effect c))
          (f r) (omega (arith, le)) (h.1 r),
  )
  FiresAtMost-Spends n m (op Op.get_current_key f) le h =
      (omega arith, refl, λ r. FiresAtMost-Spends (n - 0 + 0) m (f r) (omega (arith, le)) (h r))
  FiresAtMost-Spends n m (op _ f) le h = absurd h
