-- ===== src/Workers/Pool.antt =====
-- What the programs under way may still spend, together.
use exactly_once.Prelude.{ℕ, ◌+◌, ◌≤◌, String, List, [], ◌∷◌, ◌++◌, arith}
use exactly_once.Program.{Program}
use exactly_once.Workers.{Rules}
use exactly_once.Workers.Spends.{Spends}

module _ {C : Type 0} {R : C → Type 0} {V : Type 0} (k : String) (rules : Rules C) where
  abbrev pub Affords : ℕ → Program R V → Type 0
  Affords n p = Spends k rules n p (λ _ _. Unit)

  abbrev pub Pool : ℕ → List (Program R V) → Type 0
  Pool n [] = Unit
  Pool n (p ∷ ps) = (m : ℕ) × (r : ℕ) × Affords m p × Pool r ps × (m + r ≤ n)

  -- The share of one program, and what is left to the others.
  pub Pool-split :
      (n : ℕ) (pre : List (Program R V)) (p : Program R V) (post : List (Program R V))
      → Pool n (pre ++ (p ∷ post))
      → (m : ℕ) × (r : ℕ) × Affords m p × Pool r (pre ++ post) × (m + r ≤ n)
  Pool-split n [] p post h = h
  Pool-split n (q ∷ pre) p post (m₀, r₀, sq, pool, le) =
      let (m, r, sp, rest, le') = Pool-split r₀ pre p post pool in
      (m, m₀ + r, sp, (m₀, r, sq, rest, omega arith), omega arith)

  pub Pool-insert :
      (m r : ℕ) (pre : List (Program R V)) (p : Program R V) (post : List (Program R V))
      → Affords m p
      → Pool r (pre ++ post)
      → Pool (m + r) (pre ++ (p ∷ post))
  Pool-insert m r [] p post sp h = (m, r, sp, h, omega arith)
  Pool-insert m r (q ∷ pre) p post sp (m₀, r₀, sq, pool, le) =
      (m₀, m + r₀, sq, Pool-insert m r₀ pre p post sp pool, omega arith)
