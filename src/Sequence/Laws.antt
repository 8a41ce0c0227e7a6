-- ===== src/Sequence/Laws.antt =====
-- `exec` step by step.
use exactly_once.Prelude.{◌≡◌, refl, ap, ◌∙◌}
use exactly_once.Errors.{Result, ok, err}
use exactly_once.Program.{Op, Program, done, op, attempt, ◌>>=◌}
use exactly_once.Stores.{Store}
use exactly_once.Sequence.{World, Outside, handle, exec}
use exactly_once.Workers.Spends.{IsExternal}

module _ {C : Type 0} {R : C → Type 0} {S : Type 0} (store : Store S) (outside : Outside R) where
  -- The rest of a program after its first part.
  abbrev pub continue :
      {A B : Type 0} → (A → Program R B) → Result A × World C S → Result B × World C S
  continue f (ok a, w) = exec store outside (f a) w
  continue f (err e, w) = (err e, w)

  pub exec-bind :
      {A B : Type 0} (m : Program R A) (f : A → Program R B) (w : World C S)
      → exec store outside (m >>= f) w ≡ continue f (exec store outside m w)
  unfolding exec
  exec-bind (done (ok a)) f w = refl
  exec-bind (done (err e)) f w = refl
  exec-bind (op o g) f w = let (r, w') = handle store outside o w in exec-bind (g r) f w'

  -- A part that returns, and the rest from there.
  pub exec-then :
      {A B : Type 0} (m : Program R A) (f : A → Program R B) (w : World C S) {w' : World C S}
      {a : A}
      → exec store outside m w ≡ (ok a, w')
      → exec store outside (m >>= f) w ≡ exec store outside (f a) w'
  exec-then m f w e = exec-bind m f w ∙ ap (continue f) e

  pub exec-attempt :
      {A : Type 0} (m : Program R A) (w : World C S)
      → let (r, w') = exec store outside m w in exec store outside (attempt m) w ≡ (ok r, w')
  unfolding exec
  exec-attempt (done r) w = refl
  exec-attempt (op o g) w = let (r, w') = handle store outside o w in exec-attempt (g r) w'

  -- The caller's own code leaves the store and the current key alone.
  pub exec-external :
      {A : Type 0} (m : Program R A) (w : World C S)
      → IsExternal m
      → let w' = (exec store outside m w).1 in (w'.state ≡ w.state) × (w'.current ≡ w.current)
  unfolding exec
  exec-external (done r) w h = (refl, refl)
  exec-external (op (Op.extern c) f) w h =
      let (r, w') = handle store outside (Op.extern c) w in exec-external (f r) w' (h r)
  exec-external (op Op.get_current_key f) w h =
      let (r, w') = handle store outside Op.get_current_key w in exec-external (f r) w' (h r)
  exec-external (op _ f) w h = absurd h
