-- ===== src/Sequence/Wrapped.antt =====
-- Calls of one decorated function, one after the other, with derived keys.
use exactly_once.Prelude.{◌+◌, ◌≡◌, sym, ◌∙◌, String, false, Option, none, some, List, Bytes}
use exactly_once.Errors.{ok}
use exactly_once.Dict.{Dict, lookup}
use exactly_once.Values.{Value, null}
use exactly_once.Keys.{Builtins}
use exactly_once.Keys.Sorting.{Reordered}
use exactly_once.Stores.Memory.{MemoryStore, memory}
use exactly_once.Core.{differs}
use exactly_once.Core.Wrapper.{Settings, Callable, key_of, fp_of, wrapper}
use exactly_once.Core.Wrapper.Laws.{wrapper_lem, key_of-Reordered}
use exactly_once.Sequence.{World, Outside, exec}
use exactly_once.Sequence.Twice.{replays_first_result}
use exactly_once.Workers.Spends.{IsExternal}

module _ {C : Type 0} {R : C → Type 0} (py : Builtins) (outside : Outside R) where
  -- A function that is decorated with no key: once a call that met no record under its derived key
  -- has returned a value, the call with the same arguments, its keyword arguments in any other
  -- order, returns that value, if the codec gives it back and the fingerprints of the two calls
  -- do not differ. It makes no call of the function and leaves the store alone.
  pub wrapped_call_replays :
      (self : Settings R) (func : Callable R) (args : List Value) {d e : Dict Value} (key : String)
      (fp fp' : Option String) (w : World C MemoryStore) (v : Value)
      → self.key ≡ none
      → Reordered d e
      → key_of py self (some func.about) args d ≡ ok key
      → fp_of py self args d ≡ ok fp
      → fp_of py self args e ≡ ok fp'
      → differs fp fp' ≡ false
      → IsExternal (func.body args d)
      → lookup key w.state ≡ none
      → (exec memory outside (wrapper py self func args d) w).0 ≡ ok v
      → ((b : Bytes) → self.once.codec.encode v ≡ ok b → self.once.codec.decode b ≡ ok v)
      → let w' = (exec memory outside (wrapper py self func args d) w).1 in
        exec memory outside (wrapper py self func args e) w'
        ≡ (ok v, record w' { tick = w'.tick + 1 })
  wrapped_call_replays self func args {d} {e} key fp fp' w v none_given r k f f' same h absent
        returned back =
      let k' = sym (key_of-Reordered py self func args none_given r) ∙ k in
      let first = wrapper_lem py self func args d key fp k f in
      let second = wrapper_lem py self func args e key fp' k' f' in
      rw first (
        rw second (
          replays_first_result outside null self.once self.once (func.body args d)
            (func.body args e) key fp fp' w v h absent (rw (← first) returned) back same))
