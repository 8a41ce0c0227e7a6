-- ===== src/Core/Wrapper/Laws.antt =====
-- A wrapped call once its key and fingerprint are known, and where there is no key.
use exactly_once.Prelude.{◌≡◌, refl, String, Option, none, some, List, Bool-cases, inl, inr}
use exactly_once.Errors.{ok, err, type_error, unstable_key, value_error}
use exactly_once.Dict.{Dict}
use exactly_once.Values.{Value, null}
use exactly_once.Keys.{Builtins, payload, derive_key, normalize_args, resolve_key, own_key}
use exactly_once.Keys.Laws.{derive_key-Reordered}
use exactly_once.Keys.Sorting.{Reordered}
use exactly_once.Program.{raise}
use exactly_once.Core.Run.{run}
use exactly_once.Core.Guards.{Stack}
use exactly_once.Core.Wrapper.{
  Settings, Callable, key_of, fp_of, wrapper, awrapper, decorated, enter_block, aenter_block,
  require_cm_key,
}

module _ {C : Type 0} {R : C → Type 0} (py : Builtins) (self : Settings R) where
  pub wrapper_lem :
      (func : Callable R) (args : List Value) (kwargs : Dict Value) (key : String)
      (fp : Option String)
      → key_of py self (some func.about) args kwargs ≡ ok key
      → fp_of py self args kwargs ≡ ok fp
      → wrapper py self func args kwargs ≡ run null self.once (func.body args kwargs) key fp
  unfolding wrapper
  wrapper_lem func args kwargs key fp k f = rw (k, wrapper) (rw (f, wrapper) refl)

  pub key_of-Reordered :
      (func : Callable R) (args : List Value) {d e : Dict Value}
      → self.key ≡ none
      → Reordered d e
      → key_of py self (some func.about) args d ≡ key_of py self (some func.about) args e
  unfolding key_of own_key
  key_of-Reordered func args k r =
      rw (k, resolve_key, own_key)
        (rw (derive_key-Reordered py (some func.about) args self.once.codec r) refl)

  -- A call whose key is derived and whose arguments the codec cannot encode is the raise of
  -- UnstableKeyError: no key is made up, and neither the store nor the wrapped callable is called.
  pub unstable_call_raises :
      (func : Callable R) (args : List Value) (kwargs : Dict Value)
      → self.key ≡ none
      → self.once.codec.encode (payload args kwargs) ≡ err type_error
      → decorated py self func args kwargs ≡ raise unstable_key
  unfolding decorated wrapper awrapper key_of own_key derive_key normalize_args
  unstable_call_raises func args kwargs k e = elim (Bool-cases func.is_coroutine) [
    | inl c ↦
        rw (c, decorated) (rw (k, awrapper, key_of, resolve_key, own_key) (rw (e, derive_key) refl))
    | inr c ↦
        rw (c, decorated) (rw (k, wrapper, key_of, resolve_key, own_key) (rw (e, derive_key) refl))
  ]

  -- A block with no key is the raise of ValueError, in both forms.
  pub keyless_block_raises :
      (stack : Stack Value)
      → self.key ≡ none
      → (enter_block py self stack ≡ raise value_error)
        × (aenter_block py self stack ≡ raise value_error)
  unfolding enter_block aenter_block require_cm_key
  keyless_block_raises stack k =
      (rw (k, enter_block, require_cm_key) refl, rw (k, aenter_block, require_cm_key) refl)
