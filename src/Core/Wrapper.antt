-- ===== src/Core/Wrapper.antt =====
-- `once` of src/exactly_once/core.py with the specs of its key and its fingerprint: the wrappers that
-- `__call__` returns, and the context manager from its key on.
pub mod Laws
use exactly_once.Prelude.{ℕ, String, Bool, true, false, Option, none, some, List, []}
use exactly_once.Errors.{Result, ok, err, value_error}
use exactly_once.Dict.{Dict}
use exactly_once.Values.{Value, null}
use exactly_once.Keys.{
  Builtins, Function, KeySpec, FingerprintSpec, resolve_key, compute_fingerprint,
}
use exactly_once.Program.{Program, from_result, ◌>>=◌}
use exactly_once.Core.Defs.{Once}
use exactly_once.Core.Run.{run}
use exactly_once.Core.Arun.{arun}
use exactly_once.Core.Guards.{Guard, Stack, enter}
use exactly_once.Core.Aguards.{aenter}

-- What `__init__` sets.
pub record Settings {C : Type 0} (R : C → Type 0) : Type 0 where
  pub key : Option KeySpec
  pub fingerprint : Option FingerprintSpec
  pub namespace : Option String
  pub once : Once R Value

-- The callable that is wrapped: its attributes, whether it is a coroutine function, and its body.
pub record Callable {C : Type 0} (R : C → Type 0) : Type 0 where
  pub about : Function
  pub is_coroutine : Bool
  pub body : List Value → Dict Value → Program R Value

module _ {C : Type 0} {R : C → Type 0} (py : Builtins) (self : Settings R) where
  -- `_resolve_key`
  unfoldable pub key_of : Option Function → List Value → Dict Value → Result String
  unfolding resolve_key
  key_of func args kwargs = resolve_key py self.key func args kwargs self.namespace self.once.codec

  -- `_fp`
  unfoldable pub fp_of : List Value → Dict Value → Result (Option String)
  unfolding compute_fingerprint
  fp_of args kwargs = compute_fingerprint py self.fingerprint args kwargs self.once.codec

  -- `_require_cm_key`
  unfoldable pub require_cm_key : Result String
  unfolding key_of
  require_cm_key = elim self.key [ none ↦ err value_error | some _ ↦ key_of none [] [] ]

  unfoldable pub wrapper : Callable R → List Value → Dict Value → Program R Value
  unfolding key_of fp_of run
  wrapper func args kwargs = do
    key ← from_result (key_of (some func.about) args kwargs)
    fp ← from_result (fp_of args kwargs)
    run null self.once (func.body args kwargs) key fp

  unfoldable pub awrapper : Callable R → List Value → Dict Value → Program R Value
  unfolding key_of fp_of arun
  awrapper func args kwargs = do
    key ← from_result (key_of (some func.about) args kwargs)
    fp ← from_result (fp_of args kwargs)
    arun null self.once (func.body args kwargs) key fp

  -- A call of what `__call__` returns.
  unfoldable pub decorated : Callable R → List Value → Dict Value → Program R Value
  unfolding wrapper awrapper
  decorated func args kwargs = elim func.is_coroutine [
    | true ↦ awrapper func args kwargs
    | false ↦ wrapper func args kwargs
  ]

  -- `__enter__` and `__aenter__`
  unfoldable pub enter_block : Stack Value → Program R (Guard Value × Stack Value)
  unfolding require_cm_key fp_of enter
  enter_block stack = do
    key ← from_result require_cm_key
    fp ← from_result (fp_of [] [])
    enter null self.once key fp stack

  unfoldable pub aenter_block : Stack Value → Program R (Guard Value × Stack Value)
  unfolding require_cm_key fp_of aenter
  aenter_block stack = do
    key ← from_result require_cm_key
    fp ← from_result (fp_of [] [])
    aenter null self.once key fp stack
