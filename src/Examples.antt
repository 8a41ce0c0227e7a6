-- ===== src/Examples.antt =====
-- The demonstrations of src/examples: what they share. Printing is left out, and so is what only
-- printing reads; `str_of` is Python's `str` of a value.
pub mod Payment
pub mod Crash
pub mod Email
use exactly_once.Prelude.{
  ℕ, String, Option, none, some, List, [], ◌∷◌, str_eq, str_append, if◌then◌else◌, ◌+◌,
}
use exactly_once.Errors.{Exception, Result, ok, err, ◌>>=◌, effect_raised, type_error}
use exactly_once.Codec.{Codec}
use exactly_once.Dict.{Dict, lookup}
use exactly_once.Values.{Value, text, int, obj, field, end_fields, get_field}
use exactly_once.Keys.{KeySpec, Function}
use exactly_once.Policies.{Policy}
use exactly_once.Core.{Once, OnStoreDown, interval_of}
use exactly_once.Core.Wrapper.{Settings}
use exactly_once.Stores.{Env}
use exactly_once.Sequence.{World, Outside}

-- Exceptions of the demonstrations' own code.
abbrev pub key_error : Exception
key_error = effect_raised 1

abbrev pub assertion_error : Exception
assertion_error = effect_raised 2

-- `d[name]`
abbrev pub item_of : String → Value → Result Value
item_of name (obj d) = elim (get_field name d) [ none ↦ err key_error | some v ↦ ok v ]
item_of name _ = err type_error

-- The argument of a function with the one parameter `name`.
abbrev pub bound : String → List Value → Dict Value → Result Value
bound name (v ∷ []) [] = ok v
bound name [] ((k, v) ∷ []) = if str_eq k name then ok v else err type_error
bound name _ _ = err type_error

-- The argument of a function with the parameters `name` and `**_`.
abbrev pub bound_first : String → List Value → Dict Value → Result Value
bound_first name (v ∷ []) kwargs = elim (lookup name kwargs) [
  | none ↦ ok v
  | some _ ↦ err type_error
]
bound_first name [] kwargs = elim (lookup name kwargs) [ none ↦ err type_error | some v ↦ ok v ]
bound_first name _ kwargs = err type_error

-- `f"charge:{order['id']}"`
unfoldable pub charge_key : (Value → String) → Result Value → Result Value
charge_key str_of bound_order = do
  order ← bound_order
  id ← item_of "id" order
  ok (text (str_append "charge:" (str_of id)))

-- `{"id": f"ch_{n}", "customer": customer, "amount": amount}`
abbrev pub charge_dict : (Value → String) → ℕ → Value → Value → Value
charge_dict str_of n customer amount = obj (
    field "id" (text (str_append "ch_" (str_of (int n))))
      (field "customer" customer (field "amount" amount end_fields)))

-- The attributes of the function `name` in a script, by its qualified name.
abbrev pub local_function : String → String → Function
local_function name qualname = record {
  qualname = some qualname;
  name = some name;
  module_ = some "__main__";
  code = none;
}

module _ {C : Type 0} {R : C → Type 0} where
  -- `once(store, key=…, policy=…)`, with the defaults of `__init__` for the rest.
  abbrev pub once : KeySpec → Policy R Value → Codec Value → Settings R
  once key policy codec = record {
    key = some key;
    fingerprint = none;
    namespace = none;
    once = record {
      policy = policy;
      codec = codec;
      on_store_down = OnStoreDown.fail;
      lease_ttl = none;
      heartbeat_interval = interval_of none none;
    };
  }

  -- A service in memory: it answers a call by those that were made before, and never raises.
  abbrev pub served : (ℕ → Env) → (List C → (c : C) → R c) → Outside R
  served env reply = record {
    env = env;
    answer = λ n past c. ok (reply past c);
    beat_end = λ n. ok tt;
  }

-- The start of a program, with a store in the given state.
abbrev pub launched : {C S : Type 0} → S → World C S
launched s = record { state = s; current = none; calls = []; tick = 0 }
