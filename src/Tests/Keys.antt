-- ===== src/Tests/Keys.antt =====
-- Keys of calls, wrapped calls and the integrations, on concrete inputs.
use Prim.Native.String.{count}
use exactly_once.Prelude.{
  ℕ, ◌+◌, ◌≤◌, ◌≡◌, ◌≢◌, refl, none, some, [], ◌∷◌, String, false, Option, Bytes, arith, str_eq,
  eq_iff,
}
use exactly_once.Errors
use exactly_once.Errors.{Result, ok, err}
use exactly_once.Dict.{Dict, lookup, insert}
use exactly_once.Codec.{Codec}
use exactly_once.Values.{Value, null, int, text, opaque, arr, item, obj, field, end_fields}
use exactly_once.Program.{Op, Program, raise, pure, op}
use exactly_once.Workers.Spends.{IsExternal}
use exactly_once.Policies.{Policy}
use exactly_once.Core.{OnStoreDown}
use exactly_once.Keys.{Builtins, Function, derive_key}
use exactly_once.Keys.Sorting.{exchange, sort_by_name}
use exactly_once.Keys.Laws.{derived_key_bound}
use exactly_once.Core.Wrapper.{Settings, Callable, wrapper}
use exactly_once.Stores.Memory.{memory}
use exactly_once.Sequence.{exec}
use exactly_once.Sequence.Wrapped.{wrapped_call_replays}
use exactly_once.Integrations.Langgraph.{Guarding, Node, once_node, thread_id}
use exactly_once.Integrations.Crewai.{Tool}
use exactly_once.Integrations.Replay.{node_replays}
use exactly_once.Tests.Inputs
use exactly_once.Tests.Inputs.{paying, start_world}

abbrev py : Builtins
py = record {
  hexdigest = λ b. "0123456789abcdef0123456789abcdef0123456789abcdef";
  encode_text = λ s. some [];
  decode_text = λ b. some "{}";
  decimal = λ n. "7";
}

abbrev encode_value : Value → Result Bytes
encode_value (opaque n) = err Errors.type_error
encode_value (obj (field _ (arr (item (opaque n) _)) _)) = err Errors.type_error
encode_value _ = ok (7 ∷ [])

abbrev value_codec : Codec Value
value_codec = record { encode = encode_value; decode = λ b. ok (int 7) }

-- A function with no key of its own.
abbrev settings : Settings Inputs.Receipt
settings = record {
  key = none;
  fingerprint = none;
  namespace = some "billing";
  once = record {
    policy = Policy.quarantine none;
    codec = value_codec;
    on_store_down = OnStoreDown.fail;
    lease_ttl = none;
    heartbeat_interval = none;
  };
}

abbrev receipt : Result ℕ → Program Inputs.Receipt Value
receipt (ok n) = pure (int n)
receipt (err e) = raise e

abbrev pay_value : Program Inputs.Receipt Value
pay_value = op (Op.extern (Inputs.charge 50)) receipt

pay_value-IsExternal : (r : Result ℕ) → IsExternal (receipt r)
pay_value-IsExternal (ok n) = tt
pay_value-IsExternal (err e) = tt

abbrev charge_function : Function
charge_function = record {
  qualname = some "charge";
  name = some "charge";
  module_ = some "shop";
  code = none;
}

abbrev charging : Callable Inputs.Receipt
charging = record { about = charge_function; is_coroutine = false; body = λ args kwargs. pay_value }

other_text : (s t : String) → str_eq s t ≡ false → s ≢ t
other_text s t h e = ground (arith, eq_iff s t)

derived_key_bound_example :
    count "auto:charge:0123456789abcdef0123456789abcdef" ≤ count "charge" + 38
unfolding derive_key sort_by_name
derived_key_bound_example =
    derived_key_bound py (some charge_function) (int 5 ∷ []) [] value_codec
      "auto:charge:0123456789abcdef0123456789abcdef" refl

-- The call with its keyword arguments exchanged makes no second charge.
wrapped_call_replays_example :
    let call : Dict Value → Program Inputs.Receipt Value = wrapper py settings charging [] in
    let w' = (exec memory paying (call (("a", int 1) ∷ (("b", int 2) ∷ []))) start_world).1 in
    exec memory paying (call (("b", int 2) ∷ (("a", int 1) ∷ []))) w'
    ≡ (ok (int 7), record w' { tick = w'.tick + 1 })
unfolding exec wrapper memory lookup insert sort_by_name
wrapped_call_replays_example =
    wrapped_call_replays py paying settings charging []
      "billing:auto:charge:0123456789abcdef0123456789abcdef" none none start_world (int 7) refl
      (exchange "a" "b" (int 1) (int 2) [] (other_text "a" "b" refl)) refl refl refl refl
      pay_value-IsExternal refl refl (λ b h. refl)

abbrev show : Value → String
show v = "9"

abbrev guarding : Guarding Inputs.Receipt
guarding = record {
  policy = Policy.quarantine none;
  lease_ttl = none;
  on_store_down = OnStoreDown.fail;
  codec = value_codec;
}

abbrev node : Node Inputs.Receipt
node = record { name = some "pay"; parameters = 1; body = λ state config. pay_value }

-- The configuration of a run in the thread that is given.
abbrev in_thread : Value → Value
in_thread tid = obj (field "configurable" (obj (field "thread_id" tid end_fields)) end_fields)

node_replays_example :
    let w' =
      (exec memory paying
        (once_node py show none guarding node null (in_thread (int 9)))
        start_world).1 in
    exec memory paying (once_node py show none guarding node (int 2) (in_thread (text "9"))) w'
    ≡ (ok (int 7), record w' { tick = w'.tick + 1 })
unfolding exec once_node memory lookup insert thread_id
node_replays_example =
    node_replays py show guarding paying node null (int 2) (in_thread (int 9))
      (in_thread (text "9")) "9" start_world (int 7) refl refl pay_value-IsExternal refl refl
      (λ b h. refl)

abbrev dumps : Value → Option String
dumps v = some "{}"

abbrev tool : Tool Inputs.Receipt
tool = record { name = none; class_name = "Mailer"; run_method = λ args kwargs. pay_value }
