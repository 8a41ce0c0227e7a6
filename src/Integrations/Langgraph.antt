-- ===== src/Integrations/Langgraph.antt =====
-- src/exactly_once/integrations/langgraph.py: a node of a graph, guarded under the run's thread.
use exactly_once.Prelude.{ℕ, String, false, Option, none, some, [], leb, str_append, if◌then◌else◌}
use exactly_once.Errors.{Result, ok, err, value_error}
use exactly_once.Codec.{Codec}
use exactly_once.Values.{Value, null, obj, get_field}
use exactly_once.Keys.{Builtins, KeySpec}
use exactly_once.Policies.{Policy}
use exactly_once.Program.{Program, from_result, ◌>>=◌}
use exactly_once.Core.{OnStoreDown, interval_of}
use exactly_once.Core.Wrapper.{Settings, Callable, decorated}

-- The argument `key`: a text, or a function of the state and the configuration.
pub data NodeKey : Type 0 where
  static : String → NodeKey
  extractor : (Value → Value → Result String) → NodeKey

-- A node: its `__name__`, the number of its parameters, and its body, which is given the
-- configuration if it wants it.
pub record Node {C : Type 0} (R : C → Type 0) : Type 0 where
  pub name : Option String
  pub parameters : ℕ
  pub body : Value → Option Value → Program R Value

-- The other arguments of `once_node`; `codec` is the default codec.
pub record Guarding {C : Type 0} (R : C → Type 0) : Type 0 where
  pub policy : Policy R Value
  pub lease_ttl : Option ℕ
  pub on_store_down : OnStoreDown
  pub codec : Codec Value

-- The object `once(store, key=k, …)` of a call.
abbrev pub settings_of : {C : Type 0} {R : C → Type 0} → Guarding R → String → Settings R
settings_of g k = record {
  key = some (KeySpec.static k);
  fingerprint = none;
  namespace = none;
  once = record {
    policy = g.policy;
    codec = g.codec;
    on_store_down = g.on_store_down;
    lease_ttl = g.lease_ttl;
    heartbeat_interval = interval_of none g.lease_ttl;
  };
}

-- The function `effect` that a call defines and runs.
abbrev pub effect : {C : Type 0} {R : C → Type 0} → Program R Value → Callable R
effect body = record {
  about = record { qualname = some "effect"; name = some "effect"; module_ = none; code = none };
  is_coroutine = false;
  body = λ args kwargs. body;
}

abbrev pub name_of : {C : Type 0} {R : C → Type 0} → Node R → String
name_of node = elim node.name [ none ↦ "node" | some n ↦ n ]

-- `show` is Python's `str`.
module _ (py : Builtins) (show : Value → String) where
  abbrev show_id : Option Value → Option String
  show_id none = none
  show_id (some null) = none
  show_id (some v) = some (show v)

  abbrev id_in : Option Value → Option String
  id_in (some (obj cfg)) = show_id (get_field "thread_id" cfg)
  id_in _ = none

  unfoldable pub thread_id : Value → Option String
  thread_id (obj config) = id_in (get_field "configurable" config)
  thread_id _ = none

  unfoldable pub resolve_node_key : Option NodeKey → Value → Value → String → Result String
  unfolding thread_id
  resolve_node_key (some (NodeKey.extractor f)) state config node_name = f state config
  resolve_node_key (some (NodeKey.static k)) state config node_name = ok k
  resolve_node_key none state config node_name = elim (thread_id config) [
    | none ↦ err value_error
    | some tid ↦ ok (str_append tid (str_append ":" node_name))
  ]

  abbrev pub run_node : {C : Type 0} {R : C → Type 0} → Node R → Value → Value → Program R Value
  run_node node state config = node.body state (if leb 2 node.parameters then some config else none)

  -- A call of the node that `once_node` returns.
  unfoldable pub once_node :
      {C : Type 0} {R : C → Type 0}
      → Option NodeKey
      → Guarding R
      → Node R
      → Value
      → Value
      → Program R Value
  unfolding resolve_node_key decorated
  once_node key g node state config = do
    k ← from_result (resolve_node_key key state config (name_of node))
    decorated py (settings_of g k) (effect (run_node node state config)) [] []
