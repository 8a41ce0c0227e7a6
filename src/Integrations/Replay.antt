-- ===== src/Integrations/Replay.antt =====
-- What the wrappers of the integrations do with their keys, and their replays over the memory store.
use exactly_once.Prelude.{
  ◌+◌, ◌≡◌, refl, sym, ◌∙◌, String, Option, none, some, List, [], Bytes, str_append,
}
use exactly_once.Errors.{ok, ok-inj, value_error}
use exactly_once.Dict.{Dict, lookup}
use exactly_once.Values.{Value, null}
use exactly_once.Keys.{Builtins}
use exactly_once.Keys.Laws.{HasNoColon, joined_apart}
use exactly_once.Program.{Program, raise}
use exactly_once.Stores.Memory.{MemoryStore, memory}
use exactly_once.Core.Run.{run}
use exactly_once.Core.Wrapper.{decorated}
use exactly_once.Sequence.{World, Outside, exec}
use exactly_once.Sequence.Twice.{replays_first_result}
use exactly_once.Workers.Spends.{IsExternal}
use exactly_once.Integrations.Langgraph.{
  Guarding, Node, settings_of, effect, name_of, run_node, thread_id, resolve_node_key, once_node,
}
use exactly_once.Integrations.Crewai.{Tool, tool_payload, resolve_tool_key, once_tool_run}

guarded_lem :
    {C : Type 0} {R : C → Type 0} (py : Builtins) (g : Guarding R) (k : String)
    (body : Program R Value)
    → decorated py (settings_of g k) (effect body) [] []
      ≡ run null (settings_of g k).once body k none
unfolding decorated
guarded_lem py g k body = refl

module _ {C : Type 0} {R : C → Type 0} (py : Builtins) (show : Value → String)
    (g : Guarding R) where
  node_lem :
      (node : Node R) (state config : Value) (tid : String)
      → thread_id py show config ≡ some tid
      → let k = str_append tid (str_append ":" (name_of node)) in
        once_node py show none g node state config
        ≡ run null (settings_of g k).once (run_node py show node state config) k none
  unfolding once_node resolve_node_key
  node_lem node state config tid e =
      rw (e, once_node, resolve_node_key)
        (guarded_lem py g (str_append tid (str_append ":" (name_of node)))
          (run_node py show node state config))

  -- A node with no key of its own in a run with no thread is the raise of ValueError: it does not run,
  -- and the store is not asked.
  pub threadless_node_raises :
      (node : Node R) (state config : Value)
      → thread_id py show config ≡ none
      → once_node py show none g node state config ≡ raise value_error
  unfolding once_node resolve_node_key
  threadless_node_raises node state config e = rw (e, once_node, resolve_node_key) refl

  -- The keys of two nodes in two threads, whose names have no colon, are the same only if both the
  -- threads and the nodes' names are.
  pub node_keys_apart :
      (state state' config config' : Value) (name name' tid tid' : String) (k : String)
      → thread_id py show config ≡ some tid
      → thread_id py show config' ≡ some tid'
      → HasNoColon tid
      → HasNoColon tid'
      → resolve_node_key py show none state config name ≡ ok k
      → resolve_node_key py show none state' config' name' ≡ ok k
      → (tid ≡ tid') × (name ≡ name')
  unfolding resolve_node_key
  node_keys_apart state state' config config' name name' tid tid' k e e' c c' r r' =
      joined_apart tid tid' name name' c c'
        (ok-inj (sym (rw (e, resolve_node_key) refl) ∙ r ∙ sym r' ∙ rw (e', resolve_node_key) refl))

  -- A node that has returned a value in a thread, where its key had no record, is not run again in
  -- that thread: with any state and configuration of the thread it returns the same value, if the
  -- codec gives it back, and the store is left alone.
  pub node_replays :
      (outside : Outside R) (node : Node R) (state state' config config' : Value) (tid : String)
      (w : World C MemoryStore) (v : Value)
      → thread_id py show config ≡ some tid
      → thread_id py show config' ≡ some tid
      → IsExternal (run_node py show node state config)
      → lookup (str_append tid (str_append ":" (name_of node))) w.state ≡ none
      → (exec memory outside (once_node py show none g node state config) w).0 ≡ ok v
      → ((b : Bytes) → g.codec.encode v ≡ ok b → g.codec.decode b ≡ ok v)
      → let w' = (exec memory outside (once_node py show none g node state config) w).1 in
        exec memory outside (once_node py show none g node state' config') w'
        ≡ (ok v, record w' { tick = w'.tick + 1 })
  node_replays outside node state state' config config' tid w v e e' h absent returned back =
      let k = str_append tid (str_append ":" (name_of node)) in
      let first = node_lem node state config tid e in
      rw first (
        rw (node_lem node state' config' tid e') (
          replays_first_result outside null (settings_of g k).once (settings_of g k).once
            (run_node py show node state config) (run_node py show node state' config') k none none
            w v h absent (rw (← first) returned) back refl))

module _ {C : Type 0} {R : C → Type 0} (py : Builtins) (dumps : Value → Option String)
    (g : Guarding R) where
  tool_lem :
      (tool : Tool R) (args : List Value) (kwargs : Dict Value) (k : String)
      → resolve_tool_key py dumps none tool args kwargs ≡ ok k
      → once_tool_run py dumps none g tool args kwargs
        ≡ run null (settings_of g k).once (tool.run_method args kwargs) k none
  unfolding once_tool_run
  tool_lem tool args kwargs k e =
      rw (e, once_tool_run) (guarded_lem py g k (tool.run_method args kwargs))

  -- A tool that has returned a value, where its key had no record, is not run again for arguments with
  -- the same JSON text: it returns the same value, if the codec gives it back, and the store is
  -- left alone.
  pub tool_replays :
      (outside : Outside R) (tool : Tool R) (args args' : List Value) (kwargs kwargs' : Dict Value)
      (k : String) (w : World C MemoryStore) (v : Value)
      → resolve_tool_key py dumps none tool args kwargs ≡ ok k
      → dumps (tool_payload args kwargs) ≡ dumps (tool_payload args' kwargs')
      → IsExternal (tool.run_method args kwargs)
      → lookup k w.state ≡ none
      → (exec memory outside (once_tool_run py dumps none g tool args kwargs) w).0 ≡ ok v
      → ((b : Bytes) → g.codec.encode v ≡ ok b → g.codec.decode b ≡ ok v)
      → let w' = (exec memory outside (once_tool_run py dumps none g tool args kwargs) w).1 in
        exec memory outside (once_tool_run py dumps none g tool args' kwargs') w'
        ≡ (ok v, record w' { tick = w'.tick + 1 })
  unfolding resolve_tool_key
  tool_replays outside tool args args' kwargs kwargs' k w v e same h absent returned back =
      let e' : resolve_tool_key py dumps none tool args' kwargs' ≡ ok k =
        rw (← same, resolve_tool_key) e in
      let first = tool_lem tool args kwargs k e in
      rw first (
        rw (tool_lem tool args' kwargs' k e') (
          replays_first_result outside null (settings_of g k).once (settings_of g k).once
            (tool.run_method args kwargs) (tool.run_method args' kwargs') k none none w v h absent
            (rw (← first) returned) back refl))
