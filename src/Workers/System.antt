-- ===== src/Workers/System.antt =====
-- A store, the programs that are under way over it, and counters for one key `k`. Every store call
-- of a program is one step, which the store's lock or transaction makes atomic.
use exactly_once.Prelude.{ℕ, ◌+◌, ◌≡◌, String, Bool, Option, List, [], ◌∷◌, ◌++◌, ◌&&◌, not, str_eq}
use exactly_once.Program.{Op, Reply, Program, op}
use exactly_once.Core.{Once}
use exactly_once.Core.Run.{run}
use exactly_once.Core.Arun.{arun}
use exactly_once.Core.Guards.{Guard, Stack}
use exactly_once.Workers.Blocks.{with_block, awith_block}
use exactly_once.Stores.{Env, Store}
use exactly_once.Workers.{Rules, FiresAtMost, perform, gains, outage, fires, one_if}
use exactly_once.Workers.Owners.{FiresWhenFresh}
use exactly_once.Workers.Quiet.{IsAllowed, IsGuarded, ProbesOutside}

module _ {C : Type 0} (R : C → Type 0) (V : Type 0) {S : Type 0} (store : Store S)
    (present : S → String → Bool) (k : String) (rules : Rules C) where
  -- `fresh` counts the claims of `k` that were answered FRESH, `outages` those that found the store
  -- down, `fired` the calls of the effect, and `removed` the calls after which the record of `k` was
  -- gone.
  pub record System : Type 0 where
    pub state : S
    pub workers : List (Program R V)
    pub fresh : ℕ
    pub outages : ℕ
    pub fired : ℕ
    pub removed : ℕ

  -- A caller of a decorated function, or of a block, in one of the two forms of each, with any key,
  -- code, policy and settings of its own. Its function does the effect once at most, and only under
  -- `k`; the body of its block does so only where its guard is fresh; and no prober does it.
  pub data Caller : Program R V → Type 0 where
    call :
        (nil : V) (self : Once R V) (func : Program R V) (key : String) (fp : Option String)
        → FiresAtMost rules (one_if (str_eq key k)) func
        → IsAllowed rules self.policy
        → ProbesOutside rules self.policy
        → IsGuarded rules self.on_store_down
        → Caller (run nil self func key fp)
    acall :
        (nil : V) (self : Once R V) (func : Program R V) (key : String) (fp : Option String)
        → FiresAtMost rules (one_if (str_eq key k)) func
        → IsAllowed rules self.policy
        → ProbesOutside rules self.policy
        → IsGuarded rules self.on_store_down
        → Caller (arun nil self func key fp)
    block :
        (nil : V) (self : Once R V) (body : Guard V → Program R V) (key : String)
        (fp : Option String) (stack : Stack V)
        → FiresWhenFresh rules k key body
        → IsAllowed rules self.policy
        → ProbesOutside rules self.policy
        → IsGuarded rules self.on_store_down
        → Caller (with_block nil self body key fp stack)
    ablock :
        (nil : V) (self : Once R V) (body : Guard V → Program R V) (key : String)
        (fp : Option String) (stack : Stack V)
        → FiresWhenFresh rules k key body
        → IsAllowed rules self.policy
        → ProbesOutside rules self.policy
        → IsGuarded rules self.on_store_down
        → Caller (awith_block nil self body key fp stack)

  abbrev pub advance :
      System
      → List (Program R V)
      → List (Program R V)
      → (o : Op C) → (Reply R o → Program R V)
      → Env
      → Reply R o
      → System
  advance s pre post o f env free =
      let (r, state) = perform R store env s.state o free in
      record {
        state = state;
        workers = pre ++ (f r ∷ post);
        fresh = s.fresh + gains k R o r;
        outages = s.outages + outage k R o r;
        fired = s.fired + fires rules o;
        removed = s.removed + one_if (present s.state k && not (present state k));
      }

  -- A program makes its next call, a heartbeat renews a lease, a worker crashes, or a caller comes.
  pub data Step (s t : System) : Type 0 where
    act :
        (pre post : List (Program R V)) (o : Op C) (f : Reply R o → Program R V) (env : Env)
        (free : Reply R o)
        → s.workers ≡ pre ++ (op o f ∷ post)
        → t ≡ advance s pre post o f env free
        → Step s t
    renew :
        (env : Env) (key token : String) (ttl : ℕ)
        → t ≡ record s { state = (store.heartbeat env key token ttl s.state).1 }
        → Step s t
    crash :
        (pre post : List (Program R V)) (p : Program R V)
        → s.workers ≡ pre ++ (p ∷ post)
        → t ≡ record s { workers = pre ++ post }
        → Step s t
    start : (p : Program R V) → Caller p → t ≡ record s { workers = p ∷ s.workers } → Step s t

  abbrev pub init : S → System
  init state = record {
    state = state;
    workers = [];
    fresh = 0;
    outages = 0;
    fired = 0;
    removed = 0;
  }

  pub data Reach (state : S) : System → Type 0 where
    here : Reach state (init state)
    next : {s t : System} → Reach state s → Step s t → Reach state t

  -- The systems that some steps lead to.
  pub data Later (s : System) : System → Type 0 where
    at_once : Later s s
    after : {t u : System} → Later s t → Step t u → Later s u
