-- ===== src/Workers/Permanence.antt =====
-- A committed result over every interleaving of callers, heartbeats and crashes.
use exactly_once.Prelude.{◌≡◌, String, Bool, Option, some, Bytes, sym}
use mathlib.Core.Path.{subst}
use exactly_once.Program.{Op, Reply}
use exactly_once.Stores.{Env, Store, Exclusive, Durable}
use exactly_once.Workers.System.{System, Step, Later, act, renew, crash, start, at_once, after}
use exactly_once.Workers.{Rules, perform}
use exactly_once.Workers.Invariant.{perform_keeps}

module _ {C : Type 0} (R : C → Type 0) {S : Type 0} (store : Store S)
    (result_at : S → String → Option Bytes) (IsValid : S → Type 0)
    (durable : Durable result_at IsValid store) where
  perform_holds :
      (env : Env) (s : S) (o : Op C) (free : Reply R o) (j : String) (b : Bytes)
      → IsValid s
      → result_at s j ≡ some b
      → result_at (perform R store env s o free).1 j ≡ some b
  perform_holds env s (Op.claim key fp ttl) free j b = durable.claim_holds env key fp ttl s j b
  perform_holds env s (Op.commit key r) free j b = durable.commit_holds env key r s j b
  perform_holds env s (Op.release key token) free j b = durable.release_holds env key token s j b
  perform_holds env s (Op.heartbeat key token ttl) free j b =
      durable.heartbeat_holds env key token ttl s j b
  perform_holds env s Op.now free j b = durable.now_holds env s j b
  perform_holds env s (Op.get key) free j b = durable.get_holds env key s j b
  perform_holds env s _ free j b = λ v h. h

module _ {C : Type 0} {R : C → Type 0} {V S : Type 0} {store : Store S}
    {present : S → String → Bool} {IsValid : S → Type 0} {result_at : S → String → Option Bytes}
    (exclusive : Exclusive present IsValid store) (durable : Durable result_at IsValid store)
    (k : String) (rules : Rules C) where
  -- A store that is valid, with the result `b` committed under the key `j`.
  abbrev pub Committed : String → Bytes → System R V store present k rules → Type 0
  Committed j b s = IsValid s.state × (result_at s.state j ≡ some b)

  Step-Committed :
      (j : String) (b : Bytes) {s t : System R V store present k rules}
      → Step R V store present k rules s t
      → Committed j b s
      → Committed j b t
  Step-Committed j b {s} (act pre post o f env free e e') (v, h) = subst (Committed j b) (sym e') (
    (perform_keeps R store present IsValid exclusive k env s.state o free v).0,
    perform_holds R store result_at IsValid durable env s.state o free j b v h,
  )
  Step-Committed j b {s} (renew env key token ttl e') (v, h) = subst (Committed j b) (sym e') (
    (exclusive.heartbeat_keeps env key token ttl s.state v).0,
    durable.heartbeat_holds env key token ttl s.state j b v h,
  )
  Step-Committed j b (crash pre post p e e') c = subst (Committed j b) (sym e') c
  Step-Committed j b (start p caller e') c = subst (Committed j b) (sym e') c

  pub Later-Committed :
      (j : String) (b : Bytes) {s t : System R V store present k rules}
      → Later R V store present k rules s t
      → Committed j b s
      → Committed j b t
  Later-Committed j b at_once c = c
  Later-Committed j b (after l step) c = Step-Committed j b step (Later-Committed j b l c)
