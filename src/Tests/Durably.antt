-- ===== src/Tests/Durably.antt =====
-- A call replayed from a SQLite file after another caller has come, on concrete inputs.
use exactly_once.Prelude.{ℕ, ◌≡◌, ◌≢◌, refl, true, none, some, [], ◌∷◌, Bytes, false, arith}
use exactly_once.Errors.{ok, ok-inj}
use exactly_once.Dict.{lookup, insert, contains}
use exactly_once.Stores.Effects.{Table, won, selected, inserted, overwritten}
use exactly_once.Stores.Effects.Laws.{IsValid}
use exactly_once.Stores.Sqlite.{sqlite}
use exactly_once.Stores.Sqlite.Laws.{sqlite-Exclusive}
use exactly_once.Stores.Sqlite.Durability.{sqlite-Durable}
use exactly_once.Core.Run.{run}
use exactly_once.Sequence.{World, exec}
use exactly_once.Sequence.Durably.{durable_call_replays}
use exactly_once.Workers.{Rules}
use exactly_once.Workers.System.{System, Later, call, start, at_once, after, init}
use exactly_once.Tests.Inputs
use exactly_once.Tests.Inputs.{Receipt, guarded, leased, pay, paying}

abbrev empty_file : World Inputs.Charge Table
empty_file = record { state = []; current = none; calls = []; tick = 0 }

empty_file-IsValid : IsValid []
unfolding lookup
empty_file-IsValid = record { at = λ key row h. cc }

-- The file after the first call.
abbrev paid : Table
paid = ("k", overwritten 4 (7 ∷ []) (inserted 0 none "t" none)) ∷ []

abbrev later_world : World Inputs.Charge Table
later_world = record empty_file { state = paid; tick = 50 }

abbrev rules : Rules Inputs.Charge
rules = record { may_release = true; may_open = true; is_effect = λ c. false }

abbrev Over : Type 0
Over = System Receipt ℕ sqlite contains "k" rules

abbrev idle : Over
idle = init Receipt ℕ sqlite contains "k" rules paid

abbrev waiting : Over
waiting = record idle { workers = run 0 leased pay "k" none ∷ [] }

comes : Later Receipt ℕ sqlite contains "k" rules idle waiting
comes = after at_once (
    start (run 0 leased pay "k" none) (call 0 leased pay "k" none (omega arith, λ r. tt) refl tt tt)
      refl)

back : (b : Bytes) → 7 ∷ [] ≡ b → (b ≢ []) × (guarded.codec.decode b ≡ ok 7)
back b h = (λ e. absurd (cc), rw (← h) refl)

durable_call_replays_example :
    let (r, w) = exec sqlite paying (run 0 leased pay "k" (some "f")) later_world in
    (r ≡ ok 7) × (w.calls ≡ [])
unfolding exec run sqlite lookup insert
durable_call_replays_example =
    durable_call_replays paying sqlite-Exclusive sqlite-Durable {s = idle} {t = waiting} 0 guarded
      leased pay pay "k" none (some "f") empty_file later_world (won "k" none "t" none)
      (selected "k" (overwritten 4 (7 ∷ []) (inserted 0 none "t" none))) 7 (λ r. tt)
      empty_file-IsValid refl refl refl refl comes refl refl refl (λ b h. back b (ok-inj h))
