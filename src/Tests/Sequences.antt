-- ===== src/Tests/Sequences.antt =====
-- Calls one after the other, on concrete inputs.
use exactly_once.Prelude.{String, ℕ, ◌+◌, ◌≡◌, true, refl, none, some, [], ◌∷◌, arith}
use exactly_once.Errors
use exactly_once.Errors.{ok, err}
use exactly_once.Dict.{lookup, insert, remove}
use exactly_once.Stores.Memory.{memory, MemoryStore, claimed_row}
use exactly_once.Core.Beats.{beat}
use exactly_once.Sequence.Beats.{renewed_key_refused}
use exactly_once.Sequence.Probes.{probed_call-Decided, settled_row}
use exactly_once.Program.{Program}
use exactly_once.Core.{Once}
use exactly_once.Core.Run.{run, execute_and_commit}
use exactly_once.Core.Arun.{arun, aexecute_and_commit}
use exactly_once.Core.Parity.{arun-run}
use exactly_once.Policies.{Directive, Policy, Prober, ProbeResult, Verdict}
use exactly_once.Policies.Resolve.{resolve_wait}
use exactly_once.Sequence.Calls.{Entered}
use exactly_once.Sequence.Waiting.{wait-Answers}
use exactly_once.Core.Aguards.{aenter}
use exactly_once.Core.Parity.Blocks.{aenter-enter}
use exactly_once.Core.Guards.{running_guard, enter, exit, replay_guard}
use exactly_once.Sequence.Blocks.{block_replays}
use exactly_once.Workers.Blocks.{leaving}
use exactly_once.Sequence.Leases.{live_lease_refused, lapsed_lease_adopted}
use exactly_once.Sequence.Heartbeats.{failed_beat_raises}
use exactly_once.Sequence.{World, Outside, exec}
use exactly_once.Sequence.Twice.{
  Ends, first_call-Ends, replays_first_result, failed_call_never_refires,
}
use exactly_once.Sequence.Replay.{mismatch_refused}
use exactly_once.Tests.Inputs
use exactly_once.Tests.Inputs.{guarded, leased, pay, paying, failing, start_world}

-- A charge is made once: the second call answers from the store.
pays_once :
    let (r, w) = exec memory paying (run 0 guarded pay "k" none) start_world in
    (r ≡ ok 7) × (w.calls ≡ Inputs.charge 50 ∷ []) × (w.current ≡ none)
unfolding exec run memory lookup insert
pays_once = (refl, refl, refl)

replays_first_result_example :
    let w' = (exec memory paying (run 0 guarded pay "k" none) start_world).1 in
    exec memory paying (run 0 leased pay "k" (some "f")) w'
    ≡ (ok 7, record w' { tick = w'.tick + 1 })
unfolding exec run memory lookup insert
replays_first_result_example =
    replays_first_result paying 0 guarded leased pay pay "k" none (some "f") start_world 7 (λ r. tt)
      refl refl (λ b h. ground arith) refl

first_call-Ends_example :
    let (r, w) = exec memory failing (run 0 leased pay "k" (some "f")) start_world in
    Ends failing leased "k" (some "f") (Inputs.env_at 0) start_world r w
unfolding lookup
first_call-Ends_example =
    first_call-Ends failing 0 leased pay "k" (some "f") start_world (λ r. tt) refl

failed_call_never_refires_example :
    let w' = (exec memory failing (run 0 leased pay "k" none) start_world).1 in
    exec memory failing (run 0 guarded pay "k" none) w'
    ≡ (err (Errors.quarantined "k"), record w' { tick = w'.tick + 1 })
unfolding exec run memory lookup insert
failed_call_never_refires_example =
    failed_call_never_refires failing 0 leased guarded pay pay "k" none none start_world
      (Errors.effect_raised 3) (λ r. tt) refl refl tt refl

-- Another worker has claimed "k" with the fingerprint "f".
abbrev busy : World Inputs.Charge MemoryStore
busy = record start_world { state = ("k", claimed_row (Inputs.env_at 0) "k" (some "f") none) ∷ [] }

mismatch_refused_example :
    exec memory paying (run 0 guarded pay "k" (some "g")) busy
    ≡ (err (Errors.key_reuse "k"), record busy { tick = busy.tick + 1 })
unfolding lookup
mismatch_refused_example =
    mismatch_refused paying 0 guarded pay "k" (some "g") busy
      (claimed_row (Inputs.env_at 0) "k" (some "f") none) refl (λ q. cc) refl

arun-run_example : arun 0 guarded pay "k" (some "f") ≡ run 0 guarded pay "k" (some "f")
arun-run_example = arun-run 0 guarded pay "k" (some "f") refl tt

wait-Answers_example :
    let (r, w') = exec memory paying (resolve_wait 5 2 "k") busy in
    ((d : Directive ℕ) × (r ≡ ok d)) × (w'.state ≡ busy.state)
wait-Answers_example = wait-Answers ℕ paying 5 2 "k" busy (λ n. omega arith)

-- The beat of the lease met a store that was down.
abbrev beat_fails : Outside Inputs.Receipt
beat_fails = record paying { beat_end = λ n. err Errors.store_unavailable }

failed_beat_raises_example :
    let (r, w') =
      exec memory beat_fails (aexecute_and_commit leased pay "k" (some "t")) start_world in
    (r ≡ err Errors.store_unavailable)
    × (w'.state ≡ start_world.state)
    × ((w₁ : World Inputs.Charge MemoryStore) × Entered "k" start_world w₁
        × (w'.calls ≡ (exec memory beat_fails pay w₁).1.calls))
failed_beat_raises_example =
    failed_beat_raises memory beat_fails leased pay "k" "t" 30 Errors.store_unavailable start_world
      (λ r. tt) refl (λ n. refl)

-- The world after a block entered for "k" has made its charge.
abbrev charged : World Inputs.Charge MemoryStore
charged = record start_world {
  state = ("k", claimed_row (Inputs.env_at 0) "k" none none) ∷ [];
  calls = Inputs.charge 50 ∷ [];
  tick = 2;
}

block_replays_example :
    let guard = running_guard {V = ℕ} 0 "k" (some "t") none in
    let w₃ = (exec memory paying (exit guarded true (leaving (ok 7) (guard ∷ []))) charged).1 in
    exec memory paying (enter 0 leased "k" (some "f") []) w₃
    ≡ (ok (replay_guard "k" 7, replay_guard "k" 7 ∷ []), record w₃ { tick = w₃.tick + 1 })
unfolding exec enter memory lookup insert
block_replays_example =
    let guard = running_guard {V = ℕ} 0 "k" (some "t") none in
    block_replays paying 0 guarded leased "k" none (some "f") [] [] (guard, guard ∷ []) 7 (7 ∷ [])
      start_world charged refl refl refl refl refl refl

-- Another worker has claimed "k" with a lease.
abbrev leased_out : ℕ → World Inputs.Charge MemoryStore
leased_out n = record start_world {
  state = ("k", claimed_row (Inputs.env_at 0) "k" none (some 30)) ∷ [];
  tick = n;
}

live_lease_refused_example :
    exec memory paying (run 0 leased pay "k" none) (leased_out 10)
    ≡ (err (Errors.quarantined "k"), record (leased_out 10) { tick = 12 })
unfolding lookup
live_lease_refused_example =
    live_lease_refused paying 0 leased pay "k" none (leased_out 10)
      (claimed_row (Inputs.env_at 0) "k" none (some 30)) 30 tt refl refl refl (omega arith) refl

lapsed_lease_adopted_example :
    exec memory paying (run 0 leased pay "k" none) (leased_out 40)
    ≡ exec memory paying (execute_and_commit leased pay "k" (some "t")) (record (leased_out 40) {
      state =
          insert "k"
            (claimed_row (Inputs.env_at 43) "k" none (some 30))
            (remove "k" (leased_out 40).state);
      tick = 44;
    })
unfolding lookup
lapsed_lease_adopted_example =
    lapsed_lease_adopted paying 0 leased pay "k" none (leased_out 40)
      (claimed_row (Inputs.env_at 0) "k" none (some 30)) 30 refl refl refl refl (omega arith) refl

aenter-enter_example : aenter 0 guarded "k" (some "f") [] ≡ enter 0 guarded "k" (some "f") []
aenter-enter_example = aenter-enter 0 guarded "k" (some "f") [] refl tt

-- After two rounds of the heartbeat of "k", at the times 0 and 1, its lease of 30 ends at 31.
abbrev beaten : World Inputs.Charge MemoryStore
beaten = record busy {
  state =
      (
        "k",
        record (claimed_row (Inputs.env_at 0) "k" (some "f") none) { lease_expires_at = some 31 },
      )
      ∷ [];
  tick = 20;
}

renewed_key_refused_example :
    exec memory paying (run 0 leased pay "k" (some "f")) beaten
    ≡ (err (Errors.quarantined "k"), record beaten { tick = beaten.tick + 1 + 1 })
unfolding exec beat memory lookup insert
renewed_key_refused_example =
    renewed_key_refused paying 1 "k" "t" 30 (claimed_row (Inputs.env_at 0) "k" (some "f") none) 0
      leased pay (some "f") busy beaten refl refl refl tt refl (omega arith) refl

-- A prober that finds the charge of a crashed call.
abbrev finds : Verdict → String → Program Inputs.Receipt (ProbeResult ℕ)
finds verdict key = Program.done (ok (record { verdict = verdict; result = 7 }))

abbrev probing : Verdict → Once Inputs.Receipt ℕ
probing verdict = record guarded {
  policy = Policy.check_then_decide (Prober.plain (finds verdict));
}

probed_call-Decided_example :
    let (r, w') = exec memory paying (run 0 (probing Verdict.committed) pay "k" none) busy in
    (busy.state ≡ busy.state)
    × ((r ≡ ok 7)
        × (w'.calls ≡ [])
        × (lookup "k" w'.state
            ≡ some (
                settled_row
                  (Inputs.env_at 1)
                  (7 ∷ [])
                  (claimed_row (Inputs.env_at 0) "k" (some "f") none))))
unfolding exec run memory lookup insert
probed_call-Decided_example =
    probed_call-Decided paying 0 (probing Verdict.committed) pay (finds Verdict.committed) "k" none
      (claimed_row (Inputs.env_at 0) "k" (some "f") none)
      (record { verdict = Verdict.committed; result = 7 }) (7 ∷ []) 7 busy
      (record busy { tick = busy.tick + 1 }) refl tt refl refl refl refl refl refl refl
