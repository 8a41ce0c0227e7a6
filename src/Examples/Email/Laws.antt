-- ===== src/Examples/Email/Laws.antt =====
-- src/examples/email.py over a new memory store: one message to a user, however often it is asked for.
use exactly_once.Prelude.{
  ℕ, ◌+◌, ◌≡◌, ◌≢◌, refl, ◌∙◌, String, some, none, [], ◌∷◌, Bytes, str_append, str_eq, eq_iff,
  false, arith, append_cancel_left, eq_refl, length,
}
use exactly_once.Errors.{ok}
use exactly_once.Codec.{Codec}
use exactly_once.Types.{ClaimRecord}
use exactly_once.Dict.{lookup, insert, lookup-insert}
use exactly_once.Values.{Value, text, int, null}
use exactly_once.Keys.{Builtins, own_key, resolve_key, compute_fingerprint}
use exactly_once.Program.{Program, ◌>>=◌, pure}
use exactly_once.Core.Wrapper.{key_of, fp_of, require_cm_key}
use exactly_once.Stores.{Env}
use exactly_once.Stores.Memory.{MemoryStore, memory, claimed_row}
use exactly_once.Workers.Blocks.{with_block}
use exactly_once.Sequence.{World, Outside, exec}
use exactly_once.Sequence.Laws.{exec-then}
use exactly_once.Sequence.Probes.{settled_row}
use exactly_once.Sequence.Withs.{block_runs, block_skips}
use exactly_once.Examples.{served, launched}
use exactly_once.Examples.Email.{
  EmailCall, EmailReply, send_email, send_message, sent_after, email_reply, welcome_key, welcome,
  welcome_settings, send_welcome_once, send_welcomes,
}

-- Different users have different keys.
welcome_keys_apart :
    (user other : String) → user ≢ other → str_eq (welcome_key user) (welcome_key other) ≡ false
welcome_keys_apart user other n = ground (
  arith,
  eq_iff (welcome_key user) (welcome_key other),
  append_cancel_left "welcome-email:" user other,
  n,
)

module _ (py : Builtins) (str_of : Value → String) (codec : Codec Value) (env : ℕ → Env) where
  abbrev emails : Outside EmailReply
  emails = served env (email_reply str_of)

  abbrev message : ℕ → Value
  message n = text (str_append "msg_" (str_of (int n)))

  abbrev settled : Env → Env → String → Bytes → ClaimRecord
  settled env₀ env₁ key b = settled_row env₁ b (claimed_row env₀ key none none)

  welcome_lem :
      (user : String)
      → send_welcome_once py codec user
        ≡ with_block null
            (welcome_settings codec user).once
            (welcome user)
            (welcome_key user)
            none
            []
  unfolding send_welcome_once require_cm_key key_of fp_of own_key resolve_key compute_fingerprint
  welcome_lem user = refl

  -- The world after a first message to a user.
  abbrev after_sent : String → Bytes → World EmailCall MemoryStore → World EmailCall MemoryStore
  after_sent user b w = record w {
    state =
        insert (welcome_key user) (settled (env w.tick) (env (w.tick + 1 + 1)) (welcome_key user) b)
          (insert (welcome_key user) (claimed_row (env w.tick) (welcome_key user) none none)
            w.state);
    calls = send_email user "Welcome!" ∷ w.calls;
    tick = w.tick + 1 + 1 + 1;
  }

  sent_lem :
      (user : String) (b : Bytes) (w : World EmailCall MemoryStore)
      → lookup (welcome_key user) w.state ≡ none
      → let v = message (length (sent_after str_of w.calls) + 1) in
        codec.encode v ≡ ok b
        → exec memory emails (send_welcome_once py codec user) w ≡ (ok v, after_sent user b w)
  unfolding exec email_reply send_message
  sent_lem user b w absent enc = rw (welcome_lem user) (
      block_runs emails null (welcome_settings codec user).once (welcome user) (welcome_key user)
        none [] w (message (length (sent_after str_of w.calls) + 1)) b
        (record w {
          state =
              insert (welcome_key user) (claimed_row (env w.tick) (welcome_key user) none none)
                w.state;
          calls = send_email user "Welcome!" ∷ w.calls;
          tick = w.tick + 1 + 1;
        })
        refl absent refl
        (rw
          (
            lookup-insert (welcome_key user) (welcome_key user)
                (claimed_row (env w.tick) (welcome_key user) none none) w.state,
            eq_refl,
          )
          refl)
        enc)

  again_lem :
      (user : String) (b : Bytes) (v : Value) (e e' : Env) (w : World EmailCall MemoryStore)
      → lookup (welcome_key user) w.state ≡ some (settled e e' (welcome_key user) b)
      → codec.decode b ≡ ok v
      → exec memory emails (send_welcome_once py codec user) w
        ≡ (ok v, record w { tick = w.tick + 1 })
  unfolding exec
  again_lem user b v e e' w there dec = rw (welcome_lem user) (
      block_skips emails null (welcome_settings codec user).once (welcome user) (welcome_key user)
        none [] w (settled e e' (welcome_key user) b) v b (ok v, record w { tick = w.tick + 1 })
        there refl refl refl dec refl)

  module _ (user other : String) (b b' : Bytes) (apart : user ≢ other)
      (encoded : codec.encode (message 1) ≡ ok b) (decoded : codec.decode b ≡ ok (message 1))
      (encoded_other : codec.encode (message 2) ≡ ok b') where
    abbrev first_world : World EmailCall MemoryStore
    first_world = after_sent user b (launched [])

    abbrev again_world : World EmailCall MemoryStore
    again_world = record first_world { tick = 4 }

    there_lem :
        lookup (welcome_key user) first_world.state
        ≡ some (settled (env 0) (env 2) (welcome_key user) b)
    there_lem =
        rw
          (
            lookup-insert (welcome_key user) (welcome_key user)
                (settled (env 0) (env 2) (welcome_key user) b)
                (insert (welcome_key user) (claimed_row (env 0) (welcome_key user) none none) []),
            eq_refl,
          )
          refl

    absent_lem : lookup (welcome_key other) again_world.state ≡ none
    unfolding lookup
    absent_lem =
        rw
          (
            lookup-insert (welcome_key user) (welcome_key other)
                (settled (env 0) (env 2) (welcome_key user) b)
                (insert (welcome_key user) (claimed_row (env 0) (welcome_key user) none none) []),
            welcome_keys_apart user other apart,
          )
          (rw
            (
              lookup-insert (welcome_key user) (welcome_key other)
                  (claimed_row (env 0) (welcome_key user) none none) [],
              welcome_keys_apart user other apart,
            )
            refl)

    abbrev twice : Value → Program EmailReply (Value × Value × Value)
    twice first = do
      again ← send_welcome_once py codec user
      last ← send_welcome_once py codec other
      pure (first, again, last)

    abbrev thrice : Value → Program EmailReply (Value × Value × Value)
    thrice again = do last ← send_welcome_once py codec other; pure (message 1, again, last)

    all_lem :
        exec memory emails (send_welcomes py codec user other) (launched [])
        ≡ (ok (message 1, message 1, message 2), after_sent other b' again_world)
    unfolding send_welcomes sent_after send_message exec lookup
    all_lem =
        exec-then memory emails (send_welcome_once py codec user) twice (launched [])
          (sent_lem user b (launched []) refl encoded)
        ∙ exec-then memory emails (send_welcome_once py codec user) thrice first_world
            (again_lem user b (message 1) (env 0) (env 2) first_world there_lem decoded)
        ∙ exec-then memory emails (send_welcome_once py codec other)
            (λ last. pure (message 1, message 1, last)) again_world
            (sent_lem other b' again_world absent_lem encoded_other)

    -- For two different users, over a new memory store: both calls of the first user return the first
    -- message, the call of the second user returns the second, and no other was sent, if the codec
    -- encodes the messages and gives the first one back.
    pub welcomes_lem :
        let (r, w) = exec memory emails (send_welcomes py codec user other) (launched []) in
        (r ≡ ok (message 1, message 1, message 2))
        × (sent_after str_of w.calls ≡ message 1 ∷ message 2 ∷ [])
    unfolding sent_after send_message
    welcomes_lem = rw all_lem (refl, refl)
