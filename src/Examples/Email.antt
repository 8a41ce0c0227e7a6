-- ===== src/Examples/Email.antt =====
-- src/examples/email.py: a welcome to each of two users, one of them asked for twice.
pub mod Laws
use exactly_once.Prelude.{
  ℕ, ◌+◌, String, Option, none, some, List, [], ◌∷◌, ◌++◌, length, str_append, if◌then◌else◌,
}
use exactly_once.Codec.{Codec}
use exactly_once.Values.{Value, text, int, null}
use exactly_once.Keys.{Builtins, KeySpec}
use exactly_once.Policies.{quarantine_with}
use exactly_once.Program.{Program, pure, from_result, ◌>>=◌}
use exactly_once.Program.Calls
use exactly_once.Core.Wrapper.{Settings, require_cm_key, fp_of}
use exactly_once.Core.Guards.{Guard}
use exactly_once.Workers.Blocks.{with_block}
use exactly_once.Examples.{once}

-- `send_email(to, subject)`
pub data EmailCall : Type 0 where
  send_email : String → String → EmailCall

abbrev pub EmailReply : EmailCall → Type 0
EmailReply c = Value

module _ (str_of : Value → String) where
  -- The message id, and `_sent` after the call.
  unfoldable pub send_message : String → String → List Value → Value × List Value
  send_message to subject sent =
      let message_id = text (str_append "msg_" (str_of (int (length sent + 1)))) in
      (message_id, sent ++ message_id ∷ [])

  -- `_sent` after the calls that were made, the last one first.
  unfoldable pub sent_after : List EmailCall → List Value
  unfolding send_message
  sent_after [] = []
  sent_after (send_email to subject ∷ past) = (send_message to subject (sent_after past)).1

  unfoldable pub email_reply : List EmailCall → (c : EmailCall) → EmailReply c
  unfolding sent_after send_message
  email_reply past (send_email to subject) = (send_message to subject (sent_after past)).0

abbrev pub welcome_key : String → String
welcome_key user_id = str_append "welcome-email:" user_id

-- What the block does with its guard.
abbrev pub welcome : String → Guard Value → Program EmailReply Value
welcome user_id guard =
    if guard.fresh then Calls.extern (send_email user_id "Welcome!") else pure guard.result

abbrev pub welcome_settings : Codec Value → String → Settings EmailReply
welcome_settings codec user_id =
    once (KeySpec.static (welcome_key user_id)) (quarantine_with none) codec

module _ (py : Builtins) (codec : Codec Value) where
  unfoldable pub send_welcome_once : String → Program EmailReply Value
  unfolding with_block require_cm_key fp_of
  send_welcome_once user_id = do
    key ← from_result (require_cm_key py (welcome_settings codec user_id))
    fp ← from_result (fp_of py (welcome_settings codec user_id) [] [])
    with_block null (welcome_settings codec user_id).once (welcome user_id) key fp []

  -- `main`: the results of its three calls.
  unfoldable pub send_welcomes : String → String → Program EmailReply (Value × Value × Value)
  unfolding send_welcome_once
  send_welcomes user other_user = do
    first ← send_welcome_once user
    again ← send_welcome_once user
    other ← send_welcome_once other_user
    pure (first, again, other)
