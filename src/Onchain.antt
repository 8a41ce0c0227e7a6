-- ===== src/Onchain.antt =====
-- src/exactly_once/onchain.py: a transaction is signed and broadcast under the key of its nonce. The
-- chain is the outside world of a call; each method of `ChainClient` is one of its calls.
pub mod Resume
pub mod Web3
use exactly_once.Prelude.{ℕ, String, Option, none, some, Bytes, str_append, ltb, if◌then◌else◌}
use exactly_once.Codec.{Codec}
use exactly_once.Policies.{Policy, Prober, ProbeResult, Verdict}
use exactly_once.Program.{Program, pure, ◌>>=◌, ◌>>◌}
use exactly_once.Program.Calls
use exactly_once.Core.{Once, OnStoreDown, interval_of}
use exactly_once.Core.Run.{run}

pub data TxStatus : Type 0 where
  mined pending unknown : TxStatus

pub record TxIntent : Type 0 where
  pub to : String
  pub value : ℕ
  pub data_ : Bytes
  pub gas : ℕ
  pub max_fee_per_gas : ℕ
  pub max_priority_fee_per_gas : ℕ

pub data ChainCall : Type 0 where
  chain_id : ChainCall
  address : ChainCall
  latest_nonce : ChainCall
  pending_nonce : ChainCall
  sign : TxIntent → ℕ → ChainCall
  broadcast : Bytes → ChainCall
  status : String → ChainCall

-- The hash and the raw bytes of a signed transaction.
pub record Signed : Type 0 where
  pub tx_hash : String
  pub raw : Bytes

abbrev pub ChainReply : ChainCall → Type 0
ChainReply ChainCall.chain_id = ℕ
ChainReply ChainCall.address = String
ChainReply ChainCall.latest_nonce = ℕ
ChainReply ChainCall.pending_nonce = ℕ
ChainReply (ChainCall.sign _ _) = Signed
ChainReply (ChainCall.broadcast _) = String
ChainReply (ChainCall.status _) = TxStatus

-- The values that a guarded call returns: a transaction's hash, or Python's `None`.
abbrev pub Value : Type 0
Value = Option String

abbrev pub verdict : Verdict → Value → ProbeResult Value
verdict v result = record { verdict = v; result = result }

abbrev pub answer_status : ℕ → String → TxStatus → Program ChainReply (ProbeResult Value)
answer_status nonce tx_hash TxStatus.mined = pure (verdict Verdict.committed (some tx_hash))
answer_status nonce tx_hash TxStatus.pending = pure (verdict Verdict.unknown none)
answer_status nonce tx_hash TxStatus.unknown = do
  latest ← Calls.extern ChainCall.latest_nonce
  if ltb nonce latest
      then pure (verdict Verdict.unknown none)
      else pure (verdict Verdict.not_committed none)

-- `_chain_prober`
unfoldable pub chain_prober : TxIntent → ℕ → String → Program ChainReply (ProbeResult Value)
chain_prober intent nonce key = do
  signed ← Calls.extern (ChainCall.sign intent nonce)
  found ← Calls.extern (ChainCall.status signed.tx_hash)
  answer_status nonce signed.tx_hash found

-- `effect`
unfoldable pub send : TxIntent → ℕ → Program ChainReply Value
send intent nonce = do
  signed ← Calls.extern (ChainCall.sign intent nonce)
  Calls.extern (ChainCall.broadcast signed.raw)
  pure (some signed.tx_hash)

-- `digest` is `sha256(data).hexdigest()[:16]`, `lower` is `str.lower`, and `decimal` is `str` of a
-- number.
module _ (digest : Bytes → String) (lower : String → String) (decimal : ℕ → String) where
  unfoldable pub onchain_key : ℕ → String → ℕ → Bytes → String
  onchain_key chain sender nonce payload = str_append "tx:" (
      str_append (decimal chain) (
        str_append ":" (
          str_append (lower sender)
            (str_append ":" (str_append (decimal nonce) (str_append ":" (digest payload)))))))

  -- The object of `once` that a call makes; `codec` is the default codec.
  abbrev pub guard_of :
      Codec Value
      → Option (Policy ChainReply Value)
      → Option ℕ
      → TxIntent
      → ℕ
      → Once ChainReply Value
  guard_of codec none ttl intent nonce = record {
    policy = Policy.check_then_decide (Prober.plain (chain_prober intent nonce));
    codec = codec;
    on_store_down = OnStoreDown.fail;
    lease_ttl = ttl;
    heartbeat_interval = interval_of none ttl;
  }
  guard_of codec (some policy) ttl intent nonce = record {
    policy = policy;
    codec = codec;
    on_store_down = OnStoreDown.fail;
    lease_ttl = ttl;
    heartbeat_interval = interval_of none ttl;
  }

  abbrev pub choose_nonce : Option ℕ → Program ChainReply ℕ
  choose_nonce none = Calls.extern ChainCall.pending_nonce
  choose_nonce (some nonce) = pure nonce

  -- `wrapper`, from the intent that the wrapped function returns.
  unfoldable pub onchain_call :
      Codec Value
      → Option ℕ
      → Option (Policy ChainReply Value)
      → Option ℕ
      → TxIntent
      → Program ChainReply Value
  unfolding chain_prober send onchain_key run
  onchain_call codec nonce policy ttl intent = do
    n ← choose_nonce nonce
    chain ← Calls.extern ChainCall.chain_id
    sender ← Calls.extern ChainCall.address
    run none (guard_of codec policy ttl intent n) (send intent n)
        (onchain_key chain sender n intent.data_) none
