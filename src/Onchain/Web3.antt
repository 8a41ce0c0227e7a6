-- ===== src/Onchain/Web3.antt =====
-- `Web3ChainClient` of src/exactly_once/onchain.py: the methods of a chain client as calls of web3
-- and of the account, which are the outside world here.
use exactly_once.Prelude.{ℕ, String, Option, none, some, Bytes, [], ◌∷◌}
use exactly_once.Program.{Program, pure, ◌>>=◌}
use exactly_once.Program.Calls
use exactly_once.Onchain.{TxIntent, TxStatus, Signed, ChainCall, ChainReply}

-- The dict that is signed.
pub record Tx : Type 0 where
  pub chain_id : ℕ
  pub nonce : ℕ
  pub intent : TxIntent

-- What `sign_transaction` returns: `none` where the attribute is absent. One of `raw_transaction` and
-- `rawTransaction` is there, by the version of the library.
pub record SignedTx : Type 0 where
  pub raw_transaction : Option Bytes
  pub old_raw_transaction : Bytes
  pub hash : Option Bytes

pub data Block : Type 0 where
  latest pending : Block

-- `get_transaction` answers `none` where it raises TransactionNotFound, and else the block of the
-- transaction that it found, if it has one.
pub data Web3Call : Type 0 where
  eth_chain_id : Web3Call
  account_address : Web3Call
  get_transaction_count : String → Block → Web3Call
  sign_transaction : Tx → Web3Call
  send_raw_transaction : Bytes → Web3Call
  get_transaction : String → Web3Call

abbrev pub Web3Reply : Web3Call → Type 0
Web3Reply Web3Call.eth_chain_id = ℕ
Web3Reply Web3Call.account_address = String
Web3Reply (Web3Call.get_transaction_count _ _) = ℕ
Web3Reply (Web3Call.sign_transaction _) = SignedTx
Web3Reply (Web3Call.send_raw_transaction _) = Bytes
Web3Reply (Web3Call.get_transaction _) = Option (Option ℕ)

-- Python's `x or y` on bytes.
abbrev pub or_bytes : Option Bytes → Bytes → Bytes
or_bytes none d = d
or_bytes (some []) d = d
or_bytes (some (b ∷ bs)) d = b ∷ bs

abbrev pub raw_of : SignedTx → Bytes
raw_of signed = or_bytes signed.raw_transaction signed.old_raw_transaction

abbrev pub status_of : Option (Option ℕ) → TxStatus
status_of none = TxStatus.unknown
status_of (some (some n)) = TxStatus.mined
status_of (some none) = TxStatus.pending

unfoldable pub chain_id : Program Web3Reply ℕ
chain_id = Calls.extern Web3Call.eth_chain_id

unfoldable pub address : Program Web3Reply String
address = Calls.extern Web3Call.account_address

unfoldable pub latest_nonce : Program Web3Reply ℕ
unfolding address
latest_nonce = do
  sender ← address
  Calls.extern (Web3Call.get_transaction_count sender Block.latest)

unfoldable pub pending_nonce : Program Web3Reply ℕ
unfolding address
pending_nonce = do
  sender ← address
  Calls.extern (Web3Call.get_transaction_count sender Block.pending)

-- `to_hex` and `keccak` are those of web3.
module _ (to_hex : Bytes → String) (keccak : Bytes → Bytes) where
  abbrev pub hash_of : SignedTx → String
  hash_of signed = to_hex (or_bytes signed.hash (keccak (raw_of signed)))

  unfoldable pub sign : TxIntent → ℕ → Program Web3Reply Signed
  unfolding chain_id
  sign intent nonce = do
    chain ← chain_id
    signed ←
        Calls.extern
          (Web3Call.sign_transaction (record { chain_id = chain; nonce = nonce; intent = intent }))
    pure (record { tx_hash = hash_of signed; raw = raw_of signed })

  unfoldable pub broadcast : Bytes → Program Web3Reply String
  broadcast raw = do hash ← Calls.extern (Web3Call.send_raw_transaction raw); pure (to_hex hash)

  unfoldable pub status : String → Program Web3Reply TxStatus
  status tx_hash = do
    found ← Calls.extern (Web3Call.get_transaction tx_hash)
    pure (status_of found)

  -- The client as what answers the calls of a guarded transaction.
  unfoldable pub web3_client : (c : ChainCall) → Program Web3Reply (ChainReply c)
  unfolding chain_id address latest_nonce pending_nonce sign broadcast status
  web3_client ChainCall.chain_id = chain_id
  web3_client ChainCall.address = address
  web3_client ChainCall.latest_nonce = latest_nonce
  web3_client ChainCall.pending_nonce = pending_nonce
  web3_client (ChainCall.sign intent nonce) = sign intent nonce
  web3_client (ChainCall.broadcast raw) = broadcast raw
  web3_client (ChainCall.status tx_hash) = status tx_hash
