-- ===== src/Tests/Chains.antt =====
-- A transaction resumed after a crash, on concrete inputs.
use exactly_once.Prelude.{ℕ, ◌≡◌, refl, none, some, [], ◌∷◌, String, Bytes}
use exactly_once.Errors
use exactly_once.Errors.{Result, ok, err}
use exactly_once.Dict.{lookup}
use exactly_once.Codec
use exactly_once.Codec.{json_codec}
use exactly_once.Stores.Memory.{MemoryStore, memory, claimed_row}
use exactly_once.Sequence.{World, Outside, exec}
use exactly_once.Onchain.{
  ChainCall, ChainReply, Value, TxIntent, TxStatus, onchain_key, onchain_call,
}
use exactly_once.Onchain.Resume.{mined_is_replayed, pending_is_refused}
use exactly_once.Tests.Inputs.{env_at}

abbrev digest : Bytes → String
digest b = "d"

abbrev lower : String → String
lower s = s

abbrev decimal : ℕ → String
decimal n = "7"

abbrev value_codec : Codec.Codec Value
value_codec = record {
  encode = λ v. elim v [ none ↦ ok [] | some s ↦ ok (1 ∷ []) ];
  decode = λ b. elim b [ [] ↦ ok none | _ ∷ _ ↦ ok (some "0xh") ];
}

abbrev payout : TxIntent
payout = record {
  to = "0xa";
  value = 5;
  data_ = [];
  gas = 21000;
  max_fee_per_gas = 0;
  max_priority_fee_per_gas = 0;
}

abbrev answers : TxStatus → (c : ChainCall) → Result (ChainReply c)
answers s ChainCall.chain_id = ok 1
answers s ChainCall.address = ok "0xf"
answers s ChainCall.latest_nonce = ok 3
answers s ChainCall.pending_nonce = ok 4
answers s (ChainCall.sign _ _) = ok (record { tx_hash = "0xh"; raw = 9 ∷ [] })
answers s (ChainCall.broadcast _) = ok "0xh"
answers s (ChainCall.status _) = ok s

abbrev chain : TxStatus → Outside ChainReply
chain s = record { env = env_at; answer = λ n past c. answers s c; beat_end = λ n. ok tt }

abbrev payout_key : String
payout_key = "tx:7:0xf:7:d"

-- The crashed call had claimed the key.
abbrev crashed : World ChainCall MemoryStore
crashed = record {
  state = (payout_key, claimed_row (env_at 0) payout_key none none) ∷ [];
  current = none;
  calls = [];
  tick = 0;
}

abbrev resumed : TxStatus → Result Value × World ChainCall MemoryStore
resumed s =
    exec memory (chain s) (onchain_call digest lower decimal value_codec (some 3) none none payout)
      crashed

mined_is_replayed_example :
    ((resumed TxStatus.mined).0 ≡ ok (some "0xh"))
    × ((resumed TxStatus.mined).1.calls
        ≡ ChainCall.status "0xh"
          ∷ ChainCall.sign payout 3
          ∷ ChainCall.address
          ∷ ChainCall.chain_id
          ∷ [])
unfolding lookup onchain_key
mined_is_replayed_example =
    mined_is_replayed digest lower decimal (chain TxStatus.mined) 1 "0xf" (λ n past. refl)
      (λ n past. refl) value_codec none payout 3 (record { tx_hash = "0xh"; raw = 9 ∷ [] })
      (claimed_row (env_at 0) payout_key none none) (1 ∷ []) crashed refl refl refl (λ n past. refl)
      (λ n past. refl) refl refl

pending_is_refused_example :
    ((resumed TxStatus.pending).0 ≡ err (Errors.quarantined payout_key))
    × ((resumed TxStatus.pending).1.state ≡ crashed.state)
    × ((resumed TxStatus.pending).1.calls
        ≡ ChainCall.status "0xh"
          ∷ ChainCall.sign payout 3
          ∷ ChainCall.address
          ∷ ChainCall.chain_id
          ∷ [])
unfolding lookup onchain_key
pending_is_refused_example =
    pending_is_refused digest lower decimal (chain TxStatus.pending) 1 "0xf" (λ n past. refl)
      (λ n past. refl) value_codec none payout 3 (record { tx_hash = "0xh"; raw = 9 ∷ [] })
      (claimed_row (env_at 0) payout_key none none) crashed refl refl refl (λ n past. refl)
      (λ n past. refl)
