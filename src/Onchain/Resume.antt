-- ===== src/Onchain/Resume.antt =====
-- A transaction that is resumed over the memory store after a crash.
use exactly_once.Prelude.{ℕ, ◌+◌, ◌≡◌, refl, String, false, Option, none, some, List, ◌∷◌, Bytes}
use exactly_once.Errors.{ok, err, quarantined}
use exactly_once.Types.{State, ClaimRecord}
use exactly_once.Codec.{Codec}
use exactly_once.Dict.{lookup}
use exactly_once.Policies.Resolve.{resolve}
use exactly_once.Stores.Memory
use exactly_once.Stores.Memory.{MemoryStore, memory}
use exactly_once.Core.{decode, check_fingerprint, differs}
use exactly_once.Core.Run.{run, follow}
use exactly_once.Sequence.{World, Outside, exec}
use exactly_once.Sequence.Replay.{run_lem}
use exactly_once.Sequence.Twice.{commit_ok}
use exactly_once.Onchain.{
  ChainCall, ChainReply, Value, TxIntent, TxStatus, Signed, chain_prober, send, guard_of,
  onchain_key, onchain_call,
}

differs-none : (o : Option String) → differs o none ≡ false
differs-none none = refl
differs-none (some s) = refl

module _ (digest : Bytes → String) (lower : String → String) (decimal : ℕ → String)
    (outside : Outside ChainReply) where
  mined_lem :
      (codec : Codec Value) (ttl : Option ℕ) (intent : TxIntent) (nonce : ℕ) (signed : Signed)
      (key : String) (row : ClaimRecord) (b : Bytes) (w : World ChainCall MemoryStore)
      → lookup key w.state ≡ some row
      → row.state ≡ State.in_flight
      → row.lease_expires_at ≡ none
      → ((n : ℕ) (past : List ChainCall)
          → outside.answer n past (ChainCall.sign intent nonce) ≡ ok signed)
      → ((n : ℕ) (past : List ChainCall)
          → outside.answer n past (ChainCall.status signed.tx_hash) ≡ ok TxStatus.mined)
      → codec.encode (some signed.tx_hash) ≡ ok b
      → codec.decode b ≡ ok (some signed.tx_hash)
      → let self = guard_of digest lower decimal codec none ttl intent nonce in
        let (r, w') = exec memory outside (run none self (send intent nonce) key none) w in
        (r ≡ ok (some signed.tx_hash))
        × (w'.calls ≡ ChainCall.status signed.tx_hash ∷ ChainCall.sign intent nonce ∷ w.calls)
  unfolding memory Memory.claim check_fingerprint resolve follow decode chain_prober exec
  mined_lem codec ttl intent nonce signed key row b w e fl nl sg st enc dec =
      rw
        (run_lem memory outside none (guard_of digest lower decimal codec none ttl intent nonce)
          (send intent nonce) key none w)
        (rw (e, Memory.claim)
          (rw (fl, check_fingerprint)
            (rw (differs-none row.fingerprint) (
              rw (nl) (
                rw (sg (w.tick + 1) w.calls, exec)
                  (rw (st (w.tick + 1 + 1) (ChainCall.sign intent nonce ∷ w.calls), exec)
                    (rw (enc, exec)
                      (rw (commit_ok (outside.env (w.tick + 1 + 1 + 1)) key b w.state, exec)
                        (rw (dec, exec) (refl, refl))))))))))

  pending_lem :
      (codec : Codec Value) (ttl : Option ℕ) (intent : TxIntent) (nonce : ℕ) (signed : Signed)
      (key : String) (row : ClaimRecord) (w : World ChainCall MemoryStore)
      → lookup key w.state ≡ some row
      → row.state ≡ State.in_flight
      → row.lease_expires_at ≡ none
      → ((n : ℕ) (past : List ChainCall)
          → outside.answer n past (ChainCall.sign intent nonce) ≡ ok signed)
      → ((n : ℕ) (past : List ChainCall)
          → outside.answer n past (ChainCall.status signed.tx_hash) ≡ ok TxStatus.pending)
      → let self = guard_of digest lower decimal codec none ttl intent nonce in
        let (r, w') = exec memory outside (run none self (send intent nonce) key none) w in
        (r ≡ err (quarantined key))
        × (w'.state ≡ w.state)
        × (w'.calls ≡ ChainCall.status signed.tx_hash ∷ ChainCall.sign intent nonce ∷ w.calls)
  unfolding memory Memory.claim check_fingerprint resolve follow decode chain_prober exec
  pending_lem codec ttl intent nonce signed key row w e fl nl sg st =
      rw
        (run_lem memory outside none (guard_of digest lower decimal codec none ttl intent nonce)
          (send intent nonce) key none w)
        (rw (e, Memory.claim)
          (rw (fl, check_fingerprint)
            (rw (differs-none row.fingerprint) (
              rw nl (
                rw (sg (w.tick + 1) w.calls, exec)
                  (rw (st (w.tick + 1 + 1) (ChainCall.sign intent nonce ∷ w.calls), exec)
                    (refl, refl, refl)))))))

  module _ (chain : ℕ) (sender : String)
      (chain_is : (n : ℕ) (past : List ChainCall)
        → outside.answer n past ChainCall.chain_id ≡ ok chain)
      (sender_is : (n : ℕ) (past : List ChainCall)
        → outside.answer n past ChainCall.address ≡ ok sender) where
    -- The call that finds its key in flight with no lease after a crash, under the default policy and
    -- a given nonce: if signing is deterministic and the transaction is mined, the call returns its
    -- hash. It signs and asks for the status, and does not broadcast.
    pub mined_is_replayed :
        (codec : Codec Value) (ttl : Option ℕ) (intent : TxIntent) (nonce : ℕ) (signed : Signed)
        (row : ClaimRecord) (b : Bytes) (w : World ChainCall MemoryStore)
        → lookup (onchain_key digest lower decimal chain sender nonce intent.data_) w.state
          ≡ some row
        → row.state ≡ State.in_flight
        → row.lease_expires_at ≡ none
        → ((n : ℕ) (past : List ChainCall)
            → outside.answer n past (ChainCall.sign intent nonce) ≡ ok signed)
        → ((n : ℕ) (past : List ChainCall)
            → outside.answer n past (ChainCall.status signed.tx_hash) ≡ ok TxStatus.mined)
        → codec.encode (some signed.tx_hash) ≡ ok b
        → codec.decode b ≡ ok (some signed.tx_hash)
        → let (r, w') =
            exec memory outside
              (onchain_call digest lower decimal codec (some nonce) none ttl intent)
              w in
          (r ≡ ok (some signed.tx_hash))
          × (w'.calls
              ≡ ChainCall.status signed.tx_hash
                ∷ ChainCall.sign intent nonce
                ∷ ChainCall.address
                ∷ ChainCall.chain_id
                ∷ w.calls)
    unfolding onchain_call exec
    mined_is_replayed codec ttl intent nonce signed row b w e fl nl sg st enc dec =
        rw (chain_is w.tick w.calls, exec)
          (rw (sender_is (w.tick + 1) (ChainCall.chain_id ∷ w.calls), exec)
            (mined_lem codec ttl intent nonce signed
              (onchain_key digest lower decimal chain sender nonce intent.data_) row b
              (record w {
                calls = ChainCall.address ∷ ChainCall.chain_id ∷ w.calls;
                tick = w.tick + 1 + 1;
              })
              e fl nl sg st enc dec))

    -- The same call while the transaction is pending: it raises QuarantinedError for its key, does
    -- not broadcast, and leaves the store alone.
    pub pending_is_refused :
        (codec : Codec Value) (ttl : Option ℕ) (intent : TxIntent) (nonce : ℕ) (signed : Signed)
        (row : ClaimRecord) (w : World ChainCall MemoryStore)
        → lookup (onchain_key digest lower decimal chain sender nonce intent.data_) w.state
          ≡ some row
        → row.state ≡ State.in_flight
        → row.lease_expires_at ≡ none
        → ((n : ℕ) (past : List ChainCall)
            → outside.answer n past (ChainCall.sign intent nonce) ≡ ok signed)
        → ((n : ℕ) (past : List ChainCall)
            → outside.answer n past (ChainCall.status signed.tx_hash) ≡ ok TxStatus.pending)
        → let (r, w') =
            exec memory outside
              (onchain_call digest lower decimal codec (some nonce) none ttl intent)
              w in
          (r ≡ err (quarantined (onchain_key digest lower decimal chain sender nonce intent.data_)))
          × (w'.state ≡ w.state)
          × (w'.calls
              ≡ ChainCall.status signed.tx_hash
                ∷ ChainCall.sign intent nonce
                ∷ ChainCall.address
                ∷ ChainCall.chain_id
                ∷ w.calls)
    unfolding onchain_call exec
    pending_is_refused codec ttl intent nonce signed row w e fl nl sg st =
        rw (chain_is w.tick w.calls, exec)
          (rw (sender_is (w.tick + 1) (ChainCall.chain_id ∷ w.calls), exec)
            (pending_lem codec ttl intent nonce signed
              (onchain_key digest lower decimal chain sender nonce intent.data_) row
              (record w {
                calls = ChainCall.address ∷ ChainCall.chain_id ∷ w.calls;
                tick = w.tick + 1 + 1;
              })
              e fl nl sg st))
