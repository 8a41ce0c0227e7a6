-- ===== src/Stores/Base.antt =====
-- The class `Store` of src/exactly_once/stores/base.py as a record of operations on a state `S`.
-- An operation is given what it asks of its surroundings during the call.
use exactly_once.Prelude.{
  ℕ, String, ◌≡◌, refl, ◌≢◌, ◌⊎◌, Bool, true, false, Option, none, some, List, [], Bytes,
}
use exactly_once.Errors.{Result, ok}
use exactly_once.Types.{State, ClaimResult, ClaimRecord}

-- Whether the server answers a call: not at all, or after the call took effect without an answer.
pub data Link : Type 0 where
  up lost lost_reply : Link

-- How an attempt of a Postgres transaction ends: it commits, it is rolled back by a serialization
-- failure or by a lost connection, or the connection is lost after it committed.
pub data Attempt : Type 0 where
  commits serialization_failure connection_lost lost_after : Attempt

-- `now` is the caller's `time.time()`, `server_now` the clock of a server, and `token` the next
-- `uuid.uuid4().hex`. `attempt n` is the end of the transaction's attempt `n`.
pub record Env : Type 0 where
  pub now : ℕ
  pub server_now : ℕ
  pub token : String
  pub link : Link
  pub attempt : ℕ → Attempt

pub record Store (S : Type 0) : Type 0 where
  pub claim : Env → String → Option String → Option ℕ → S → Result ClaimResult × S
  pub commit : Env → String → Bytes → S → Result (Unit {0}) × S
  pub release : Env → String → Option String → S → Result (Unit {0}) × S
  pub heartbeat : Env → String → String → ℕ → S → Result Bool × S
  pub now : Env → S → Result ℕ × S
  pub get : Env → String → S → Result (Option ClaimRecord) × S
  pub list : Env → Option State → S → Result (List ClaimRecord) × S

-- The asynchronous methods that `Store` defines: each runs the synchronous one in a thread. A
-- `lease_ttl` that is None is not passed on, and None is its default.
module _ {S : Type 0} (store : Store S) where
  abbrev pub aclaim_default : Env → String → Option String → Option ℕ → S → Result ClaimResult × S
  aclaim_default env key fp none s = store.claim env key fp none s
  aclaim_default env key fp (some ttl) s = store.claim env key fp (some ttl) s

  abbrev pub async_default : Store S
  async_default = record {
    claim = aclaim_default;
    commit = λ env key result s. store.commit env key result s;
    release = λ env key token s. store.release env key token s;
    heartbeat = λ env key token ttl s. store.heartbeat env key token ttl s;
    now = λ env s. store.now env s;
    get = λ env key s. store.get env key s;
    list = λ env state s. store.list env state s;
  }

  aclaim_default_lem :
      (env : Env) (key : String) (fp : Option String) (ttl : Option ℕ) (s : S)
      → aclaim_default env key fp ttl s ≡ store.claim env key fp ttl s
  aclaim_default_lem env key fp none s = refl
  aclaim_default_lem env key fp (some ttl) s = refl

  -- So what is proved of a store holds of its asynchronous half.
  pub async_default_lem : async_default ≡ store
  async_default_lem =
      λ i. record store { claim = λ env key fp ttl s. aclaim_default_lem env key fp ttl s i }

-- What the guarantee of the library rests on: from a valid state `claim` is an exclusive
-- check-and-set, no operation leaves the valid states, and a key that has a record loses it by
-- nothing but a `release` of that key.
module _ {S : Type 0} (present : S → String → Bool) (IsValid : S → Type 0) where
  abbrev pub Keeps : {A : Type 0} → (S → A × S) → Type 0
  Keeps m =
      (s : S)
      → IsValid s
      → IsValid (m s).1 × ((j : String) → present s j ≡ true → present (m s).1 j ≡ true)

  pub record Exclusive (store : Store S) : Type 0 where
    pub claim_wins :
        (env : Env) (key : String) (fp : Option String) (ttl : Option ℕ) (s : S) (c : ClaimResult)
        → IsValid s
        → (store.claim env key fp ttl s).0 ≡ ok c
        → c.state ≡ State.fresh
        → (present s key ≡ false) × (present (store.claim env key fp ttl s).1 key ≡ true)
    pub claim_keeps :
        (env : Env) (key : String) (fp : Option String) (ttl : Option ℕ)
        → Keeps (store.claim env key fp ttl)
    pub commit_keeps : (env : Env) (key : String) (b : Bytes) → Keeps (store.commit env key b)
    pub release_valid :
        (env : Env) (key : String) (token : Option String) (s : S)
        → IsValid s
        → IsValid (store.release env key token s).1
    pub release_keeps :
        (env : Env) (key : String) (token : Option String) (s : S) (j : String)
        → IsValid s
        → present s j ≡ true
        → (present (store.release env key token s).1 j ≡ true) ⊎ (j ≡ key)
    pub heartbeat_keeps :
        (env : Env) (key token : String) (ttl : ℕ) → Keeps (store.heartbeat env key token ttl)
    pub now_keeps : (env : Env) → Keeps (store.now env)
    pub get_keeps : (env : Env) (key : String) → Keeps (store.get env key)

-- What a replay rests on: `result_at s key` is the result that is committed under the key, if one
-- is. No operation takes it away or changes it, there is none after a claim that is answered FRESH,
-- a commit that answers leaves its own result where there was none, and a claim answers it; of the
-- stores here, that of Redis answers it unless it is empty.
module _ {S : Type 0} (result_at : S → String → Option Bytes) (IsValid : S → Type 0) where
  abbrev pub Holds : {A : Type 0} → (S → A × S) → Type 0
  Holds m =
      (s : S) (j : String) (b : Bytes)
      → IsValid s
      → result_at s j ≡ some b
      → result_at (m s).1 j ≡ some b

  pub record Durable (store : Store S) : Type 0 where
    pub claim_holds :
        (env : Env) (key : String) (fp : Option String) (ttl : Option ℕ)
        → Holds (store.claim env key fp ttl)
    pub commit_holds : (env : Env) (key : String) (b : Bytes) → Holds (store.commit env key b)
    pub release_holds :
        (env : Env) (key : String) (token : Option String) → Holds (store.release env key token)
    pub heartbeat_holds :
        (env : Env) (key token : String) (ttl : ℕ) → Holds (store.heartbeat env key token ttl)
    pub now_holds : (env : Env) → Holds (store.now env)
    pub get_holds : (env : Env) (key : String) → Holds (store.get env key)
    pub claim_opens :
        (env : Env) (key : String) (fp : Option String) (ttl : Option ℕ) (s : S) (c : ClaimResult)
        → IsValid s
        → (store.claim env key fp ttl s).0 ≡ ok c
        → c.state ≡ State.fresh
        → result_at (store.claim env key fp ttl s).1 key ≡ none
    pub commit_sets :
        (env : Env) (key : String) (b : Bytes) (s : S)
        → IsValid s
        → (store.commit env key b s).0 ≡ ok tt
        → result_at s key ≡ none
        → result_at (store.commit env key b s).1 key ≡ some b
    pub claim_replays :
        (env : Env) (key : String) (fp : Option String) (ttl : Option ℕ) (s : S) (b : Bytes)
        (c : ClaimResult)
        → IsValid s
        → result_at s key ≡ some b
        → (store.claim env key fp ttl s).0 ≡ ok c
        → (c.state ≡ State.committed) × (b ≢ [] → c.result ≡ some b)
