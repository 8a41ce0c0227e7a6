-- ===== src/Tests/Inputs.antt =====
-- The inputs that the tests share: numbers as values, and one outside call that answers 7.
use exactly_once.Prelude.{ℕ, none, some, [], ◌∷◌, Bytes}
use exactly_once.Errors
use exactly_once.Errors.{Result, ok, err}
use exactly_once.Codec.{Codec}
use exactly_once.Policies.{Policy}
use exactly_once.Program.{Program}
use exactly_once.Program.Calls
use exactly_once.Core.{Once, OnStoreDown}
use exactly_once.Stores.{Env, Link, Attempt}
use exactly_once.Stores.Memory.{MemoryStore}
use exactly_once.Sequence.{World, Outside}

pub data Charge : Type 0 where
  charge : ℕ → Charge

abbrev pub Receipt : Charge → Type 0
Receipt c = ℕ

abbrev pub decode_number : Bytes → Result ℕ
decode_number [] = err Errors.value_error
decode_number (b ∷ bs) = ok b

abbrev pub number_codec : Codec ℕ
number_codec = record { encode = λ n. ok (n ∷ []); decode = decode_number }

abbrev pub guarded : Once Receipt ℕ
guarded = record {
  policy = Policy.quarantine none;
  codec = number_codec;
  on_store_down = OnStoreDown.fail;
  lease_ttl = none;
  heartbeat_interval = none;
}

abbrev pub leased : Once Receipt ℕ
leased = record guarded { policy = Policy.auto_retry; lease_ttl = some 30 }

abbrev pub pay : Program Receipt ℕ
pay = Calls.extern (charge 50)

abbrev pub env_at : ℕ → Env
env_at n = record {
  now = n;
  server_now = n;
  token = "t";
  link = Link.up;
  attempt = λ _. Attempt.commits;
}

-- Every charge is answered with receipt 7.
abbrev pub paying : Outside Receipt
paying = record { env = env_at; answer = λ n past c. ok 7; beat_end = λ n. ok tt }

-- Every charge raises.
abbrev pub failing : Outside Receipt
failing = record paying { answer = λ n past c. err (Errors.effect_raised 3) }

abbrev pub start_world : World Charge MemoryStore
start_world = record { state = []; current = none; calls = []; tick = 0 }
