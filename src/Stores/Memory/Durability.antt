-- ===== src/Stores/Memory/Durability.antt =====
-- What the memory store has committed stays committed.
use exactly_once.Prelude.{String, none, some, Option, Bytes, if◌then◌else◌}
use exactly_once.Types.{State, ClaimRecord, is_state}
use exactly_once.Dict.{lookup}
use exactly_once.Stores.Memory
use exactly_once.Stores.Memory.{MemoryStore}

abbrev pub row_result : ClaimRecord → Option Bytes
row_result row = if is_state row.state State.committed then row.result else none

abbrev pub result_at : MemoryStore → String → Option Bytes
result_at db key = elim (lookup key db) [ none ↦ none | some row ↦ row_result row ]
