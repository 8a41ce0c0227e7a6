-- ===== src/Lib.antt =====
-- A verification of exactly-once, a library that guards a side effect so that it fires at most once for
-- a key (src/exactly_once).
--
-- The parts. A `once` object (core.py) claims a key in a store, asks a reconciliation policy
-- (policies.py) what to do with a key that is in flight, runs the caller's effect where it won the
-- claim, and commits the encoded result (codec.py), which later calls replay. A store (stores/*.py)
-- makes claim, commit, release and heartbeat atomic; leases and heartbeats tell a slow worker from a
-- dead one.
--
--   Prelude, Dict        shared names; a dict as an association list, with its laws
--   Errors, Types        errors.py and _types.py
--   Codec                codec.py: the protocol and JSONCodec; Python's json is a parameter
--   Program              a call as a program that asks for one operation at a time: those of the store,
--                        the clock, the heartbeat, the current key, and the caller's code, which is a
--                        parameter (`Op.extern`); Program/Calls names the operations
--   Policies/Defs        the values of policies.py and the five policies
--   Policies/Resolve     `resolve` of each policy; Policies/Aresolve the asynchronous `aresolve`
--   Core/Defs            the helpers of `once`: claiming, fingerprints, decoding, heartbeats
--   Core/Run, Core/Arun  `_run` and `_arun`, the decorator form
--   Core/Parity          the two decorator forms compared
--   Values, Keys         keys.py over Python's values: keys given and derived, and fingerprints;
--                        Keys/Sorting is the sort of the keyword arguments, Keys/Laws tells keys apart
--   Core/Beats           the bodies of a heartbeat, of a thread and of a task
--   Core/Wrapper         `__call__` and the entering of a block, from the key and the fingerprint on
--   Core/Guards, Core/Aguards  the context manager: `__enter__`, `__exit__` and their async halves
--   Stores/Base          the class Store as a record, and `Exclusive` and `Durable`, what its
--                        clients rely on
--   Stores/Memory, Stores/Sqlite, Stores/Postgres, Stores/Redis  the four stores, each with its Laws
--                        (exclusive claims) and its Durability (committed results);
--                        Stores/Effects has the table and the statements that the SQL stores share,
--                        Stores/Schema its columns and its migration, Stores/Rows the reading of a row;
--                        Stores/Agree compares the answers of the memory, SQLite and Postgres stores;
--                        Stores/Redis/Scripts the Lua scripts, Stores/Redis/Async the
--                        asynchronous half, Stores/Redis/Retention and Stores/Redis/InFlight what a
--                        committed_ttl drops and what it does not
--   Workers              many callers of one key over any store: System is a step relation in which
--                        they start, act one operation at a time, renew leases and crash in any order;
--                        Blocks is the with statement; Claims has what the four forms share, Entries
--                        what one caller of the decorator may fire, Owners and Exits what a block may;
--                        Invariant and AtMostOnce count the effects of all, Permanence follows a
--                        committed result
--   Sequence             calls one after the other over a store, run by `exec`; Replay and Twice follow
--                        a call by what the store holds, Wrapped the calls of a decorated function
--                        with no key of its own, Durably a call and a later one over any store, with
--                        other callers between, Leases what becomes of a lease, Probes the verdicts of
--                        a prober after a crash, Blocks the context manager, Waiting the loop of Wait,
--                        Beats the renewals of a heartbeat, Heartbeats the end of an asynchronous one,
--                        Steps a call over any store by its claim, Files calls over a SQLite file,
--                        Withs a whole with statement
--   Onchain              onchain.py: the prober and the guarded transaction; Resume runs it after a crash,
--                        Web3 is Web3ChainClient over the calls of web3
--   Integrations         integrations/langgraph.py and integrations/crewai.py; Replay runs them twice
--   Examples             examples/payment.py, email.py and crash_mid_payment.py as runs over a store and a
--                        service that answers by the calls made before
--   Scripts              scripts/check_docs_honesty.py
--   Tests                concrete inputs, runs on them, and applications of the theorems
--
-- Times and intervals are whole microseconds. The loop of Wait has fuel `timeout + 1`, enough since a
-- round takes a microsecond or more; a SQLite claim has the source's 100 attempts and a Postgres
-- transaction its 5. What another party decides is an input: `Env` has the clocks, the next token, how a
-- round trip or an attempt ends, and `others` in Stores/Sqlite what other processes do to the file.
--
-- Not modelled: the sqlite3.OperationalError of a database that is still locked after its timeout, the
-- connection to a server as such, log messages and the texts of exceptions, and threads and event
-- loops as such (their interleavings are the steps of Workers/System; how long a heartbeat runs is an
-- input). The benchmark (scripts/benchmark.py) only measures times.
pub mod Prelude
pub mod Errors
pub mod Types
pub mod Dict
pub mod Program
pub mod Codec
pub mod Keys
pub mod Values
pub mod Policies
pub mod Core
pub mod Stores
pub mod Workers
pub mod Sequence
pub mod Onchain
pub mod Integrations
pub mod Examples
pub mod Scripts
mod Tests
