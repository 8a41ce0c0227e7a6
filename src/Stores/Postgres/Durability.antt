-- ===== src/Stores/Postgres/Durability.antt =====
-- What the Postgres store has committed stays committed, by its synchronous and by its asynchronous
-- methods.
use exactly_once.Errors
use exactly_once.Stores.Postgres
