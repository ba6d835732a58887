-- ===== src/Store.antt =====
-- The client's side of src/store.c: the functions behind `STORE_API`, over the state of the database
-- server that they reach. The server and its client library are not part of the program, so the
-- functions are a parameter.
pub mod Log
pub mod Small
use ipstat.Base.{ℕ, Bool, Option, List}

-- `open` is the call that returns a session or NULL; `query` is `query`, `fetch_row`, the first
-- column as a number and `free`, or `none` where `query` returns FALSE.
pub record StoreApi (Db Query Exec : Type 0) : Type 0 where
  pub open_session : Db → Bool × Db
  pub query : Query → Db → Option ℕ × Db
  pub exec : Exec → Db → Bool × Db
  pub close : Db → Db

-- The same functions for a client that reads rows: `select` is `query` and the rows that
-- `fetch_row` then returns, a column of numbers as the number, or `none` where `query` returns FALSE.
pub record RowStore (Db Query Row Exec : Type 0) : Type 0 where
  pub open_session : Db → Bool × Db
  pub select : Query → Db → Option (List Row) × Db
  pub exec : Exec → Db → Bool × Db
  pub close : Db → Db
