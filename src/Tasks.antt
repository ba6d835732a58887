-- ===== src/Tasks.antt =====
-- src/src/tasks.c, the daily, weekly and monthly change of the sums in the database, and the
-- transactions of the two group limit plugins, which are like it.
pub mod Check
pub mod Once
pub mod Examples
use ipstat.Base.{
  ℕ, zero, suc, Bool, true, false, not, Option, none, some, List, [], ◌∷◌, ◌++◌, if◌then◌else◌,
}
use ipstat.Store.{RowStore}

-- Users, Rules, Rules_GroupTraffic and Rules_UsersGroup.
pub data Table : Type 0 where
  users : Table
  rules : Table
  rules_group_traffic : Table
  rules_users_group : Table

-- The names of the rows of System_Table.
pub data Stamp : Type 0 where
  last_check_limit : Stamp
  last_every_day : Stamp
  last_every_week : Stamp
  last_every_month : Stamp
  gl_last_every_day : Stamp
  gl_last_every_month : Stamp
  ugl_last_every_day : Stamp
  ugl_last_every_month : Stamp

-- The conditions of the statements that `task_check_limit` executes.
pub data Condition : Type 0 where
  unlimited : Condition
  above_limit : Condition
  within_limit : Condition
  in_debt : Condition
  has_balance : Condition
  on_blocked : Condition

-- The statements, by what they say: `reset_traffic` is `Traffic = 0 where Type=n`, `keep_day` is `YDay = TDay`, `clear_day` is
-- `TDay = 0`, `report` is the insertion into System_Report, `stamp` is `replace into System_Table`, `set_active` is `SET onActive`.
pub data Statement : Type 0 where
  no_autocommit : Statement
  start_transaction : Statement
  commit : Statement
  rollback : Statement
  reset_traffic : Table → ℕ → Statement
  keep_day : Table → Statement
  clear_day : Table → Statement
  keep_month : Table → Statement
  clear_month : Table → Statement
  report : Statement
  stamp : Stamp → Statement
  set_active : Table → Bool → Condition → Statement

module _ {Db Query Row : Type 0} (store : RowStore Db Query Row Statement) where
  -- `goto error` at the first statement that is refused.
  unfoldable pub exec_all : List Statement → Db → Bool × Db
  exec_all [] d = (true, d)
  exec_all (s ∷ list) d =
      let (ok, d') = store.exec s d in
      let rest = exec_all list d' in if ok then rest else (false, d')

  -- `start_label`: the program's own count bounds the tries.
  unfoldable pub try_all : ℕ → List Statement → Db → Bool × Db
  try_all zero list d = (false, d)
  try_all (suc count) list d =
      let (ok, d') = exec_all list d in
      let (_, d″) = store.exec rollback d' in
      let rest = try_all count list d″ in if ok then (true, d') else rest

-- The frame of the tasks. After the last try the session stays open.
unfoldable pub run_task :
    {Db Query Row : Type 0}
    → Option (RowStore Db Query Row Statement)
    → List Statement
    → Db
    → Bool × Db
run_task none list d = (false, d)
run_task (some store) list d =
    let (opened, d₁) = store.open_session d in
    let (ok, d₂) = try_all store 4 list d₁ in
    if not opened then (true, d₁) else if ok then (true, store.close d₂) else (false, d₂)

-- What stands between the start and the end of each transaction.
abbrev pub in_transaction : List Statement → List Statement
in_transaction list = no_autocommit ∷ start_transaction ∷ list ++ (commit ∷ [])

abbrev pub day_changes : List Statement
day_changes =
    reset_traffic users 1
    ∷ keep_day users
    ∷ clear_day users
    ∷ reset_traffic rules 1
    ∷ report
    ∷ keep_day rules
    ∷ clear_day rules
    ∷ stamp last_every_day
    ∷ []

abbrev pub week_changes : List Statement
week_changes = reset_traffic users 2 ∷ reset_traffic rules 2 ∷ stamp last_every_week ∷ []

abbrev pub month_changes : List Statement
month_changes =
    reset_traffic users 3
    ∷ keep_month users
    ∷ clear_month users
    ∷ reset_traffic rules 3
    ∷ keep_month rules
    ∷ clear_month rules
    ∷ stamp last_every_month
    ∷ []

module _ {Db Query Row : Type 0} (store : Option (RowStore Db Query Row Statement)) where
  unfoldable pub task_every_day : Db → Bool × Db
  task_every_day d = run_task store (in_transaction day_changes) d

  unfoldable pub task_every_week : Db → Bool × Db
  task_every_week d = run_task store (in_transaction week_changes) d

  unfoldable pub task_every_month : Db → Bool × Db
  task_every_month d = run_task store (in_transaction month_changes) d

-- The statements of `task_check_limit`, whose failures are ignored.
abbrev pub check_statements : List Statement
check_statements =
    set_active users true unlimited
    ∷ set_active users false above_limit
    ∷ set_active users true within_limit
    ∷ set_active users false in_debt
    ∷ set_active users true has_balance
    ∷ set_active rules true unlimited
    ∷ set_active rules false above_limit
    ∷ set_active rules true within_limit
    ∷ set_active users false on_blocked
    ∷ set_active rules false on_blocked
    ∷ stamp last_check_limit
    ∷ []

unfoldable pub exec_each :
    {Db Query Row : Type 0} → RowStore Db Query Row Statement → List Statement → Db → Db
exec_each store [] d = d
exec_each store (s ∷ list) d = exec_each store list (store.exec s d).1

unfoldable pub task_check_limit :
    {Db Query Row : Type 0} → Option (RowStore Db Query Row Statement) → Db → Bool × Db
task_check_limit none d = (false, d)
task_check_limit (some store) d =
    let (opened, d₁) = store.open_session d in
    if opened then (true, store.close (exec_each store check_statements d₁)) else (false, d₁)
