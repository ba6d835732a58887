-- ===== src/GroupLimit.antt =====
-- src/ipstat_system_group_limit/main.c: the limits of a user's traffic in a group of traffic.
pub mod Enforce
pub mod Examples
use ipstat.Base.{ℕ, Bool, true, false, ◌&&◌, Option, none, some, List, [], ◌∷◌, ◌==◌, ◌>>=◌}
use ipstat.CoreUsers.Data.{PacketData}
use ipstat.Store.{RowStore}
use ipstat.Mirror.{find_node, insert_node, update_node, delete_node, expire}
use ipstat.Tasks.{
  Statement, keep_day, clear_day, keep_month, clear_month, stamp, rules_group_traffic,
  gl_last_every_day, gl_last_every_month, in_transaction, run_task,
}
use ipstat.LimitList.{
  NodeGroupLimit, RowLimit, Query, Exec, task, limit_kind, mark_delete, check_all, find_owner,
  autz_owner, acct_owner, sync_traffic, sync_limits,
}

-- `id_user` and `id_group`
abbrev pub Owner : Type 0
Owner = ℕ × ℕ

-- `st_group_limit`
abbrev pub GroupLimits : Type 0
GroupLimits = List (NodeGroupLimit Owner)

-- `memcmp` of both is 0.
unfoldable pub compare_group_traffic : ℕ → ℕ → Owner → Bool
compare_group_traffic id_user id_group o = (o.0 == id_user) && (o.1 == id_group)

unfoldable pub find_group_traffic : ℕ → ℕ → GroupLimits → Option (NodeGroupLimit Owner)
find_group_traffic id_user id_group list = find_owner (compare_group_traffic id_user id_group) list

unfoldable pub my_autz : ℕ → PacketData → GroupLimits → Bool
my_autz service ret list =
    autz_owner (compare_group_traffic ret.id_user ret.id_traffic_group) service list

unfoldable pub my_acct : ℕ → PacketData → GroupLimits → Bool × GroupLimits
my_acct service ret list =
    acct_owner (compare_group_traffic ret.id_user ret.id_traffic_group) service ret list

unfoldable pub find_limit : ℕ → GroupLimits → Option (NodeGroupLimit Owner)
find_limit id list = find_node limit_kind id list

unfoldable pub delete_limit : ℕ → GroupLimits → Bool × GroupLimits
delete_limit id list = elim (find_node limit_kind id list) [
  | none ↦ (false, list)
  | some n ↦ (true, delete_node limit_kind id list)
]

-- Deletes the nodes that are marked.
unfoldable pub limits_delete : GroupLimits → Bool × GroupLimits
limits_delete list = (true, expire limit_kind 0 list list)

unfoldable pub free_limits : GroupLimits → Bool × GroupLimits
free_limits list = (true, [])

-- The store as the tasks see it.
abbrev pub task_store :
    {Db : Type 0}
    → RowStore Db Query (RowLimit Owner) Exec
    → RowStore Db Query (RowLimit Owner) Statement
task_store store = record {
  open_session = store.open_session;
  select = store.select;
  exec = λ s. store.exec (task s);
  close = store.close;
}

module _ {Db : Type 0} (mem : ℕ → Bool × Bool) where
  -- Insertion and update run where `sync_limits` has found the store.
  unfoldable pub insert_limit :
      RowStore Db Query (RowLimit Owner) Exec
      → ℕ
      → GroupLimits
      → Db
      → Option (Bool × GroupLimits × Db)
  insert_limit store id list d = insert_node limit_kind store mem 0 id list d

  unfoldable pub update_limit :
      RowStore Db Query (RowLimit Owner) Exec
      → ℕ
      → GroupLimits
      → Db
      → Option (Bool × GroupLimits × Db)
  update_limit store id list d = update_node limit_kind store mem 0 id list d

  unfoldable pub init_limits :
      Option (RowStore Db Query (RowLimit Owner) Exec)
      → GroupLimits
      → Db
      → Option (Bool × GroupLimits × Db)
  init_limits store list d = do
    (_, list', d') ← sync_limits mem store list d
    some (true, list', d')

-- The types 1, 2 and 3 are by day, week and month.
unfoldable pub gl_task_every_day :
    {Db : Type 0}
    → Option (RowStore Db Query (RowLimit Owner) Exec)
    → GroupLimits
    → Db
    → Bool × GroupLimits × Db
gl_task_every_day none list d = (false, list, d)
gl_task_every_day (some store) list d =
    let changes =
      keep_day rules_group_traffic ∷ clear_day rules_group_traffic ∷ stamp gl_last_every_day ∷ [] in
    let (ok, d') = run_task (some (task_store store)) (in_transaction changes) d in
    (ok, check_all 1 list, d')

unfoldable pub gl_task_every_week : GroupLimits → Bool × GroupLimits
gl_task_every_week list = (true, check_all 2 list)

unfoldable pub gl_task_every_month :
    {Db : Type 0}
    → Option (RowStore Db Query (RowLimit Owner) Exec)
    → GroupLimits
    → Db
    → Bool × GroupLimits × Db
gl_task_every_month none list d = (false, list, d)
gl_task_every_month (some store) list d =
    let changes =
      keep_month rules_group_traffic
      ∷ clear_month rules_group_traffic
      ∷ stamp gl_last_every_month
      ∷ [] in
    let (ok, d') = run_task (some (task_store store)) (in_transaction changes) d in
    (ok, check_all 3 list, d')
