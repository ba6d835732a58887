-- ===== src/TimePolicy/GroupTraffic.antt =====
-- The list of traffic group policies of src/ipstat_system_time_policy/main.c.
use ipstat.Base.{ℕ, Bool, true, false, Option, none, some, [], ◌>>=◌}
use ipstat.Mirror.{Kind, find_node, insert_node, update_node, delete_node, sync_table}
use ipstat.Mirror.Find.{through}
use ipstat.Mirror.Init.{init_table}
use ipstat.PolicyList.{NodePolicy, RowPolicy, policy_kind, policy_of}
use ipstat.Store.{RowStore}
use ipstat.TimePolicy.{TimePolicy, Query, first_group_traffic, all_group_traffic, one_group_traffic}

unfoldable pub group_traffic_kind : Kind NodePolicy RowPolicy Query
unfolding policy_kind
group_traffic_kind = policy_kind all_group_traffic one_group_traffic

unfoldable pub group_traffic_find : ℕ → TimePolicy → Option NodePolicy
group_traffic_find id st = find_node group_traffic_kind id st.policy_group_traffic

-- Where the C function returns TRUE, it has set the policy and the default that `some` holds here.
unfoldable pub check_group_traffic : ℕ → TimePolicy → Option (ℕ × ℕ)
check_group_traffic id st =
    through policy_of (find_node group_traffic_kind id st.policy_group_traffic)

unfoldable pub delete_policy_group_traffic : ℕ → TimePolicy → Bool × TimePolicy
delete_policy_group_traffic id st = elim (find_node group_traffic_kind id st.policy_group_traffic) [
  | none ↦ (false, st)
  | some n ↦ (
    true,
    record st { policy_group_traffic = delete_node group_traffic_kind id st.policy_group_traffic },
  )
]

unfoldable pub free_group_traffic_list : TimePolicy → Bool × TimePolicy
free_group_traffic_list st = (true, record st { policy_group_traffic = [] })

module _ {Db Exec : Type 0} (mem : ℕ → Bool × Bool) (now : ℕ) where
  -- Insertion and update run where `sync_group_traffic_list` has found the store.
  unfoldable pub insert_policy_group_traffic :
      RowStore Db Query RowPolicy Exec → ℕ → TimePolicy → Db → Option (Bool × TimePolicy × Db)
  insert_policy_group_traffic store id st d = do
    (ok, list, d') ← insert_node group_traffic_kind store mem now id st.policy_group_traffic d
    some (ok, record st { policy_group_traffic = list }, d')

  unfoldable pub update_policy_group_traffic :
      RowStore Db Query RowPolicy Exec → ℕ → TimePolicy → Db → Option (Bool × TimePolicy × Db)
  update_policy_group_traffic store id st d = do
    (ok, list, d') ← update_node group_traffic_kind store mem now id st.policy_group_traffic d
    some (ok, record st { policy_group_traffic = list }, d')

  unfoldable pub init_group_traffic_list :
      Option (RowStore Db Query RowPolicy Exec) → TimePolicy → Db → Bool × TimePolicy × Db
  init_group_traffic_list store st d =
      let (ok, list, d') =
        init_table group_traffic_kind first_group_traffic store mem now st.policy_group_traffic d in
      (ok, record st { policy_group_traffic = list }, d')

  -- The walk at the end runs `later`.
  unfoldable pub sync_group_traffic_list :
      Option (RowStore Db Query RowPolicy Exec)
      → ℕ
      → TimePolicy
      → Db
      → Option (Bool × TimePolicy × Db)
  sync_group_traffic_list store later st d = do
    (ok, list, d') ←
        sync_table group_traffic_kind store mem now later (λ list. list) st.policy_group_traffic d
    some (ok, record st { policy_group_traffic = list }, d')
