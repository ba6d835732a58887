-- ===== src/TimePolicy/GroupUsers.antt =====
-- The list of user group policies of src/ipstat_system_time_policy/main.c.
use ipstat.Base.{ℕ, Bool, true, false, Option, none, some, [], ◌>>=◌}
use ipstat.Mirror.{Kind, find_node, insert_node, update_node, delete_node, sync_table}
use ipstat.Mirror.Find.{through}
use ipstat.Mirror.Init.{init_table}
use ipstat.PolicyList.{NodePolicy, RowPolicy, policy_kind, policy_of}
use ipstat.Store.{RowStore}
use ipstat.TimePolicy.{TimePolicy, Query, first_group_users, all_group_users, one_group_user}

unfoldable pub group_users_kind : Kind NodePolicy RowPolicy Query
unfolding policy_kind
group_users_kind = policy_kind all_group_users one_group_user

unfoldable pub group_user_find : ℕ → TimePolicy → Option NodePolicy
group_user_find id st = find_node group_users_kind id st.policy_group_users

-- Where the C function returns TRUE, it has set the policy and the default that `some` holds here.
unfoldable pub check_group_user : ℕ → TimePolicy → Option (ℕ × ℕ)
check_group_user id st = through policy_of (find_node group_users_kind id st.policy_group_users)

unfoldable pub delete_policy_group_user : ℕ → TimePolicy → Bool × TimePolicy
delete_policy_group_user id st = elim (find_node group_users_kind id st.policy_group_users) [
  | none ↦ (false, st)
  | some n ↦ (
    true,
    record st { policy_group_users = delete_node group_users_kind id st.policy_group_users },
  )
]

unfoldable pub free_group_users_list : TimePolicy → Bool × TimePolicy
free_group_users_list st = (true, record st { policy_group_users = [] })

module _ {Db Exec : Type 0} (mem : ℕ → Bool × Bool) (now : ℕ) where
  -- Insertion and update run where `sync_group_users_list` has found the store.
  unfoldable pub insert_policy_group_user :
      RowStore Db Query RowPolicy Exec → ℕ → TimePolicy → Db → Option (Bool × TimePolicy × Db)
  insert_policy_group_user store id st d = do
    (ok, list, d') ← insert_node group_users_kind store mem now id st.policy_group_users d
    some (ok, record st { policy_group_users = list }, d')

  unfoldable pub update_policy_group_user :
      RowStore Db Query RowPolicy Exec → ℕ → TimePolicy → Db → Option (Bool × TimePolicy × Db)
  update_policy_group_user store id st d = do
    (ok, list, d') ← update_node group_users_kind store mem now id st.policy_group_users d
    some (ok, record st { policy_group_users = list }, d')

  unfoldable pub init_group_users_list :
      Option (RowStore Db Query RowPolicy Exec) → TimePolicy → Db → Bool × TimePolicy × Db
  init_group_users_list store st d =
      let (ok, list, d') =
        init_table group_users_kind first_group_users store mem now st.policy_group_users d in
      (ok, record st { policy_group_users = list }, d')

  -- The walk at the end runs `later`.
  unfoldable pub sync_group_users_list :
      Option (RowStore Db Query RowPolicy Exec)
      → ℕ
      → TimePolicy
      → Db
      → Option (Bool × TimePolicy × Db)
  sync_group_users_list store later st d = do
    (ok, list, d') ←
        sync_table group_users_kind store mem now later (λ list. list) st.policy_group_users d
    some (ok, record st { policy_group_users = list }, d')
