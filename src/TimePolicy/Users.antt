-- ===== src/TimePolicy/Users.antt =====
-- The list of user policies of src/ipstat_system_time_policy/main.c.
use ipstat.Base.{ℕ, Bool, true, false, Option, none, some, [], ◌>>=◌}
use ipstat.Mirror.{Kind, find_node, insert_node, update_node, delete_node, sync_table}
use ipstat.Mirror.Find.{through}
use ipstat.Mirror.Init.{init_table}
use ipstat.PolicyList.{NodePolicy, RowPolicy, policy_kind, policy_of}
use ipstat.Store.{RowStore}
use ipstat.TimePolicy.{TimePolicy, Query, first_users, all_users, one_user}

unfoldable pub users_kind : Kind NodePolicy RowPolicy Query
unfolding policy_kind
users_kind = policy_kind all_users one_user

unfoldable pub user_find : ℕ → TimePolicy → Option NodePolicy
user_find id st = find_node users_kind id st.policy_users

-- Where the C function returns TRUE, it has set the policy and the default that `some` holds here.
unfoldable pub check_user : ℕ → TimePolicy → Option (ℕ × ℕ)
check_user id st = through policy_of (find_node users_kind id st.policy_users)

unfoldable pub delete_policy_user : ℕ → TimePolicy → Bool × TimePolicy
delete_policy_user id st = elim (find_node users_kind id st.policy_users) [
  | none ↦ (false, st)
  | some n ↦ (true, record st { policy_users = delete_node users_kind id st.policy_users })
]

unfoldable pub free_users_list : TimePolicy → Bool × TimePolicy
free_users_list st = (true, record st { policy_users = [] })

module _ {Db Exec : Type 0} (mem : ℕ → Bool × Bool) (now : ℕ) where
  -- Insertion and update run where `sync_users_list` has found the store.
  unfoldable pub insert_policy_user :
      RowStore Db Query RowPolicy Exec → ℕ → TimePolicy → Db → Option (Bool × TimePolicy × Db)
  insert_policy_user store id st d = do
    (ok, list, d') ← insert_node users_kind store mem now id st.policy_users d
    some (ok, record st { policy_users = list }, d')

  unfoldable pub update_policy_user :
      RowStore Db Query RowPolicy Exec → ℕ → TimePolicy → Db → Option (Bool × TimePolicy × Db)
  update_policy_user store id st d = do
    (ok, list, d') ← update_node users_kind store mem now id st.policy_users d
    some (ok, record st { policy_users = list }, d')

  unfoldable pub init_users_list :
      Option (RowStore Db Query RowPolicy Exec) → TimePolicy → Db → Bool × TimePolicy × Db
  init_users_list store st d =
      let (ok, list, d') = init_table users_kind first_users store mem now st.policy_users d in
      (ok, record st { policy_users = list }, d')

  -- The walk at the end runs `later`.
  unfoldable pub sync_users_list :
      Option (RowStore Db Query RowPolicy Exec)
      → ℕ
      → TimePolicy
      → Db
      → Option (Bool × TimePolicy × Db)
  sync_users_list store later st d = do
    (ok, list, d') ← sync_table users_kind store mem now later (λ list. list) st.policy_users d
    some (ok, record st { policy_users = list }, d')
