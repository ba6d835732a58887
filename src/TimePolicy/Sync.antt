-- ===== src/TimePolicy/Sync.antt =====
-- What the synchronised lists of src/ipstat_system_time_policy/main.c answer.
use ipstat.Base.{ℕ, ◌+◌, ◌≤◌, ◌≡◌, refl, Bool, true, some, List}
use ipstat.Base.Memory.{bytes_compare}
use ipstat.Gtree.Write.{same}
use ipstat.Store.{RowStore}
use ipstat.Mirror.{find_node}
use ipstat.Mirror.Find.{Distinct}
use ipstat.Mirror.Law.{IsServing, DistinctRows, find_row}
use ipstat.Mirror.Shows.{shows}
use ipstat.Mirror.Mirrors.{sync_table-Shows}
use ipstat.PolicyList.{
  NodePolicy, RowPolicy, policy_kind, policy_kind-IsMirror, policy_of, row_policy,
}
use ipstat.TimePolicy.{TimePolicy, Query, all_users, one_user}
use ipstat.TimePolicy.Users.{users_kind, check_user, sync_users_list}

-- Where the database serves the rows, with no key twice, where there is memory, the deletion follows
-- soon enough, no user is twice in the list, and a node with the fingerprint of its row has the row's
-- policy and default, the synchronisation of the users succeeds; then no user is twice in the list, and
-- `check_user` finds for each user of the database the policy and the default that the rows give, and
-- for another user what the node gave that is not yet to be deleted.
pub sync_users_list-check_user :
    {Db Exec : Type 0} (store : RowStore Db Query RowPolicy Exec) (mem : ℕ → Bool × Bool)
    (now later : ℕ) (rows : List RowPolicy) (IsGood : Db → Type 0) (st : TimePolicy) (d : Db)
    → ((id : ℕ) → mem id ≡ (true, true))
    → later ≤ now + 90
    → IsServing store users_kind rows IsGood
    → IsGood d
    → DistinctRows users_kind rows
    → Distinct users_kind st.policy_users
    → ((id : ℕ) (r : RowPolicy) (n : NodePolicy)
        → find_row users_kind id rows ≡ some r
        → find_node users_kind id st.policy_users ≡ some n
        → same n.md5 (users_kind.row_md5 r) ≡ true
        → policy_of n ≡ row_policy r)
    → (st' : TimePolicy) × (d' : Db) × (sync_users_list mem now (some store) later st d
        ≡ some (true, st', d'))
      × IsGood d'
      × Distinct users_kind st'.policy_users
      × ((id : ℕ)
          → check_user id st'
            ≡ shows users_kind later policy_of row_policy
                (find_row users_kind id rows)
                (find_node users_kind id st.policy_users))
unfolding sync_users_list check_user policy_kind users_kind
sync_users_list-check_user store mem now later rows IsGood st d h t serve g w u m =
    let law = policy_kind-IsMirror all_users one_user now later t in
    let (list', d', e, g', s) =
      sync_table-Shows users_kind now later policy_of row_policy law store mem h rows IsGood serve
        (λ list. list) st.policy_users d g w u (λ id r f. refl) m in
    (record st { policy_users = list' }, d', rw e refl, g', s.0, s.1)
