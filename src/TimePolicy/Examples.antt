-- ===== src/TimePolicy/Examples.antt =====
-- Tests of src/ipstat_system_time_policy/main.c.
use ipstat.Base.{
  ℕ, ◌≡◌, ◌↔◌, ◌⊎◌, refl, true, false, some, List, [], ◌∷◌, ◌==◌, if◌then◌else◌, arith,
}
use ipstat.CoreUsers.Data.{PacketData, service_traffic, service_squid}
use ipstat.Base.Memory.{bytes_compare, memcmp}
use ipstat.Gtree.Write.{same}
use ipstat.Store.{RowStore}
use ipstat.Mirror.{find_node, sync_table}
use ipstat.Mirror.Init.{init_table}
use ipstat.Mirror.First.{fresh_rows, init_table-sync_table}
use ipstat.Mirror.Find.{Distinct}
use ipstat.Mirror.Law.{IsMirror, IsServing, DistinctRows, find_row}
use ipstat.Mirror.Shows.{shows}
use ipstat.PolicyList.{
  NodePolicy, RowPolicy, policy_of, row_policy, policy_kind, policy_kind-IsMirror,
}
use ipstat.TimePolicy.{
  TimePolicy, NodePolicyTime, Query, all_users, one_user, first_users, check_policy,
  check_intervals, in_interval,
}
use ipstat.TimePolicy.Users.{users_kind, check_user, sync_users_list}
use ipstat.TimePolicy.GroupUsers.{check_group_user}
use ipstat.TimePolicy.TypeTraffic.{check_type_traffic}
use ipstat.TimePolicy.GroupTraffic.{check_group_traffic}
use ipstat.TimePolicy.Sync.{sync_users_list-check_user}
use ipstat.TimePolicy.Autz.{autz, Passes, autz-Passes}

abbrev row_7 : RowPolicy
row_7 = record { key = 7; id_policy = 1; def = 1; md5 = 97 ∷ [] }

abbrev row_9 : RowPolicy
row_9 = record { key = 9; id_policy = 2; def = 0; md5 = 98 ∷ [] }

abbrev two_rows : List RowPolicy
two_rows = row_7 ∷ row_9 ∷ []

abbrev rows_of : Query → List RowPolicy
rows_of (one_user id) = if id == 7 then row_7 ∷ [] else if id == 9 then row_9 ∷ [] else []
rows_of first_users = row_9 ∷ row_7 ∷ []
rows_of _ = two_rows

abbrev two_users : RowStore ℕ Query RowPolicy ℕ
two_users = record {
  open_session = λ d. (true, d);
  select = λ q d. (some (rows_of q), d);
  exec = λ e d. (true, d);
  close = λ d. d;
}

-- User 7 has changed, user 8 is gone for long, user 5 only just.
abbrev old_7 : NodePolicy
old_7 = record { key = 7; id_policy = 3; def = 0; md5 = 99 ∷ []; time_live = 100 }

abbrev old_8 : NodePolicy
old_8 = record { key = 8; id_policy = 3; def = 0; md5 = 99 ∷ []; time_live = 100 }

abbrev old_5 : NodePolicy
old_5 = record { key = 5; id_policy = 3; def = 0; md5 = 99 ∷ []; time_live = 990 }

abbrev morning : NodePolicyTime
morning = record {
  id = 1;
  id_policy = 1;
  week_day = 2;
  time_begin = 100;
  time_end = 200;
  target = 0;
  md5 = [];
  time_live = 1000;
}

abbrev before : TimePolicy
before = record {
  policy_time = morning ∷ [];
  policy_users = old_7 ∷ old_8 ∷ old_5 ∷ [];
  policy_group_users = [];
  policy_type_traffic = [];
  policy_group_traffic = [];
  begin_period = 900;
  week_day = 2;
}

two_users-IsServing : IsServing two_users users_kind two_rows (λ d. Unit)
unfolding users_kind policy_kind
two_users-IsServing = record {
  opens = λ d g. refl;
  open_good = λ d g. tt;
  lists = λ d g. refl;
  list_good = λ d g. tt;
  finds = (λ d g. refl, (λ d g. refl, tt));
  find_good = λ id d g. tt;
  close_good = λ d g. tt;
}

two_rows-Distinct : DistinctRows users_kind two_rows
unfolding users_kind policy_kind find_row
two_rows-Distinct = (refl, (refl, tt))

before-Distinct : Distinct users_kind before.policy_users
unfolding users_kind policy_kind find_node
before-Distinct = (refl, (refl, (refl, tt)))

before-fingerprints :
    (id : ℕ) (r : RowPolicy) (n : NodePolicy)
    → find_row users_kind id two_rows ≡ some r
    → find_node users_kind id before.policy_users ≡ some n
    → same n.md5 (users_kind.row_md5 r) ≡ true
    → policy_of n ≡ row_policy r
unfolding users_kind policy_kind find_row find_node bytes_compare memcmp
before-fingerprints id r n f k t = ground arith

-- The clock says 1000 all the while.
sync_users_list_example :
    (st' : TimePolicy) × (d' : ℕ) × (sync_users_list
        (λ id. (true, true))
        1000
        (some two_users)
        1000
        before
        0
      ≡ some (true, st', d'))
    × Unit {0}
    × Distinct users_kind st'.policy_users
    × ((id : ℕ)
        → check_user id st'
          ≡ shows users_kind 1000 policy_of row_policy
              (find_row users_kind id two_rows)
              (find_node users_kind id before.policy_users))
sync_users_list_example =
    sync_users_list-check_user two_users (λ id. (true, true)) 1000 1000 two_rows (λ d. Unit) before
      0 (λ id. refl) (omega arith) two_users-IsServing tt two_rows-Distinct before-Distinct
      before-fingerprints

-- A packet of user 7, who has policy 3 and no interval, and of a user without a policy.
abbrev packet_of : ℕ → PacketData
packet_of id_user = record {
  service = 1;
  direct = 1;
  id_user = id_user;
  id_group_user = 0;
  id_traffic_group = 0;
  id_traffic_type = 0;
  not_sum = 0;
  len = 60;
}

autz_refused : autz 1050 before service_traffic (packet_of 7) ≡ false
unfolding autz check_user check_group_user check_type_traffic check_group_traffic find_node
    check_policy check_intervals in_interval users_kind
autz_refused = refl

autz-Passes_example : (autz 1050 before service_traffic (packet_of 4) ≡ true) ↔ (
    ((service_traffic ≡ service_traffic) ⊎ (service_traffic ≡ service_squid))
    × Passes 1050 before (check_user 4 before)
    × Passes 1050 before (check_group_user 0 before)
    × Passes 1050 before (check_type_traffic 0 before)
    × Passes 1050 before (check_group_traffic 0 before))
autz-Passes_example = autz-Passes 1050 before service_traffic (packet_of 4)

users-IsMirror : IsMirror users_kind 1000 1010 policy_of row_policy
unfolding users_kind
users-IsMirror = policy_kind-IsMirror all_users one_user 1000 1010 (omega arith)

-- The start of the plugin and a first synchronisation.
-- The rows in the order of the start's listing.
abbrev swapped : List RowPolicy
swapped = row_9 ∷ row_7 ∷ []

swapped-Distinct : DistinctRows users_kind swapped
unfolding users_kind policy_kind find_row
swapped-Distinct = (refl, (refl, tt))

swapped_rows : (id : ℕ) → find_row users_kind id swapped ≡ find_row users_kind id two_rows
unfolding users_kind policy_kind find_row
swapped_rows id = ground arith

init_table-sync_table_example :
    (d₁ d₂ : ℕ) × (init_table users_kind first_users (some two_users) (λ id. (true, true)) 1000 [] 0
      ≡ (true, fresh_rows users_kind 1000 swapped, d₁))
    × (sync_table users_kind (some two_users) (λ id. (true, true)) 1000 1010 (λ list. list) [] 0
        ≡ some (true, fresh_rows users_kind 1000 two_rows, d₂))
    × ((id : ℕ)
        → find_node users_kind id (fresh_rows users_kind 1000 swapped)
          ≡ find_node users_kind id (fresh_rows users_kind 1000 two_rows))
init_table-sync_table_example =
    init_table-sync_table users_kind 1000 1010 policy_of row_policy users-IsMirror two_users
      (λ id. (true, true)) (λ id. refl) two_rows (λ d. Unit) two_users-IsServing first_users swapped
      0 (λ d g. refl) tt swapped-Distinct two_rows-Distinct swapped_rows
