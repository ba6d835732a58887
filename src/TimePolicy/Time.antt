-- ===== src/TimePolicy/Time.antt =====
-- The list of intervals of src/ipstat_system_time_policy/main.c.
use ipstat.Base.{
  ℕ, Bool, true, false, Option, none, some, List, [], ◌>>=◌, take, ◌%◌, ◌^◌, ◌+◌, ◌≤◌, refl, arith,
}
use ipstat.Mirror.{Kind, find_node, insert_node, update_node, delete_node, sync_table}
use ipstat.Mirror.Init.{init_table}
use ipstat.PolicyList.{expired}
use ipstat.Mirror.Law.{IsMirror}
use ipstat.Store.{RowStore}
use ipstat.TimePolicy.{TimePolicy, NodePolicyTime, Query, first_time, all_time, one_time}

-- The columns of a row.
pub record RowTime : Type 0 where
  pub id : ℕ
  pub id_policy : ℕ
  pub week_day : ℕ
  pub time_begin : ℕ
  pub time_end : ℕ
  pub target : ℕ
  pub md5 : List ℕ

-- The assignments that an insertion and an update share; two fields are `guint8`.
unfoldable pub time_node : ℕ → RowTime → NodePolicyTime
time_node now r = record {
  id = r.id;
  id_policy = r.id_policy;
  week_day = r.week_day % 2 ^ 8;
  time_begin = r.time_begin;
  time_end = r.time_end;
  target = r.target % 2 ^ 8;
  md5 = take 32 r.md5;
  time_live = now;
}

unfoldable pub time_kind : Kind NodePolicyTime RowTime Query
time_kind = record {
  key = λ n. n.id;
  md5 = λ n. n.md5;
  row_key = λ r. r.id;
  row_md5 = λ r. take 32 r.md5;
  accepts = λ r. true;
  fresh = λ now r. time_node now r;
  renew = λ now r n. time_node now r;
  found = λ now n. n;
  kept = λ now n. record n { time_live = now };
  is_dead = λ later n. expired later n.time_live;
  listing = all_time;
  by_key = one_time;
}

unfoldable pub time_find : ℕ → TimePolicy → Option NodePolicyTime
time_find id st = find_node time_kind id st.policy_time

unfoldable pub delete_policy_time : ℕ → TimePolicy → Bool × TimePolicy
delete_policy_time id st = elim (find_node time_kind id st.policy_time) [
  | none ↦ (false, st)
  | some n ↦ (true, record st { policy_time = delete_node time_kind id st.policy_time })
]

unfoldable pub free_policy_list : TimePolicy → Bool × TimePolicy
free_policy_list st = (true, record st { policy_time = [] })

module _ {Db Exec : Type 0} (mem : ℕ → Bool × Bool) (now : ℕ) where
  -- Insertion and update run where `sync_time_list` has found the store.
  unfoldable pub insert_policy_time :
      RowStore Db Query RowTime Exec → ℕ → TimePolicy → Db → Option (Bool × TimePolicy × Db)
  insert_policy_time store id st d = do
    (ok, list, d') ← insert_node time_kind store mem now id st.policy_time d
    some (ok, record st { policy_time = list }, d')

  unfoldable pub update_policy_time :
      RowStore Db Query RowTime Exec → ℕ → TimePolicy → Db → Option (Bool × TimePolicy × Db)
  update_policy_time store id st d = do
    (ok, list, d') ← update_node time_kind store mem now id st.policy_time d
    some (ok, record st { policy_time = list }, d')

  unfoldable pub init_policy_list :
      Option (RowStore Db Query RowTime Exec) → TimePolicy → Db → Bool × TimePolicy × Db
  init_policy_list store st d =
      let (ok, list, d') = init_table time_kind first_time store mem now st.policy_time d in
      (ok, record st { policy_time = list }, d')

  -- The walk at the end runs `later`.
  unfoldable pub sync_time_list :
      Option (RowStore Db Query RowTime Exec)
      → ℕ
      → TimePolicy
      → Db
      → Option (Bool × TimePolicy × Db)
  sync_time_list store later st d = do
    (ok, list, d') ← sync_table time_kind store mem now later (λ list. list) st.policy_time d
    some (ok, record st { policy_time = list }, d')

-- What a node or a row says: policy, week day, beginning, end and target.
abbrev pub interval_of : NodePolicyTime → ℕ × ℕ × ℕ × ℕ × ℕ
interval_of n = (n.id_policy, n.week_day, n.time_begin, n.time_end, n.target)

abbrev pub row_interval : RowTime → ℕ × ℕ × ℕ × ℕ × ℕ
row_interval r = (r.id_policy, r.week_day % 2 ^ 8, r.time_begin, r.time_end, r.target % 2 ^ 8)

pub time_kind-IsMirror :
    (now later : ℕ) → later ≤ now + 90 → IsMirror time_kind now later interval_of row_interval
unfolding time_kind time_node
time_kind-IsMirror now later h = record {
  fresh_key = λ r. refl;
  renew_key = λ r n. refl;
  found_key = λ n. refl;
  kept_key = λ n. refl;
  fresh_view = λ r. refl;
  renew_view = λ r n. refl;
  found_view = λ n. refl;
  kept_view = λ n. refl;
  fresh_alive = λ r. ground arith;
  found_alive = λ n. ground arith;
  renew_alive = λ r n. ground arith;
}
