-- ===== src/TimePolicy.antt =====
-- src/ipstat_system_time_policy/main.c: users, groups of users, types and groups of traffic have a
-- policy, and a policy has intervals of the week in which it permits or refuses.
pub mod Users
pub mod GroupUsers
pub mod TypeTraffic
pub mod GroupTraffic
pub mod Time
pub mod Autz
pub mod Sync
pub mod Examples
use ipstat.Base.{
  ℕ, ◌/◌, ◌%◌, ◌^◌, Bool, true, false, not, ◌&&◌, Option, none, some, List, [], ◌∷◌, ◌==◌,
  if◌then◌else◌,
}
use ipstat.Base.Int.{pos, ◌-ℤ◌, leb_ℤ}
use ipstat.CoreUsers.Data.{PacketData, service_traffic, service_squid}
use ipstat.PolicyList.{NodePolicy}

pub record NodePolicyTime : Type 0 where
  pub id : ℕ
  pub id_policy : ℕ
  pub week_day : ℕ
  pub time_begin : ℕ
  pub time_end : ℕ
  pub target : ℕ
  pub md5 : List ℕ
  pub time_live : ℕ

-- The plugin's variables. The mutexes are not part of it.
pub record TimePolicy : Type 0 where
  pub policy_time : List NodePolicyTime
  pub policy_users : List NodePolicy
  pub policy_group_users : List NodePolicy
  pub policy_type_traffic : List NodePolicy
  pub policy_group_traffic : List NodePolicy
  pub begin_period : ℕ
  pub week_day : ℕ

-- The `SELECT` statements: for each list the one of the start, the one of the synchronisation, and the
-- row of a key.
pub data Query : Type 0 where
  first_users all_users : Query
  one_user : ℕ → Query
  first_group_users all_group_users : Query
  one_group_user : ℕ → Query
  first_type_traffic all_type_traffic : Query
  one_type_traffic : ℕ → Query
  first_group_traffic all_group_traffic : Query
  one_group_traffic : ℕ → Query
  first_time all_time : Query
  one_time : ℕ → Query

-- The test in the loop of `check_policy`. The two times are signed, and so is their difference.
unfoldable pub in_interval : ℕ → TimePolicy → ℕ → NodePolicyTime → Bool
in_interval now st id_policy node =
    let tek_time = pos now -ℤ pos st.begin_period in
    (node.id_policy == id_policy)
    && (st.week_day == node.week_day)
    && leb_ℤ (pos node.time_begin) tek_time
    && leb_ℤ tek_time (pos node.time_end)

-- The loop: the first interval decides, else the default.
unfoldable pub check_intervals : ℕ → TimePolicy → ℕ → ℕ → List NodePolicyTime → ℕ
check_intervals now st id_policy res [] = res
check_intervals now st id_policy res (node ∷ list) =
    if in_interval now st id_policy node
    then node.target
    else check_intervals now st id_policy res list

unfoldable pub check_policy : ℕ → TimePolicy → ℕ → ℕ → Bool
check_policy now st id_policy def =
    if check_intervals now st id_policy def st.policy_time == 0 then false else true

-- What `localtime` fills in, as far as the plugin uses it; `rest` is the day.
pub record LocalTime : Type 0 where
  pub rest : ℕ
  pub tm_wday : ℕ
  pub tm_hour : ℕ
  pub tm_min : ℕ
  pub tm_sec : ℕ

-- The C library's `localtime` and `mktime` are parameters. The week day is a `guint8`.
unfoldable pub get_begin_period :
    (ℕ → LocalTime) → (LocalTime → ℕ) → ℕ → TimePolicy → ℕ × TimePolicy
get_begin_period localtime mktime now st =
    let t = record (localtime now) { tm_sec = 0; tm_min = 0; tm_hour = 0 } in
    (mktime t, record st { week_day = t.tm_wday % 2 ^ 8 })

unfoldable pub every_day : (ℕ → LocalTime) → (LocalTime → ℕ) → ℕ → TimePolicy → Bool × TimePolicy
every_day localtime mktime now st =
    let (begin_period, st') = get_begin_period localtime mktime now st in
    (true, record st' { begin_period = begin_period })
