-- ===== src/GroupLimit/Examples.antt =====
-- Tests of src/ipstat_system_group_limit/main.c.
use ipstat.Base.{ℕ, ◌+◌, ◌≢◌, refl, true, List, [], ◌∷◌, All, arith}
use ipstat.CoreUsers.Data.{PacketData}
use ipstat.LimitList.{NodeGroupLimit, no_limit, find_owner}
use ipstat.GroupLimit.{find_group_traffic, compare_group_traffic}
use ipstat.GroupLimit.Enforce.{handle, Short, Below, handle-Below}

abbrev packet : ℕ → ℕ → ℕ × PacketData
packet id_user len = (
  1,
  record {
    service = 1;
    direct = 1;
    id_user = id_user;
    id_group_user = 0;
    id_traffic_group = 6;
    id_traffic_type = 0;
    not_sum = 0;
    len = len;
  },
)

abbrev a_limit : NodeGroupLimit (ℕ × ℕ)
a_limit = record {
  id = 1;
  owner = (4, 6);
  type = 1;
  limitation = 500;
  traffic = 400;
  alpha = 0;
  onblocked = 0;
  status = true;
  md5 = [];
}

abbrev requests : List (ℕ × PacketData)
requests = packet 4 90 ∷ packet 5 90 ∷ packet 4 90 ∷ packet 4 90 ∷ []

a_limit-Below : Below 4 6 500 (500 + 90) (a_limit ∷ [])
unfolding find_group_traffic find_owner compare_group_traffic
a_limit-Below = (a_limit, refl, refl, omega arith)

requests-Short : All (Short 90) requests
requests-Short = (omega arith, (omega arith, (omega arith, (omega arith, tt))))

has_limit : 500 ≢ no_limit
has_limit e = omega (arith, e)

handle-Below_example : Below 4 6 500 (500 + 90) (handle requests (a_limit ∷ []))
handle-Below_example =
    handle-Below 4 6 500 90 requests (a_limit ∷ []) has_limit (omega arith) requests-Short
      a_limit-Below
