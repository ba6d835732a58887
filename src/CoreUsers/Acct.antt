-- ===== src/CoreUsers/Acct.antt =====
-- `users_acct` of src/core_users.c: the traffic of a packet or a proxy request is added to the
-- rules that it falls under, and to its user.
use ipstat.Base.{
  ℕ, Bool, true, false, not, ◌&&◌, Option, none, some, List, [], ◌∷◌, ◌==◌, if◌then◌else◌, ◌>>=◌,
}
use ipstat.Base.Int.{add32}
use ipstat.Inet.{PacketInfo}
use ipstat.CoreUsers.Data.{
  NodeRule, NodeUser, Core, Request, traffic, squid, other, PacketData, Hooks, service_squid,
}
use ipstat.CoreUsers.Table.{is_null, users_of, users_find, write_user}
use ipstat.CoreUsers.Rules.{goes_on, outside_sum, rule_matches}
use ipstat.CoreUsers.Authz.{hooks_loop, is_empty}

abbrev pub charge_rule : ℕ → NodeRule → NodeRule
charge_rule len r = record r { traffic = add32 r.traffic len }

abbrev pub charge_sum : ℕ → NodeRule → ℕ → ℕ
charge_sum len r sum = if outside_sum r then sum else add32 sum len

-- The loop over the user's rules for SERVICE_TRAFFIC: the rules, and the user's own sum.
unfoldable pub acct_loop : PacketInfo → ℕ → ℕ → List NodeRule → ℕ → Option (List NodeRule × ℕ)
acct_loop p direct len [] sum = some ([], sum)
acct_loop p direct len (r ∷ rs) sum = do
  m ← rule_matches direct p r
  let rest = (do
    (rs', sum') ← acct_loop p direct len rs (if m then charge_sum len r sum else sum)
    some ((if m then charge_rule len r else r) ∷ rs', sum'))
  if m && not (goes_on r) then some (charge_rule len r ∷ rs, charge_sum len r sum) else rest

-- The loop for SERVICE_SQUID: the first rule of the service, active or not.
unfoldable pub acct_squid_loop : ℕ → List NodeRule → ℕ → List NodeRule × ℕ
acct_squid_loop len [] sum = ([], sum)
acct_squid_loop len (r ∷ rs) sum =
    let (rs', sum') = acct_squid_loop len rs sum in
    if r.service == service_squid
    then (charge_rule len r ∷ rs, charge_sum len r sum)
    else (r ∷ rs', sum')

abbrev pub charge_user : List NodeRule × ℕ → NodeUser → NodeUser
charge_user (rules, sum) u = record u { id_rules = rules; traffic = sum }

abbrev pub store_user : Core → NodeUser → Core
store_user c u = record c { st_users = some (write_user u (users_of c)) }

-- The sums; `none` in place of the state is the early `return FALSE`.
unfoldable pub acct_local : Core → Request → PacketData → Option (Option Core)
acct_local c (traffic p) d = elim (users_find c d.id_user) [
  | none ↦ some none
  | some u ↦ do
    sums ← acct_loop p d.direct d.len u.id_rules u.traffic
    some (some (store_user c (charge_user sums u)))
]
acct_local c (squid s) d = elim (users_find c d.id_user) [
  | none ↦ some none
  | some u ↦ some (some (store_user c (charge_user (acct_squid_loop d.len u.id_rules u.traffic) u)))
]
acct_local c (other n) d = some (some c)

-- The hooks for sums are called only where a hook for verdicts is registered: the source tests
-- `extern_autz` here.
abbrev pub after_acct :
    Hooks → Core → Request → Bool → PacketData → Option Core → Core × Bool × Option PacketData
after_acct call c q flag d none = (c, false, some d)
after_acct call c q flag d (some c') =
    let (verdict, ret) =
      if not (is_empty c'.extern_autz) && flag
      then hooks_loop call c'.extern_acct q (some d)
      else (true, some d) in
    (c', verdict, ret)

unfoldable pub users_acct :
    Hooks → Core → Request → Bool → PacketData → Option (Core × Bool × Option PacketData)
unfolding acct_local
users_acct call c q flag_extern_acct d =
    if is_null c
    then some (c, false, some d)
    else (do done ← acct_local c q d; some (after_acct call c q flag_extern_acct d done))
