-- ===== src/CoreUsers/Authz.antt =====
-- `users_autz` of src/core_users.c: whether the traffic is allowed, and as what it counts.
use ipstat.Base.{
  ℕ, ◌+◌, Bool, true, false, not, ◌&&◌, Option, none, some, List, [], ◌∷◌, ◌==◌, leb, if◌then◌else◌,
  ◌>>=◌, map, take,
}
use ipstat.Inet.{PacketInfo, equal}
use ipstat.CoreUsers.Data.{
  NodeRule, Core, Request, traffic, squid, other, PacketData, Hooks, service_squid, traffic_out,
}
use ipstat.CoreUsers.Table.{is_null, users_find}
use ipstat.CoreUsers.Rules.{goes_on, outside_sum, rule_matches}

-- The class and the sum flag that a matching rule leaves in `ret`.
abbrev pub classify : NodeRule → PacketData → PacketData
classify r d = record d {
  id_traffic_group = r.id_group;
  id_traffic_type = r.id_type;
  not_sum = if outside_sum r then 1 else 0;
}

-- The loop over the user's rules for SERVICE_TRAFFIC.
unfoldable pub autz_loop :
    PacketInfo → List NodeRule → Bool → PacketData → Option (Bool × PacketData)
autz_loop p [] flag d = some (flag, d)
autz_loop p (r ∷ rs) flag d = do
  m ← rule_matches d.direct p r
  let flag' = if m && (r.status == 1) then true else flag
  let d' = if m then classify r d else d
  let rest = autz_loop p rs flag' d'
  if m && not (goes_on r) then some (flag', d') else rest

-- The loop for SERVICE_SQUID: the first active rule of the service.
unfoldable pub autz_squid_loop : List NodeRule → PacketData → Bool × PacketData
autz_squid_loop [] d = (false, d)
autz_squid_loop (r ∷ rs) d =
    let rest = autz_squid_loop rs d in
    if (r.service == service_squid) && (r.status == 1) then (true, classify r d) else rest

abbrev pub tolower : ℕ → ℕ
tolower c = if leb 65 c && leb c 90 then c + 32 else c

-- `strncasecmp(a, b, 17) == 0` for strings without their terminators.
abbrev pub same_mac : List ℕ → List ℕ → Bool
same_mac a b = equal (map tolower (take 17 a)) (map tolower (take 17 b))

abbrev pub is_empty {ℓ} : {A : Type ℓ} → List A → Bool
is_empty [] = true
is_empty _ = false

-- The decision by the rules: `none` in place of the verdict is an early `return FALSE`.
unfoldable pub autz_local : Core → Request → PacketData → Option (Option Bool × PacketData)
autz_local c (traffic p) d = elim (users_find c d.id_user) [
  | none ↦ some (none, d)
  | some u ↦
      if u.status == 0
      then some (none, d)
      else if (d.direct == traffic_out) && not (is_empty u.mac) && not (same_mac u.mac p.mac)
      then some (none, d)
      else (do (flag, d') ← autz_loop p u.id_rules false d; some (some flag, d'))
]
autz_local c (squid s) d = elim (users_find c d.id_user) [
  | none ↦ some (none, d)
  | some u ↦
      if u.status == 0
      then some (none, d)
      else let (flag, d') = autz_squid_loop u.id_rules d in some (some flag, d')
]
autz_local c (other n) d = some (some false, d)

-- The loop over the hooks: it ends at the first that refuses.
unfoldable pub hooks_loop : Hooks → List ℕ → Request → Option PacketData → Bool × Option PacketData
hooks_loop call [] q ret = (true, ret)
hooks_loop call (h ∷ hs) q ret =
    let (flag, ret') = call h q ret in
    let rest = hooks_loop call hs q ret' in if flag then rest else (false, ret')

-- The verdict so far is to allow.
abbrev pub is_true : Option Bool → Bool
is_true (some true) = true
is_true _ = false

-- `ret` is read before it is tested, so a null pointer is a fault.
unfoldable pub users_autz :
    Hooks → Core → Request → Bool → PacketData → Option (Bool × Option PacketData)
unfolding autz_local
users_autz call c q flag_extern_autz d = if is_null c then some (false, some d) else (do
  (verdict, d') ← autz_local c q d
  some (
      if is_true verdict
      then if flag_extern_autz then hooks_loop call c.extern_autz q (some d') else (true, some d')
      else (false, some d')))
