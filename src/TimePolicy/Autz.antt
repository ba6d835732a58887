-- ===== src/TimePolicy/Autz.antt =====
-- `autz` of src/ipstat_system_time_policy/main.c, the plugin's authorisation hook.
use ipstat.Base.{
  ℕ, ◌+◌, ◌≤◌, ◌≡◌, ◌≢◌, ◌↔◌, ◌⊎◌, inl, inr, refl, Bool, true, false, ◌||◌, Option, none, some,
  List, [], ◌∷◌, ◌++◌, All, ◌==◌, if◌then◌else◌, arith, Bool-cases, sym, ◌∙◌,
}
use ipstat.Base.Int.{◌-ℤ◌}
use ipstat.CoreUsers.Data.{PacketData, service_traffic, service_squid}
use ipstat.TimePolicy.{TimePolicy, NodePolicyTime, in_interval, check_intervals, check_policy}
use ipstat.TimePolicy.Users.{check_user}
use ipstat.TimePolicy.GroupUsers.{check_group_user}
use ipstat.TimePolicy.TypeTraffic.{check_type_traffic}
use ipstat.TimePolicy.GroupTraffic.{check_group_traffic}

-- One of the four tests and what follows it: where there is no policy the next is tried.
abbrev pub check_then : ℕ → TimePolicy → Option (ℕ × ℕ) → Bool → Bool
check_then now st none rest = rest
check_then now st (some p) rest = if check_policy now st p.0 p.1 then rest else false

-- `ret` is `PACKET_DATA_INFO` or `SQUID_DATA_INFO`, as the service says.
unfoldable pub autz : ℕ → TimePolicy → ℕ → PacketData → Bool
autz now st service ret =
    if (service == service_traffic) || (service == service_squid)
    then check_then now st (check_user ret.id_user st) (
        check_then now st (check_group_user ret.id_group_user st) (
          check_then now st (check_type_traffic ret.id_traffic_type st)
            (check_then now st (check_group_traffic ret.id_traffic_group st) true)))
    else false

-- What an interval is for: the policy, the day of the week and the seconds of the day.
abbrev pub Covers : ℕ → TimePolicy → ℕ → NodePolicyTime → Type 0
Covers now st id_policy node =
    (node.id_policy ≡ id_policy)
    × (st.week_day ≡ node.week_day)
    × (st.begin_period + node.time_begin ≤ now)
    × (now ≤ st.begin_period + node.time_end)

abbrev Misses : ℕ → TimePolicy → ℕ → NodePolicyTime → Type 0
Misses now st id_policy node = Covers now st id_policy node → ⊥

in_interval-Covers :
    (now : ℕ) (st : TimePolicy) (id_policy : ℕ) (node : NodePolicyTime)
    → (in_interval now st id_policy node ≡ true) ↔ Covers now st id_policy node
unfolding in_interval ◌-ℤ◌
in_interval-Covers now st id_policy node = ground arith

in_interval-Misses :
    (now : ℕ) (st : TimePolicy) (id_policy : ℕ) (node : NodePolicyTime)
    → in_interval now st id_policy node ≡ false
    → Misses now st id_policy node
in_interval-Misses now st id_policy node e c =
    let t = (in_interval-Covers now st id_policy node).1 c in cc

-- The first interval that covers the moment decides by its target; without one, the default does.
abbrev pub Permits : ℕ → TimePolicy → ℕ × ℕ → List NodePolicyTime → Type 0
Permits now st p list =
    ((before : List NodePolicyTime) × (node : NodePolicyTime) × (after : List NodePolicyTime)
      × (list ≡ before ++ (node ∷ after))
      × All (Misses now st p.0) before
      × Covers now st p.0 node
      × (node.target ≢ 0))
    ⊎ (All (Misses now st p.0) list × (p.1 ≢ 0))

module _ (now : ℕ) (st : TimePolicy) (p : ℕ × ℕ) (node : NodePolicyTime)
    (list : List NodePolicyTime) where
  check-covering :
      in_interval now st p.0 node ≡ true
      → check_intervals now st p.0 p.1 (node ∷ list) ≡ node.target
  unfolding check_intervals
  check-covering e = rw e refl

  check-missing :
      in_interval now st p.0 node ≡ false
      → check_intervals now st p.0 p.1 (node ∷ list) ≡ check_intervals now st p.0 p.1 list
  unfolding check_intervals
  check-missing e = rw e refl

  Misses-first : Misses now st p.0 node → Permits now st p list → Permits now st p (node ∷ list)
  Misses-first m (inl (before, n, after, e, a, c, t)) =
      inl (node ∷ before, n, after, rw e refl, (m, a), c, t)
  Misses-first m (inr (a, t)) = inr ((m, a), t)

check_intervals-Permits :
    (now : ℕ) (st : TimePolicy) (p : ℕ × ℕ) (list : List NodePolicyTime)
    → check_intervals now st p.0 p.1 list ≢ 0
    → Permits now st p list
unfolding check_intervals
check_intervals-Permits now st p [] h = inr (tt, h)
check_intervals-Permits now st p (node ∷ list) h = elim (Bool-cases (in_interval now st p.0 node)) [
  | inl e ↦ inl (
    [],
    node,
    list,
    refl,
    tt,
    (in_interval-Covers now st p.0 node).0 e,
    λ z. h (check-covering now st p node list e ∙ z),
  )
  | inr e ↦
      Misses-first now st p node list (in_interval-Misses now st p.0 node e)
        (check_intervals-Permits now st p list (λ z. h (check-missing now st p node list e ∙ z)))
]

covered-target :
    (now : ℕ) (st : TimePolicy) (p : ℕ × ℕ) (before : List NodePolicyTime) (node : NodePolicyTime)
    (after : List NodePolicyTime)
    → All (Misses now st p.0) before
    → Covers now st p.0 node
    → check_intervals now st p.0 p.1 (before ++ (node ∷ after)) ≡ node.target
covered-target now st p [] node after m c =
    check-covering now st p node after ((in_interval-Covers now st p.0 node).1 c)
covered-target now st p (n ∷ before) node after m c = elim (Bool-cases (in_interval now st p.0 n)) [
  | inl e ↦ absurd (m.0 ((in_interval-Covers now st p.0 n).0 e))
  | inr e ↦
      check-missing now st p n (before ++ (node ∷ after)) e
      ∙ covered-target now st p before node after m.1 c
]

uncovered-default :
    (now : ℕ) (st : TimePolicy) (p : ℕ × ℕ) (list : List NodePolicyTime)
    → All (Misses now st p.0) list
    → check_intervals now st p.0 p.1 list ≡ p.1
unfolding check_intervals
uncovered-default now st p [] m = refl
uncovered-default now st p (n ∷ list) m = elim (Bool-cases (in_interval now st p.0 n)) [
  | inl e ↦ absurd (m.0 ((in_interval-Covers now st p.0 n).0 e))
  | inr e ↦ check-missing now st p n list e ∙ uncovered-default now st p list m.1
]

Permits-check_intervals :
    (now : ℕ) (st : TimePolicy) (p : ℕ × ℕ) (list : List NodePolicyTime)
    → Permits now st p list
    → check_intervals now st p.0 p.1 list ≢ 0
Permits-check_intervals now st p list (inl (before, n, after, e, a, c, t)) =
    λ z. t (sym (covered-target now st p before n after a c) ∙ (rw (sym e) z))
Permits-check_intervals now st p list (inr (a, t)) =
    λ z. t (sym (uncovered-default now st p list a) ∙ z)

pub check_policy-Permits :
    (now : ℕ) (st : TimePolicy) (p : ℕ × ℕ)
    → (check_policy now st p.0 p.1 ≡ true) ↔ Permits now st p st.policy_time
unfolding check_policy
check_policy-Permits now st p =
    let a = check_intervals-Permits now st p st.policy_time in
    let b = Permits-check_intervals now st p st.policy_time in
    (λ e. a (ground arith), λ w. let z = b w in ground arith)

-- No policy, or a policy that permits.
abbrev pub Passes : ℕ → TimePolicy → Option (ℕ × ℕ) → Type 0
Passes now st none = Unit
Passes now st (some p) = Permits now st p st.policy_time

check_then-Passes :
    (now : ℕ) (st : TimePolicy) (o : Option (ℕ × ℕ)) (rest : Bool)
    → (check_then now st o rest ≡ true) ↔ (Passes now st o × (rest ≡ true))
check_then-Passes now st none rest = (λ e. (tt, e), λ h. h.1)
check_then-Passes now st (some p) rest =
    let c = check_policy-Permits now st p in
    elim (Bool-cases (check_policy now st p.0 p.1)) [
      | inl e ↦ rw e (λ h. (c.0 e, h), λ h. h.1)
      | inr e ↦ rw e (λ h. cc, λ h. let t = c.1 h.0 in cc)
    ]

is_served :
    (service : ℕ)
    → (((service == service_traffic) || (service == service_squid)) ≡ true)
      ↔ ((service ≡ service_traffic) ⊎ (service ≡ service_squid))
is_served service = ground arith

chain-Passes :
    (now : ℕ) (st : TimePolicy) (a b c d : Option (ℕ × ℕ))
    → (check_then now st a (check_then now st b (check_then now st c (check_then now st d true)))
        ≡ true)
      ↔ (Passes now st a × Passes now st b × Passes now st c × Passes now st d)
chain-Passes now st a b c d =
    let t = check_then-Passes now st in
    let td = t d true in
    let tc = t c (check_then now st d true) in
    let tb = t b (check_then now st c (check_then now st d true)) in
    let ta = t a (check_then now st b (check_then now st c (check_then now st d true))) in
    (
      λ e.
          let (pa, ra) = ta.0 e in
          let (pb, rb) = tb.0 ra in let (pc, rc) = tc.0 rb in (pa, pb, pc, (td.0 rc).0),
      λ (pa, pb, pc, pd). ta.1 (pa, tb.1 (pb, tc.1 (pc, td.1 (pd, refl)))),
    )

-- The hook permits a request of one of the two services if and only if each of the four policies
-- that it finds, of the user, the user's group, the type and the group of the traffic, permits it:
-- the first interval of the policy that covers the moment has a target other than 0, or none covers
-- it and the default is not 0. It permits no request of another service.
pub autz-Passes :
    (now : ℕ) (st : TimePolicy) (service : ℕ) (ret : PacketData)
    → (autz now st service ret ≡ true) ↔ (
        ((service ≡ service_traffic) ⊎ (service ≡ service_squid))
        × Passes now st (check_user ret.id_user st)
        × Passes now st (check_group_user ret.id_group_user st)
        × Passes now st (check_type_traffic ret.id_traffic_type st)
        × Passes now st (check_group_traffic ret.id_traffic_group st))
unfolding autz
autz-Passes now st service ret =
    let k = is_served service in
    let h =
      chain-Passes now st (check_user ret.id_user st) (check_group_user ret.id_group_user st)
        (check_type_traffic ret.id_traffic_type st) (check_group_traffic ret.id_traffic_group st) in
    elim (Bool-cases ((service == service_traffic) || (service == service_squid))) [
      | inl e ↦ rw e (
        λ t. let (a, b, c, d) = h.0 t in (k.0 e, a, b, c, d),
        λ (s, a, b, c, d). h.1 (a, b, c, d),
      )
      | inr e ↦ rw e (λ t. cc, λ w. let u = k.1 w.0 in cc)
    ]
