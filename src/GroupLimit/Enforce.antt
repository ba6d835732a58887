-- ===== src/GroupLimit/Enforce.antt =====
-- What src/ipstat_system_group_limit enforces.
use ipstat.Base.{
  ℕ, ◌+◌, ◌^◌, ◌<◌, ◌≤◌, ◌≡◌, ◌≢◌, ◌⊎◌, refl, true, false, ◌&&◌, some, List, [], ◌∷◌, All, ◌==◌,
  if◌then◌else◌, arith, Bool-cases, inl, inr,
}
use ipstat.CoreUsers.Data.{PacketData}
use ipstat.LimitList.{NodeGroupLimit, no_limit}
use ipstat.LimitList.Spend.{Asked, serve, serve_all, serve_all-Within, Bounded}
use ipstat.GroupLimit.{
  Owner, GroupLimits, compare_group_traffic, find_group_traffic, my_autz, my_acct,
}

-- The core between the hooks, in the order of the requests: what `my_autz` permits is given to
-- `my_acct`.
unfoldable pub handle : List (ℕ × PacketData) → GroupLimits → GroupLimits
handle [] list = list
handle ((service, ret) ∷ requests) list =
    handle requests (if my_autz service ret list then (my_acct service ret list).1 else list)

-- A request as the shared functions see it.
abbrev asked : ℕ × PacketData → Asked Owner
asked (service, ret) = record {
  whose = compare_group_traffic ret.id_user ret.id_traffic_group;
  service = service;
  ret = ret;
}

abbrev all_asked : List (ℕ × PacketData) → List (Asked Owner)
all_asked [] = []
all_asked (r ∷ requests) = asked r ∷ all_asked requests

handle-serve_all :
    (requests : List (ℕ × PacketData)) (list : GroupLimits)
    → handle requests list ≡ serve_all (all_asked requests) list
unfolding handle serve_all serve my_autz my_acct
handle-serve_all [] list = refl
handle-serve_all ((service, ret) ∷ requests) list = handle-serve_all requests _

same_keys :
    (u g v h : ℕ)
    → ((v == u) && (h == g)) ≡ true
    → compare_group_traffic v h ≡ compare_group_traffic u g
same_keys u g v h e = let p : v ≡ u = ground arith in let q : h ≡ g = ground arith in rw (p, q) refl

compare_group_traffic-apart :
    (u g v h : ℕ)
    → ((compare_group_traffic v h ≡ compare_group_traffic u g)
        ⊎ ((o : Owner) → compare_group_traffic u g o ≡ true → compare_group_traffic v h o ≡ false))
unfolding compare_group_traffic
compare_group_traffic-apart u g v h = elim (Bool-cases ((v == u) && (h == g))) [
  | inl e ↦ inl (same_keys u g v h e)
  | inr e ↦ inr (λ o t. ground arith)
]

-- Not longer than a bound.
abbrev pub Short : ℕ → ℕ × PacketData → Type 0
Short most (service, ret) = ret.len ≤ most

-- The limit of an owner, and that its traffic is below a bound.
abbrev pub Below : ℕ → ℕ → ℕ → ℕ → GroupLimits → Type 0
Below u g limit bound list =
    (n : NodeGroupLimit Owner) × (find_group_traffic u g list ≡ some n)
    × (n.limitation ≡ limit)
    × (n.traffic < bound)

bounded :
    (u g : ℕ) (most : ℕ) (requests : List (ℕ × PacketData))
    → All (Short most) requests
    → All (Bounded (compare_group_traffic u g) most) (all_asked requests)
bounded u g most [] h = tt
bounded u g most ((service, ret) ∷ requests) h = (
  (compare_group_traffic-apart u g ret.id_user ret.id_traffic_group, h.0),
  bounded u g most requests h.1,
)

-- A user and a group of traffic with a limit that is not -1 and, with the length of the longest request, fits in 64
-- bits: if its traffic is below the limit and that length together, then it still is when the plugin has
-- answered any requests, its own and those of others, and has accounted for what it permitted.
pub handle-Below :
    (u g : ℕ) (limit most : ℕ) (requests : List (ℕ × PacketData)) (list : GroupLimits)
    → limit ≢ no_limit
    → limit + most ≤ 2 ^ 64
    → All (Short most) requests
    → Below u g limit (limit + most) list
    → Below u g limit (limit + most) (handle requests list)
unfolding find_group_traffic
handle-Below u g limit most requests list z f h w = rw (handle-serve_all requests list) (
    serve_all-Within (compare_group_traffic u g) limit most (all_asked requests) list z f
      (bounded u g most requests h) w)
