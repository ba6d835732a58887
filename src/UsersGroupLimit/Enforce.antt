-- ===== src/UsersGroupLimit/Enforce.antt =====
-- What src/ipstat_system_users_group_limit enforces.
use ipstat.Base.{
  ℕ, ◌+◌, ◌^◌, ◌<◌, ◌≤◌, ◌≡◌, ◌≢◌, ◌⊎◌, refl, ap, true, false, some, List, [], ◌∷◌, All, ◌==◌,
  ==_iff, if◌then◌else◌, arith, Bool-cases, inl, inr,
}
use ipstat.CoreUsers.Data.{PacketData}
use ipstat.LimitList.{NodeGroupLimit, no_limit}
use ipstat.LimitList.Spend.{Asked, serve, serve_all, serve_all-Within, Bounded}
use ipstat.UsersGroupLimit.{Owner, GroupLimits, compare_group, find_group, my_autz, my_acct}

-- The core between the hooks, in the order of the requests: what `my_autz` permits is given to
-- `my_acct`.
unfoldable pub handle : List (ℕ × PacketData) → GroupLimits → GroupLimits
handle [] list = list
handle ((service, ret) ∷ requests) list =
    handle requests (if my_autz service ret list then (my_acct service ret list).1 else list)

-- A request as the shared functions see it.
abbrev asked : ℕ × PacketData → Asked Owner
asked (service, ret) = record {
  whose = compare_group ret.id_group_user;
  service = service;
  ret = ret;
}

abbrev all_asked : List (ℕ × PacketData) → List (Asked Owner)
all_asked [] = []
all_asked (r ∷ requests) = asked r ∷ all_asked requests

handle-serve_all :
    (requests : List (ℕ × PacketData)) (list : GroupLimits)
    → handle requests list ≡ serve_all (all_asked requests) list
unfolding handle serve_all serve my_autz my_acct
handle-serve_all [] list = refl
handle-serve_all ((service, ret) ∷ requests) list = handle-serve_all requests _

compare_group-apart :
    (g h : ℕ)
    → ((compare_group h ≡ compare_group g)
        ⊎ ((o : Owner) → compare_group g o ≡ true → compare_group h o ≡ false))
unfolding compare_group
compare_group-apart g h = elim (Bool-cases (h == g)) [
  | inl e ↦ inl (ap compare_group ((==_iff h g).0 e))
  | inr e ↦ inr (λ o t. ground arith)
]

-- Not longer than a bound.
abbrev pub Short : ℕ → ℕ × PacketData → Type 0
Short most (service, ret) = ret.len ≤ most

-- The limit of an owner, and that its traffic is below a bound.
abbrev pub Below : ℕ → ℕ → ℕ → GroupLimits → Type 0
Below g limit bound list =
    (n : NodeGroupLimit Owner) × (find_group g list ≡ some n)
    × (n.limitation ≡ limit)
    × (n.traffic < bound)

bounded :
    (g : ℕ) (most : ℕ) (requests : List (ℕ × PacketData))
    → All (Short most) requests
    → All (Bounded (compare_group g) most) (all_asked requests)
bounded g most [] h = tt
bounded g most ((service, ret) ∷ requests) h =
    ((compare_group-apart g ret.id_group_user, h.0), bounded g most requests h.1)

-- A group of users with a limit that is not -1 and, with the length of the longest request, fits in 64
-- bits: if its traffic is below the limit and that length together, then it still is when the plugin has
-- answered any requests, its own and those of others, and has accounted for what it permitted.
pub handle-Below :
    (g : ℕ) (limit most : ℕ) (requests : List (ℕ × PacketData)) (list : GroupLimits)
    → limit ≢ no_limit
    → limit + most ≤ 2 ^ 64
    → All (Short most) requests
    → Below g limit (limit + most) list
    → Below g limit (limit + most) (handle requests list)
unfolding find_group
handle-Below g limit most requests list z f h w = rw (handle-serve_all requests list) (
    serve_all-Within (compare_group g) limit most (all_asked requests) list z f
      (bounded g most requests h) w)
