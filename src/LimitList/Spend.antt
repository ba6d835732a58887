-- ===== src/LimitList/Spend.antt =====
-- What the group limit plugins enforce.
use ipstat.Base.{
  ℕ, ◌+◌, ◌^◌, ◌<◌, ◌≤◌, ◌≡◌, ◌≢◌, ◌⊎◌, refl, sym, ap, ◌∙◌, Bool, true, false, ◌||◌, some, List, [],
  ◌∷◌, All, ◌==◌, if◌then◌else◌, arith, Bool-cases, inl, inr,
}
use ipstat.CoreUsers.Data.{PacketData, service_traffic, service_squid}
use ipstat.Mirror.Find.{through}
use ipstat.LimitList.{
  NodeGroupLimit, no_limit, add64, onactive, find_owner, charge_owner, autz_owner, acct_owner,
}

-- A request: whose it is, its service and what was found out about it.
pub record Asked (O : Type 0) : Type 0 where
  pub whose : O → Bool
  pub service : ℕ
  pub ret : PacketData

module _ {O : Type 0} where
  -- The node of an owner after a charge.
  abbrev charged : ℕ → NodeGroupLimit O → NodeGroupLimit O
  charged len n = record n { traffic = add64 n.traffic len; alpha = add64 n.alpha len }

  find-charge_owner :
      (mine : O → Bool) (len : ℕ) (list : List (NodeGroupLimit O))
      → find_owner mine (charge_owner mine len list) ≡ through (charged len) (find_owner mine list)
  unfolding find_owner charge_owner
  find-charge_owner mine len [] = refl
  find-charge_owner mine len (n ∷ list) = ground (arith, find-charge_owner mine len list)

  find-charge_other :
      (mine other : O → Bool) (len : ℕ) (list : List (NodeGroupLimit O))
      → ((o : O) → mine o ≡ true → other o ≡ false)
      → find_owner mine (charge_owner other len list) ≡ find_owner mine list
  unfolding find_owner charge_owner
  find-charge_other mine other len [] h = refl
  find-charge_other mine other len (n ∷ list) h =
      ground (arith, find-charge_other mine other len list h, h n.owner)

  -- The plugin between the core's calls: what its hook permits is accounted for.
  unfoldable pub serve : Asked O → List (NodeGroupLimit O) → List (NodeGroupLimit O)
  serve a list =
      if autz_owner a.whose a.service list
      then (acct_owner a.whose a.service a.ret list).1
      else list

  unfoldable pub serve_all : List (Asked O) → List (NodeGroupLimit O) → List (NodeGroupLimit O)
  serve_all [] list = list
  serve_all (a ∷ asked) list = serve_all asked (serve a list)

  -- Of this owner or of another, and not longer than a bound.
  abbrev pub Bounded : (O → Bool) → ℕ → Asked O → Type 0
  Bounded mine most a =
      ((a.whose ≡ mine) ⊎ ((o : O) → mine o ≡ true → a.whose o ≡ false)) × (a.ret.len ≤ most)

  -- What the limit of an owner says, and that its traffic is below a bound.
  abbrev pub Within : (O → Bool) → ℕ → ℕ → List (NodeGroupLimit O) → Type 0
  Within mine limit bound list =
      (n : NodeGroupLimit O) × (find_owner mine list ≡ some n)
      × (n.limitation ≡ limit)
      × (n.traffic < bound)

  permitted-below :
      (mine : O → Bool) (service : ℕ) (list : List (NodeGroupLimit O)) (n : NodeGroupLimit O)
      → autz_owner mine service list ≡ true
      → find_owner mine list ≡ some n
      → n.limitation ≢ no_limit
      → n.traffic < n.limitation
  unfolding autz_owner onactive
  permitted-below mine service list n e f z = ground arith

  charge-Within :
      (mine : O → Bool) (limit most : ℕ) (ret : PacketData) (list : List (NodeGroupLimit O))
      (n : NodeGroupLimit O)
      → limit + most ≤ 2 ^ 64
      → ret.len ≤ most
      → find_owner mine list ≡ some n
      → n.limitation ≡ limit
      → n.traffic < limit
      → Within mine limit (limit + most) (charge_owner mine ret.len list)
  charge-Within mine limit most ret list n f b w l t = (
    charged ret.len n,
    find-charge_owner mine ret.len list ∙ ap (through (charged ret.len)) w,
    l,
    ground arith,
  )

  own-Within :
      (mine : O → Bool) (limit most service : ℕ) (ret : PacketData) (list : List (NodeGroupLimit O))
      → limit ≢ no_limit
      → limit + most ≤ 2 ^ 64
      → ret.len ≤ most
      → Within mine limit (limit + most) list
      → autz_owner mine service list ≡ true
      → Within mine limit (limit + most) (acct_owner mine service ret list).1
  unfolding acct_owner
  own-Within mine limit most service ret list z f b (n, w, l, t) e =
      let p = permitted-below mine service list n e w (λ q. z (sym l ∙ q)) in
      let below : n.traffic < limit = omega (arith, p, l) in
      elim (Bool-cases ((service == service_traffic) || (service == service_squid))) [
        | inl s ↦ elim (Bool-cases (ret.not_sum == 0)) [
          | inl q ↦ rw (s, q) (charge-Within mine limit most ret list n f b w l below)
          | inr q ↦ rw (s, q) (n, w, l, t)
        ]
        | inr s ↦ rw s (n, w, l, t)
      ]

  other-Within :
      (mine other : O → Bool) (limit bound service : ℕ) (ret : PacketData)
      (list : List (NodeGroupLimit O))
      → ((o : O) → mine o ≡ true → other o ≡ false)
      → Within mine limit bound list
      → Within mine limit bound (acct_owner other service ret list).1
  unfolding acct_owner
  other-Within mine other limit bound service ret list h (n, w, l, t) =
      let v = find-charge_other mine other ret.len list h ∙ w in
      elim (Bool-cases ((service == service_traffic) || (service == service_squid))) [
        | inl s ↦ elim (Bool-cases (ret.not_sum == 0)) [
          | inl q ↦ rw (s, q) (n, v, l, t)
          | inr q ↦ rw (s, q) (n, w, l, t)
        ]
        | inr s ↦ rw s (n, w, l, t)
      ]

  serve-Within :
      (mine : O → Bool) (limit most : ℕ) (a : Asked O) (list : List (NodeGroupLimit O))
      → limit ≢ no_limit
      → limit + most ≤ 2 ^ 64
      → Bounded mine most a
      → Within mine limit (limit + most) list
      → Within mine limit (limit + most) (serve a list)
  unfolding serve
  serve-Within mine limit most a list z f (inl e, b) w =
      elim (Bool-cases (autz_owner mine a.service list)) [
        | inl p ↦ rw (e, p) (own-Within mine limit most a.service a.ret list z f b w p)
        | inr p ↦ rw (e, p) w
      ]
  serve-Within mine limit most a list z f (inr h, b) w =
      elim (Bool-cases (autz_owner a.whose a.service list)) [
        | inl p ↦ rw p (other-Within mine a.whose limit (limit + most) a.service a.ret list h w)
        | inr p ↦ rw p w
      ]

  -- An owner with a limit that is not -1 and does not overflow 64 bits: whatever requests it and others make,
  -- none longer than a bound, where the plugin accounts for what it has permitted, the traffic of the
  -- owner stays below the limit and the bound together.
  pub serve_all-Within :
      (mine : O → Bool) (limit most : ℕ) (asked : List (Asked O)) (list : List (NodeGroupLimit O))
      → limit ≢ no_limit
      → limit + most ≤ 2 ^ 64
      → All (Bounded mine most) asked
      → Within mine limit (limit + most) list
      → Within mine limit (limit + most) (serve_all asked list)
  unfolding serve_all
  serve_all-Within mine limit most [] list z f b w = w
  serve_all-Within mine limit most (a ∷ asked) list z f b w =
      serve_all-Within mine limit most asked (serve a list) z f b.1
        (serve-Within mine limit most a list z f b.0 w)
