-- ===== src/Gtree/Balance.antt =====
-- The balance fields of src/gtree.c: each is the height of the right subtree less that of the left.

use ipstat.Base.{ℕ, zero, suc, ◌+◌, ◌≤◌, max, ◌≡◌, refl, ◌≢◌, some, arith, if◌then◌else◌, Returns}
use ipstat.Base.Int.{ℤ, pos, negsuc, pos_part, neg_part}
use ipstat.Gtree.{Tree, null, node, grew, rebalance, balance_of}

-- `b` is the height `r` less the height `l`.
abbrev pub Tilts : ℤ → ℕ → ℕ → Type 0
Tilts b l r = pos_part b + l ≡ neg_part b + r

module _ {ℓ κ} {K : Type ℓ} {V : Type κ} where
  abbrev pub height : Tree K V → ℕ
  height null = 0
  height (node b k v l r) = suc (max (height l) (height r))

  -- Every balance field is right, and none is outside -1, 0, 1.
  abbrev pub IsBalanced : Tree K V → Type 0
  IsBalanced null = Unit
  IsBalanced (node b k v l r) =
      Tilts b (height l) (height r)
      × (pos_part b ≤ 1)
      × (neg_part b ≤ 1)
      × IsBalanced l
      × IsBalanced r

  -- How much taller the tree is that takes the place of the first, as its parent judges.
  abbrev pub rise : Tree K V → Tree K V → ℕ
  rise null t = 1
  rise (node b k v l r) null = 0
  rise (node b k v l r) (node b' k' v' l' r') = if grew b b' then 1 else 0

  -- What a rotation leaves: the height of the taller child before it, and the root in balance.
  abbrev pub Levelled : ℕ → Tree K V → Type 0
  Levelled h t = IsBalanced t × (height t ≡ h) × (balance_of t ≡ some (pos 0))

  -- A child that has grown tilts to one side.
  abbrev pub Tilted : Tree K V → Type 0
  Tilted null = ⊥
  Tilted (node b k v l r) = b ≢ pos 0

  pub left_heavy :
      (k : K) (v : V) (l r : Tree K V)
      → IsBalanced l
      → Tilted l
      → IsBalanced r
      → height l ≡ height r + 2
      → Returns (Levelled (height l)) (rebalance (negsuc 1) k v l r)
  unfolding rebalance
  left_heavy k v null r p n q h = absurd n
  left_heavy k v (node (pos zero) lk lv ll lr) r p n q h = absurd (n refl)
  left_heavy k v (node (negsuc zero) lk lv ll lr) r p n q h = ground arith
  left_heavy k v (node (pos (suc zero)) lk lv ll null) r p n q h = ground arith
  left_heavy k v (node (pos (suc zero)) lk lv ll (node (pos zero) mk mv ml mr)) r p n q h =
      ground arith
  left_heavy k v (node (pos (suc zero)) lk lv ll (node (pos (suc zero)) mk mv ml mr)) r p n q h =
      ground arith
  left_heavy k v (node (pos (suc zero)) lk lv ll (node (negsuc zero) mk mv ml mr)) r p n q h =
      ground arith
  left_heavy k v (node (pos (suc zero)) lk lv ll (node _ mk mv ml mr)) r p n q h =
      absurd (omega arith)
  left_heavy k v (node _ lk lv ll lr) r p n q h = absurd (omega arith)

  pub right_heavy :
      (k : K) (v : V) (l r : Tree K V)
      → IsBalanced l
      → IsBalanced r
      → Tilted r
      → height r ≡ height l + 2
      → Returns (Levelled (height r)) (rebalance (pos 2) k v l r)
  unfolding rebalance
  right_heavy k v l null q p n h = absurd n
  right_heavy k v l (node (pos zero) rk rv rl rr) q p n h = absurd (n refl)
  right_heavy k v l (node (pos (suc zero)) rk rv rl rr) q p n h = ground arith
  right_heavy k v l (node (negsuc zero) rk rv null rr) q p n h = ground arith
  right_heavy k v l (node (negsuc zero) rk rv (node (pos zero) mk mv ml mr) rr) q p n h =
      ground arith
  right_heavy k v l (node (negsuc zero) rk rv (node (pos (suc zero)) mk mv ml mr) rr) q p n h =
      ground arith
  right_heavy k v l (node (negsuc zero) rk rv (node (negsuc zero) mk mv ml mr) rr) q p n h =
      ground arith
  right_heavy k v l (node (negsuc zero) rk rv (node _ mk mv ml mr) rr) q p n h =
      absurd (omega arith)
  right_heavy k v l (node _ rk rv rl rr) q p n h = absurd (omega arith)
