-- ===== src/Gtree/Walk.antt =====
-- The traversals of src/gtree.c visit the entries in their order until the callback stops them.

use ipstat.Base.{◌≡◌, refl, Bool, true, false, List, [], ◌∷◌, ◌++◌, arith, if◌then◌else◌}
use ipstat.Gtree.{Tree, null, node, node_in_order, node_pre_order, node_post_order}
use ipstat.Gtree.Entries.{entries}
use ipstat.Gtree.Balance.{height, IsBalanced}

module _ {K V S : Type 0} (f : K → V → S → Bool × V × S) where
  -- The callback along a list: whether it stopped, the entries after it, and the state.
  unfoldable pub walk : List (K × V) → S → Bool × List (K × V) × S
  walk [] s = (false, [], s)
  walk ((k, v) ∷ m) s =
      let (stop, v', s₁) = f k v s in
      let (rest, m', s₂) = walk m s₁ in
      if stop then (true, (k, v') ∷ m, s₁) else (rest, (k, v') ∷ m', s₂)

  walk-append :
      (xs ys : List (K × V)) (s : S)
      → let (stop, xs', s₁) = walk xs s in
        let (rest, ys', s₂) = walk ys s₁ in
        walk (xs ++ ys) s ≡ (if stop then (true, xs' ++ ys, s₁) else (rest, xs' ++ ys', s₂))
  unfolding walk
  walk-append [] ys s = refl
  walk-append ((k, v) ∷ xs) ys s = ground (arith, walk-append xs ys (f k v s).2)

  -- `i_tree_node_in_order` calls the callback on the entries from left to right until it stops the
  -- walk, and leaves in the tree what the callback wrote.
  pub in_order-walk :
      (t : Tree K V) (s : S)
      → let (stop, t', s') = node_in_order f t s in walk (entries t) s ≡ (stop, entries t', s')
  unfolding node_in_order walk
  in_order-walk null s = refl
  in_order-walk (node b k v l r) s =
      rw (walk-append (entries l) ((k, v) ∷ entries r) s) (
        rw (in_order-walk l s)
          (rw (in_order-walk r (f k v (node_in_order f l s).2).2) ground arith))

module _ {K V : Type 0} where
  unfoldable pub pre_entries : Tree K V → List (K × V)
  pre_entries null = []
  pre_entries (node b k v l r) = (k, v) ∷ (pre_entries l ++ pre_entries r)

  unfoldable pub post_entries : Tree K V → List (K × V)
  post_entries null = []
  post_entries (node b k v l r) = post_entries l ++ (post_entries r ++ ((k, v) ∷ []))

module _ {K V S : Type 0} (f : K → V → S → Bool × V × S) where
  pub pre_order-walk :
      (t : Tree K V) (s : S)
      → let (stop, t', s') = node_pre_order f t s in
        walk f (pre_entries t) s ≡ (stop, pre_entries t', s')
  unfolding node_pre_order walk pre_entries
  pre_order-walk null s = refl
  pre_order-walk (node b k v l r) s =
      let s₁ = (f k v s).2 in
      rw (walk-append f (pre_entries l) (pre_entries r) s₁)
        (rw (pre_order-walk l s₁) (rw (pre_order-walk r (node_pre_order f l s₁).2) (ground arith)))

  pub post_order-walk :
      (t : Tree K V) (s : S)
      → let (stop, t', s') = node_post_order f t s in
        walk f (post_entries t) s ≡ (stop, post_entries t', s')
  unfolding node_post_order walk post_entries
  post_order-walk null s = refl
  post_order-walk (node b k v l r) s =
      let s₁ = (node_post_order f l s).2 in
      rw (walk-append f (post_entries l) (post_entries r ++ ((k, v) ∷ [])) s) (
        rw (post_order-walk l s) (
          rw (walk-append f (post_entries r) ((k, v) ∷ []) s₁)
            (rw (post_order-walk r s₁) (ground arith))))

  in_order-height : (t : Tree K V) (s : S) → height (node_in_order f t s).1 ≡ height t
  unfolding node_in_order
  in_order-height null s = refl
  in_order-height (node b k v l r) s =
      ground (arith, in_order-height l s, in_order-height r (f k v (node_in_order f l s).2).2)

  -- A walk in order keeps every balance field right.
  pub in_order-IsBalanced :
      (t : Tree K V) (s : S) → IsBalanced t → IsBalanced (node_in_order f t s).1
  unfolding node_in_order
  in_order-IsBalanced null s h = tt
  in_order-IsBalanced (node b k v l r) s h =
      let s₁ = (f k v (node_in_order f l s).2).2 in
      ground (
        arith,
        in_order-height l s,
        in_order-height r s₁,
        in_order-IsBalanced l s h.3,
        in_order-IsBalanced r s₁ h.4,
      )
