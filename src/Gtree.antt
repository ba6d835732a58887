-- ===== src/Gtree.antt =====
-- src/gtree.c and include/gtree.h: the height-balanced tree behind the aggregation tables. A node
-- has one owner, so a function that takes a node and returns its replacement is pure; `none` is a
-- null pointer that is followed. The code never reads the fields `parent`, `nnodes` and `height`.
pub mod Balance
pub mod Insert
pub mod Refine
pub mod Table
pub mod Destroy
pub mod Walk
pub mod Write
pub mod Traverse
mod Examples
pub mod Size
pub mod Entries
pub mod Grown
use Prim.Native.Nat.Ordering.{lt, eq, gt}
use ipstat.Base.{
  Bool, true, false, not, ◌&&◌, ◌||◌, Option, none, some, List, [], ◌∷◌, ◌++◌, if◌then◌else◌, ◌>>=◌,
}
use ipstat.Base.Int.{ℤ, pos, negsuc, ◌+ℤ◌, ◌-ℤ◌, ltb_ℤ, leb_ℤ, eq_ℤ}
use ipstat.Base.Memory.{Compare}

-- The pointer to an `ITree_Node`: null, or balance, key, value, left and right.
pub data Tree {ℓ κ} (K : Type ℓ) (V : Type κ) : Type (ℓ ⊔ κ) where
  null : Tree K V
  node : ℤ → K → V → Tree K V → Tree K V → Tree K V

-- The balances after `i_tree_node_rotate_left`, from those of `node` and of `right` before it:
-- that of `node`, then that of `right`.
unfoldable pub left_turn : ℤ → ℤ → ℤ × ℤ
unfolding ◌+ℤ◌ ◌-ℤ◌
left_turn a_bal b_bal =
    if leb_ℤ b_bal (pos 0)
    then (a_bal -ℤ pos 1, if leb_ℤ (pos 1) a_bal then b_bal -ℤ pos 1 else a_bal +ℤ b_bal -ℤ pos 2)
    else (a_bal -ℤ b_bal -ℤ pos 1, if leb_ℤ a_bal b_bal then a_bal -ℤ pos 2 else b_bal -ℤ pos 1)

-- The same of `i_tree_node_rotate_right`: that of `node`, then that of `left`.
unfoldable pub right_turn : ℤ → ℤ → ℤ × ℤ
unfolding ◌+ℤ◌ ◌-ℤ◌
right_turn a_bal b_bal =
    if leb_ℤ b_bal (pos 0)
    then (a_bal -ℤ b_bal +ℤ pos 1, if ltb_ℤ a_bal b_bal then b_bal +ℤ pos 1 else a_bal +ℤ pos 2)
    else (
      a_bal +ℤ pos 1,
      if leb_ℤ a_bal (negsuc 0) then b_bal +ℤ pos 1 else a_bal +ℤ b_bal +ℤ pos 2,
    )

-- `old_balance != child->balance && child->balance`: the child has grown.
abbrev pub grew : ℤ → ℤ → Bool
grew old_balance balance = not (eq_ℤ old_balance balance) && not (eq_ℤ balance (pos 0))

module _ {ℓ κ} {K : Type ℓ} {V : Type κ} where
  -- `node->balance`
  unfoldable pub balance_of : Tree K V → Option ℤ
  balance_of null = none
  balance_of (node b k v l r) = some b

  unfoldable pub rotate_left : Tree K V → Option (Tree K V)
  unfolding left_turn
  rotate_left (node a_bal k v left (node b_bal rk rv rl rr)) =
      let (a', b') = left_turn a_bal b_bal in some (node b' rk rv (node a' k v left rl) rr)
  rotate_left _ = none

  unfoldable pub rotate_right : Tree K V → Option (Tree K V)
  unfolding right_turn
  rotate_right (node a_bal k v (node b_bal lk lv ll lr) right) =
      let (a', b') = right_turn a_bal b_bal in some (node b' lk lv ll (node a' k v lr right))
  rotate_right _ = none

  -- `i_tree_node_balance`, on the fields of `node`
  unfoldable pub rebalance : ℤ → K → V → Tree K V → Tree K V → Option (Tree K V)
  unfolding balance_of rotate_left rotate_right
  rebalance b k v left right =
      if ltb_ℤ b (negsuc 0)
      then (do
        lb ← balance_of left
        left' ← if ltb_ℤ (pos 0) lb then rotate_left left else some left
        rotate_right (node b k v left' right))
      else if ltb_ℤ (pos 1) b
      then (do
        rb ← balance_of right
        right' ← if ltb_ℤ rb (pos 0) then rotate_right right else some right
        rotate_left (node b k v left right'))
      else some (node b k v left right)

  -- The end of `i_tree_node_insert`.
  unfoldable pub settle : Bool → ℤ → K → V → Tree K V → Tree K V → Option (Tree K V × Bool)
  unfolding rebalance
  settle inserted b k v l r =
      if inserted && (ltb_ℤ b (negsuc 0) || ltb_ℤ (pos 1) b)
      then (do t ← rebalance b k v l r; some (t, inserted))
      else some (node b k v l r, inserted)

  -- `i_tree_node_new`; `mem` says whether `malloc` gives memory
  unfoldable pub node_new : Bool → K → V → Tree K V
  node_new mem key value = if mem then node (pos 0) key value null null else null

  -- Whether the balance of the parent changes, given the child before and after the insertion: by
  -- the test on the child's balance, or always where the child was null.
  unfoldable pub moves : Tree K V → Tree K V → Option Bool
  unfolding balance_of
  moves null child' = some true
  moves (node b k v l r) child' = do b' ← balance_of child'; some (grew b b')

module _ {ℓ κ} {K : Type ℓ} {V : Type κ} ⦃o : Compare K⦄ where
  -- `i_tree_node_insert`: the node that takes the place of `node`, and `*inserted`. A null child
  -- gets the new node and sets `*inserted`, as the call on a null node does.
  unfoldable pub node_insert : Bool → Tree K V → K → V → Option (Tree K V × Bool)
  unfolding settle node_new moves ◌+ℤ◌ ◌-ℤ◌
  node_insert mem null key value = some (node_new mem key value, true)
  node_insert mem (node b k v l r) key value = elim (o.cmp key k) [
    | eq ↦ some (node b k value l r, false)
    | lt ↦ do
      (l', inserted) ← node_insert mem l key value
      m ← moves l l'
      settle inserted (if m then b -ℤ pos 1 else b) k v l' r
    | gt ↦ do
      (r', inserted) ← node_insert mem r key value
      m ← moves r r'
      settle inserted (if m then b +ℤ pos 1 else b) k v l r'
  ]

  -- `i_tree_node_lookup`
  unfoldable pub node_lookup : Tree K V → K → Option V
  node_lookup null key = none
  node_lookup (node b k v l r) key = elim (o.cmp key k) [
    | eq ↦ some v
    | lt ↦ node_lookup l key
    | gt ↦ node_lookup r key
  ]

module _ {ℓ κ σ} {K : Type ℓ} {V : Type κ} {S : Type σ} (f : K → V → S → Bool × V × S) where
  -- The three walks. The callback may write through the pointer to the value and change the state
  -- behind `data`; it stops the walk by a nonzero result. A null child is passed over.
  unfoldable pub node_in_order : Tree K V → S → Bool × Tree K V × S
  node_in_order null s = (false, null, s)
  node_in_order (node b k v l r) s =
      let (stop_l, l', s₁) = node_in_order l s in
      let (stop, v', s₂) = f k v s₁ in
      let (stop_r, r', s₃) = node_in_order r s₂ in
      if stop_l
      then (true, node b k v l' r, s₁)
      else if stop
      then (true, node b k v' l' r, s₂)
      else (stop_r, node b k v' l' r', s₃)

  unfoldable pub node_pre_order : Tree K V → S → Bool × Tree K V × S
  node_pre_order null s = (false, null, s)
  node_pre_order (node b k v l r) s =
      let (stop, v', s₁) = f k v s in
      let (stop_l, l', s₂) = node_pre_order l s₁ in
      let (stop_r, r', s₃) = node_pre_order r s₂ in
      if stop
      then (true, node b k v' l r, s₁)
      else if stop_l
      then (true, node b k v' l' r, s₂)
      else (stop_r, node b k v' l' r', s₃)

  unfoldable pub node_post_order : Tree K V → S → Bool × Tree K V × S
  node_post_order null s = (false, null, s)
  node_post_order (node b k v l r) s =
      let (stop_l, l', s₁) = node_post_order l s in
      let (stop_r, r', s₂) = node_post_order r s₁ in
      let (stop, v', s₃) = f k v s₂ in
      if stop_l
      then (true, node b k v l' r, s₁)
      else if stop_r
      then (true, node b k v l' r', s₂)
      else (stop, node b k v' l' r', s₃)

-- `ITraverseType`, and a number that the switch has no case for.
pub data TraverseType : Type 0 where
  in_order pre_order post_order other : TraverseType

-- The entries in the order in which `i_tree_node_destroy` frees their nodes.
unfoldable pub node_destroy {ℓ κ} : {K : Type ℓ} {V : Type κ} → Tree K V → List (K × V)
node_destroy null = []
node_destroy (node b k v l r) = node_destroy r ++ (node_destroy l ++ ((k, v) ∷ []))

-- An `ITree` is its root: the comparison function is the instance.
pub record ITree {ℓ κ} (K : Type ℓ) (V : Type κ) : Type (ℓ ⊔ κ) where
  pub root : Tree K V

unfoldable pub i_tree_new {ℓ κ} : {K : Type ℓ} {V : Type κ} → Bool → Option (ITree K V)
i_tree_new mem = if mem then some (record { root = null }) else none

unfoldable pub i_tree_destroy {ℓ κ} : {K : Type ℓ} {V : Type κ} → ITree K V → List (K × V)
unfolding node_destroy
i_tree_destroy tree = node_destroy tree.root

module _ {ℓ κ} {K : Type ℓ} {V : Type κ} ⦃o : Compare K⦄ where
  unfoldable pub i_tree_insert : Bool → ITree K V → K → V → Option (ITree K V × Bool)
  unfolding node_insert
  i_tree_insert mem tree key value = do
    (root', inserted) ← node_insert mem tree.root key value
    some (record { root = root' }, inserted)

  unfoldable pub i_tree_lookup : ITree K V → K → Option V
  unfolding node_lookup
  i_tree_lookup tree key = node_lookup tree.root key

  -- A write through the pointer that `i_tree_lookup` returned for the key.
  unfoldable pub node_write : Tree K V → K → V → Tree K V
  node_write null key value = null
  node_write (node b k v l r) key value = elim (o.cmp key k) [
    | eq ↦ node b k value l r
    | lt ↦ node b k v (node_write l key value) r
    | gt ↦ node b k v l (node_write r key value)
  ]

module _ {ℓ κ σ} {K : Type ℓ} {V : Type κ} {S : Type σ} (f : K → V → S → Bool × V × S) where
  node_traverse : TraverseType → Tree K V → S → Bool × Tree K V × S
  unfolding node_in_order node_pre_order node_post_order
  node_traverse in_order root s = node_in_order f root s
  node_traverse pre_order root s = node_pre_order f root s
  node_traverse post_order root s = node_post_order f root s
  node_traverse other root s = (false, root, s)

  unfoldable pub i_tree_traverse : TraverseType → ITree K V → S → ITree K V × S
  unfolding node_traverse
  i_tree_traverse t tree s =
      let (_, root', s') = node_traverse t tree.root s in (record { root = root' }, s')
