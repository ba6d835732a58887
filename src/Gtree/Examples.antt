-- ===== src/Gtree/Examples.antt =====
-- Runs of the tree of src/gtree.c on small inputs.
use ipstat.Base.{
  ℕ, ◌+◌, ◌/◌, ◌≡◌, refl, Bool, true, false, some, List, [], ◌∷◌, ◌>>=◌, Returns, arith, ◌^◌, ◌≤◌,
  Ordering, ◌==◌,
}
use ipstat.Base.Int.{pos}
use ipstat.Base.Memory.{bytes_compare, memcmp}
use ipstat.Gtree.{
  Tree, null, node, node_in_order, ITree, i_tree_insert, i_tree_lookup, i_tree_destroy, i_tree_new,
}
use ipstat.Gtree.Balance.{IsBalanced, height}
use ipstat.Gtree.Entries.{entries}
use ipstat.Gtree.Table.{IsTable, Stored, i_tree_insert-Stored, i_tree_lookup-insert}
use ipstat.Gtree.Grown.{insert_all, insert_all-height}
use ipstat.Gtree.Walk.{walk, in_order-walk, in_order-IsBalanced}
use ipstat.Gtree.Destroy.{i_tree_destroy-perm}
use mathlib.Core.List.{Perm}

abbrev Key : Type 0
Key = List ℕ

abbrev leaf_at : ℕ → ℕ → Tree Key ℕ
leaf_at k v = node (pos 0) (k ∷ []) v null null

-- The keys 1 to 5, inserted in ascending order: one rotation at 3, one at 5.
abbrev five : ITree Key ℕ
five = record {
  root =
      node (pos 1) (2 ∷ []) 20 (leaf_at 1 10)
        (node (pos 0) (4 ∷ []) 40 (leaf_at 3 30) (leaf_at 5 50));
}

insert_ascending :
    (do
      (t₁, _) ← i_tree_insert {K = Key} {V = ℕ} true (record { root = null }) (1 ∷ []) 10
      (t₂, _) ← i_tree_insert true t₁ (2 ∷ []) 20
      (t₃, _) ← i_tree_insert true t₂ (3 ∷ []) 30
      (t₄, _) ← i_tree_insert true t₃ (4 ∷ []) 40
      i_tree_insert true t₄ (5 ∷ []) 50)
    ≡ some (five, true)
unfolding i_tree_insert bytes_compare memcmp
insert_ascending = refl

five-IsTable : IsTable five
unfolding bytes_compare memcmp
five-IsTable = record { balanced = omega arith; ascending = ground arith }

i_tree_insert-Stored_example :
    Returns (Stored five (6 ∷ []) 60) (i_tree_insert true five (6 ∷ []) 60)
i_tree_insert-Stored_example = i_tree_insert-Stored five (6 ∷ []) 60 five-IsTable

-- The keys 1 to 5, in ascending order.
abbrev ascending_keys : List (Key × ℕ)
ascending_keys = (1 ∷ [], 10) ∷ (2 ∷ [], 20) ∷ (3 ∷ [], 30) ∷ (4 ∷ [], 40) ∷ (5 ∷ [], 50) ∷ []

insert_all-height_example :
    Returns
      (λ t. 2 ^ (height t.root / 2) ≤ 6)
      (do t ← i_tree_new {K = Key} {V = ℕ} true; insert_all ascending_keys t)
insert_all-height_example = insert_all-height ascending_keys

in_order-IsBalanced_example :
    IsBalanced (node_in_order {K = Key} {S = ℕ} (λ k v s. (false, 0, s + v)) five.root 0).1
in_order-IsBalanced_example =
    in_order-IsBalanced (λ k v s. (false, 0, s + v)) five.root 0 five-IsTable.balanced

i_tree_lookup-insert_example :
    Returns
      (λ (t', i). i_tree_lookup t' (3 ∷ []) ≡ elim (memcmp (3 ∷ []) (6 ∷ [])) [
        | Ordering.eq ↦ some 60
        | _ ↦ i_tree_lookup five (3 ∷ [])
      ])
      (i_tree_insert true five (6 ∷ []) 60)
unfolding bytes_compare
i_tree_lookup-insert_example = i_tree_lookup-insert five (6 ∷ []) 60 (3 ∷ []) five-IsTable

-- A callback that sums the values, clears them, and stops at 30.
abbrev sum_to_30 : Key → ℕ → ℕ → Bool × ℕ × ℕ
sum_to_30 k v s = (v == 30, 0, s + v)

in_order-walk_example :
    let (stop, t', s') = node_in_order sum_to_30 five.root 0 in
    walk sum_to_30 (entries five.root) 0 ≡ (stop, entries t', s')
in_order-walk_example = in_order-walk sum_to_30 five.root 0

i_tree_destroy-perm_example : Perm (i_tree_destroy five) (entries five.root)
i_tree_destroy-perm_example = i_tree_destroy-perm five
