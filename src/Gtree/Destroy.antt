-- ===== src/Gtree/Destroy.antt =====
-- `i_tree_destroy` of src/gtree.c frees every node once.
use mathlib.Core.List.{Perm, append_assoc, perm_append_comm}
use mathlib.Core.List.Perm
use ipstat.Base.{[], ◌∷◌, ◌++◌}
use ipstat.Gtree.{Tree, null, node, node_destroy, ITree, i_tree_destroy}
use ipstat.Gtree.Entries.{entries}

module _ {ℓ κ} {K : Type ℓ} {V : Type κ} where
  node_destroy-perm : (t : Tree K V) → Perm (node_destroy t) (entries t)
  unfolding node_destroy
  node_destroy-perm null = Perm.refl _
  node_destroy-perm (node b k v l r) =
      let e : K × V = (k, v) in
      Perm.trans (perm_append_comm (node_destroy r) (node_destroy l ++ (e ∷ []))) (
        rw (append_assoc (node_destroy l) (e ∷ []) (node_destroy r))
          (Perm.append (node_destroy-perm l) (Perm.cons e (node_destroy-perm r))))

  -- The nodes that `i_tree_destroy` frees are those of the tree, each of them once.
  pub i_tree_destroy-perm : (t : ITree K V) → Perm (i_tree_destroy t) (entries t.root)
  unfolding i_tree_destroy
  i_tree_destroy-perm t = node_destroy-perm t.root
