-- ===== src/Gtree/Table.antt =====
-- The `ITree` of src/gtree.c as its callers see it: a dictionary that stays balanced.
use Prim.Native.Nat.Ordering.{eq}
use ipstat.Base.{
  ◌≡◌, refl, ap, ◌∙◌, Bool, true, some, List, arith, Returns, Returns-bind, Returns-Ensures,
  Returns-imp, [], ◌∷◌,
}
use ipstat.Base.Memory.{Compare}
use ipstat.Gtree.{node_insert, ITree, i_tree_insert, i_tree_lookup}
use ipstat.Gtree.Balance.{IsBalanced}
use ipstat.Gtree.Insert.{Inserted, node_insert-IsBalanced}
use ipstat.Gtree.Entries.{entries, put, find, Ascending, put-Ascending}
use ipstat.Gtree.Refine.{Puts, is_none, node_insert-put, node_lookup-find}

module _ {K V : Type 0} ⦃o : Compare K⦄ where
  -- Every balance field is right, and the keys ascend from left to right.
  pub record IsTable (t : ITree K V) : Type 0 where
    pub balanced : IsBalanced t.root
    pub ascending : Ascending (entries t.root)

  -- The outcome of `i_tree_insert`.
  pub record Stored (t : ITree K V) (key : K) (value : V) (r : ITree K V × Bool) : Type 0 where
    pub table : IsTable r.0
    pub stored : entries r.0.root ≡ put key value (entries t.root)
    pub fresh : r.1 ≡ is_none (i_tree_lookup t key)

  -- Given memory, `i_tree_insert` on a valid table follows no null pointer; the new table is valid,
  -- holds the old entries with the key bound to the value, and the result says whether the key is
  -- new.
  pub i_tree_insert-Stored :
      (t : ITree K V) (key : K) (value : V)
      → IsTable t
      → Returns (Stored t key value) (i_tree_insert true t key value)
  unfolding i_tree_insert i_tree_lookup
  i_tree_insert-Stored t key value h =
      Returns-bind (λ r. Inserted t.root r.0 r.1 × Puts t.root key value r) (Stored t key value)
        (node_insert true t.root key value) _
        (Returns-Ensures _ (Puts t.root key value) _
          (node_insert-IsBalanced t.root key value h.balanced)
          (node_insert-put t.root key value h.ascending))
        λ (root', i) (p, q). record {
          table = record {
            balanced = p.balanced;
            ascending = rw q.0 (put-Ascending key value _ h.ascending);
          };
          stored = q.0;
          fresh = rw (node_lookup-find t.root key h.ascending) q.1;
        }

  find-put :
      (j key : K) (value : V) (m : List (K × V))
      → find j (put key value m) ≡ elim (o.cmp j key) [ eq ↦ some value | _ ↦ find j m ]
  unfolding find put
  find-put j key value [] = refl
  find-put j key value ((k, v) ∷ m) = ground (
    arith,
    find-put j key value m,
    o.cmp_same key k,
    o.cmp_same j key,
    o.cmp_same j k,
    o.cmp_self k,
  )

  pub i_tree_lookup-find :
      (t : ITree K V) (j : K) → IsTable t → i_tree_lookup t j ≡ find j (entries t.root)
  unfolding i_tree_lookup
  i_tree_lookup-find t j h = node_lookup-find t.root j h.ascending

  -- After an insertion a lookup of the key gives the value, and every other key reads as before.
  pub i_tree_lookup-insert :
      (t : ITree K V) (key : K) (value : V) (j : K)
      → IsTable t
      → Returns
          (λ (t', i).
            i_tree_lookup t' j ≡ elim (o.cmp j key) [ eq ↦ some value | _ ↦ i_tree_lookup t j ])
          (i_tree_insert true t key value)
  i_tree_lookup-insert t key value j h =
      Returns-imp (Stored t key value) _ _ (λ (t', i) s. read s.table s.stored)
        (i_tree_insert-Stored t key value h)
    where
      read :
          {t' : ITree K V}
          → IsTable t'
          → entries t'.root ≡ put key value (entries t.root)
          → i_tree_lookup t' j ≡ elim (o.cmp j key) [ eq ↦ some value | _ ↦ i_tree_lookup t j ]
      read {t'} g e =
          i_tree_lookup-find t' j g
          ∙ (ap (find j) e
              ∙ (find-put j key value (entries t.root) ∙ ground (arith, i_tree_lookup-find t j h)))
