-- ===== src/Gtree/Traverse.antt =====
-- A traversal of src/gtree.c in order leaves a valid `ITree` valid.
use ipstat.Base.{◌≡◌, sym, ap, Bool, List, [], ◌∷◌, All, Bool-cases, inl, inr}
use ipstat.Base.Memory.{Compare}
use ipstat.Gtree.{ITree, i_tree_traverse, in_order}
use ipstat.Gtree.Entries.{entries, Ascending}
use ipstat.Gtree.Table.{IsTable}
use ipstat.Gtree.Walk.{walk, in_order-walk, in_order-IsBalanced}

module _ {K V S : Type 0} (f : K → V → S → Bool × V × S) where
  keys_kept :
      (P : K → Type 0) (m : List (K × V)) (s : S)
      → All (λ e. P e.0) m
      → All (λ e. P e.0) (walk f m s).1
  unfolding walk
  keys_kept P [] s h = tt
  keys_kept P ((k, v) ∷ m) s h = elim (Bool-cases (f k v s).0) [
    | inl e ↦ rw e h
    | inr e ↦ rw e (h.0, keys_kept P m (f k v s).2 h.1)
  ]

module _ {K V S : Type 0} ⦃o : Compare K⦄ (f : K → V → S → Bool × V × S) where
  walk-Ascending : (m : List (K × V)) (s : S) → Ascending m → Ascending (walk f m s).1
  unfolding walk
  walk-Ascending [] s h = tt
  walk-Ascending ((k, v) ∷ m) s h = elim (Bool-cases (f k v s).0) [
    | inl e ↦ rw e h
    | inr e ↦ rw e (
      keys_kept f (λ j. o.cmp k j ≡ Prim.Native.Nat.Ordering.lt) m (f k v s).2 h.0,
      walk-Ascending m (f k v s).2 h.1,
    )
  ]

  -- A traversal in order runs the callback along the entries, and leaves the tree balanced and the
  -- keys in their order, whatever the callback writes.
  pub i_tree_traverse-IsTable :
      (t : ITree K V) (s : S)
      → IsTable t
      → let (t', s') = i_tree_traverse f in_order t s in
        IsTable t'
        × (entries t'.root ≡ (walk f (entries t.root) s).1)
        × (s' ≡ (walk f (entries t.root) s).2)
  unfolding i_tree_traverse
  i_tree_traverse-IsTable t s h =
      let e = ap (λ x. x.1) (in_order-walk f t.root s) in
      (
        record {
          balanced = in_order-IsBalanced f t.root s h.balanced;
          ascending = rw (sym e) (walk-Ascending (entries t.root) s h.ascending);
        },
        sym e,
        sym (ap (λ x. x.2) (in_order-walk f t.root s)),
      )
