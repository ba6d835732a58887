-- ===== src/Gtree/Grown.antt =====
-- How high the tree of src/gtree.c gets as keys are inserted.
use ipstat.Base.{
  ℕ, ◌+◌, ◌/◌, ◌^◌, ◌≤◌, true, Option, some, List, [], ◌∷◌, ◌>>=◌, length, arith, Returns,
  Returns-bind, Returns-imp,
}
use ipstat.Base.Memory.{Compare}
use ipstat.Gtree.{null, ITree, i_tree_new, i_tree_insert}
use ipstat.Gtree.Balance.{height}
use ipstat.Gtree.Entries.{entries, put}
use ipstat.Gtree.Size.{height_bound}
use ipstat.Gtree.Table.{IsTable, Stored, i_tree_insert-Stored}

module _ {K V : Type 0} ⦃o : Compare K⦄ where
  -- Insertions one after the other.
  unfoldable pub insert_all : List (K × V) → ITree K V → Option (ITree K V)
  insert_all [] t = some t
  insert_all ((key, value) ∷ keys) t = do
    (t', _) ← i_tree_insert true t key value
    insert_all keys t'

  length-put : (key : K) (value : V) (m : List (K × V)) → length (put key value m) ≤ length m + 1
  unfolding put
  length-put key value [] = omega arith
  length-put key value ((k, v) ∷ m) = ground (arith, length-put key value m)

  -- A valid table of at most so many entries.
  abbrev Holds : ℕ → ITree K V → Type 0
  Holds n t = IsTable t × (length (entries t.root) ≤ n)

  insert_all-Holds :
      (keys : List (K × V)) (n : ℕ) (t : ITree K V)
      → Holds n t
      → Returns (Holds (n + length keys)) (insert_all keys t)
  unfolding insert_all
  insert_all-Holds [] n t (h, p) = (h, omega (arith, p))
  insert_all-Holds ((key, value) ∷ keys) n t (h, p) =
      Returns-bind (Stored t key value) (Holds (n + length ((key, value) ∷ keys)))
        (i_tree_insert true t key value) _ (i_tree_insert-Stored t key value h)
        λ (t', _) s.
          Returns-imp (Holds (n + 1 + length keys)) _ _ (λ t₂ (g, q). (g, omega (arith, q)))
            (insert_all-Holds keys (n + 1) t'
              (s.table, rw s.stored (omega (arith, p, length-put key value (entries t.root)))))

  -- Given memory, the insertion of keys into a new tree with `i_tree_insert`, in any order and some
  -- perhaps more than once, follows no null pointer, and the tree's height is logarithmic: two to the
  -- power of half the height, rounded down, is at most the number of insertions plus one.
  pub insert_all-height :
      (keys : List (K × V))
      → Returns
          (λ t. 2 ^ (height t.root / 2) ≤ length keys + 1)
          (do t ← i_tree_new true; insert_all keys t)
  unfolding i_tree_new
  insert_all-height keys =
      Returns-imp (Holds (0 + length keys)) _ _
        (λ t (h, p).
          omega (arith, p, height_bound t.root (height t.root / 2) h.balanced (omega arith)))
        (insert_all-Holds keys 0 (record { root = null })
          (record { balanced = omega arith; ascending = tt }, omega arith))
