-- ===== src/Gtree/Size.antt =====
-- How high a tree of src/gtree.c is, against the number of its nodes.
use native.Mathlib.Nat.{pow-suc}
use ipstat.Base.{
  ℕ, zero, suc, ◌+◌, ◌^◌, ◌≤◌, max, ◌≡◌, ◌∷◌, length, length-append, arith, inl, inr, ◌⊎◌,
}
use ipstat.Gtree.{Tree, null, node}
use ipstat.Gtree.Balance.{height, IsBalanced}
use ipstat.Gtree.Entries.{entries}

-- The least number of nodes of a balanced tree of a given height.
least_nodes : ℕ → ℕ
least_nodes zero = 0
least_nodes (suc zero) = 1
least_nodes (suc (suc h)) = least_nodes (suc h) + least_nodes h + 1

least_nodes_mono : (h : ℕ) → least_nodes h ≤ least_nodes (suc h)
unfolding least_nodes
least_nodes_mono zero = omega arith
least_nodes_mono (suc h) = omega (arith, least_nodes_mono h)

least_nodes-pow : (k : ℕ) → 2 ^ k ≤ least_nodes (k + k) + 1
unfolding least_nodes
least_nodes-pow zero = omega arith
least_nodes-pow (suc k) =
    let e : suc k + suc k ≡ suc (suc (k + k)) = omega arith in
    rw e (rw pow-suc (omega (arith, least_nodes-pow k, least_nodes_mono (k + k))))

least_nodes_trans : (g h : ℕ) → g ≤ h → least_nodes g ≤ least_nodes h
least_nodes_trans g zero p = let e : g ≡ 0 = omega arith in rw e (omega arith)
least_nodes_trans g (suc h) p = elim (split g h p) [
  | inl q ↦ omega (arith, least_nodes_trans g h q, least_nodes_mono h)
  | inr q ↦ rw q (omega arith)
]
  where
    split : (g h : ℕ) → g ≤ suc h → (g ≤ h) ⊎ (g ≡ suc h)
    split g h p = omega arith

-- The heights of the two subtrees of a balanced node, the higher one named.
subtrees :
    (a b : ℕ)
    → a ≤ b + 1
    → b ≤ a + 1
    → ((m : ℕ) × (max a b ≡ suc m)
        × (least_nodes (suc m) + least_nodes m ≤ least_nodes a + least_nodes b))
      ⊎ (max a b ≡ 0)
subtrees zero zero p q = inr (omega arith)
subtrees zero (suc b) p q = let e : b ≡ 0 = omega arith in inl (0, omega arith, rw e (omega arith))
subtrees (suc a) zero p q = let e : a ≡ 0 = omega arith in inl (0, omega arith, rw e (omega arith))
subtrees (suc a) (suc b) p q = elim (order a b) [
  | inl e ↦ inl (b, omega arith, omega (arith, least_nodes_trans b (suc a) (omega arith)))
  | inr e ↦ inl (a, omega arith, omega (arith, least_nodes_trans a (suc b) (omega arith)))
]
  where
    order : (a b : ℕ) → (a ≤ b) ⊎ (b ≤ a)
    order a b = omega arith

module _ {ℓ κ} {K : Type ℓ} {V : Type κ} where
  least_nodes_le : (t : Tree K V) → IsBalanced t → least_nodes (height t) ≤ length (entries t)
  unfolding least_nodes
  least_nodes_le null h = omega arith
  least_nodes_le (node b k v l r) h =
      elim (subtrees (height l) (height r) (omega arith) (omega arith)) [
        | inl (m, e, q) ↦ rw e (
            omega (
              arith,
              least_nodes_le l h.3,
              least_nodes_le r h.4,
              length-append (entries l) ((k, v) ∷ entries r),
            ))
        | inr e ↦ rw e (omega (arith, length-append (entries l) ((k, v) ∷ entries r)))
      ]

  -- The height is logarithmic: a balanced tree of height 2k has at least 2^k - 1 entries.
  pub height_bound :
      (t : Tree K V) (k : ℕ) → IsBalanced t → k + k ≤ height t → 2 ^ k ≤ length (entries t) + 1
  height_bound t k h p =
      omega (arith, least_nodes_le t h, least_nodes-pow k, least_nodes_trans (k + k) (height t) p)
