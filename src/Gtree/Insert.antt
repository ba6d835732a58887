-- ===== src/Gtree/Insert.antt =====
-- `i_tree_node_insert` of src/gtree.c keeps the balance fields right, and never follows a null pointer.

use ipstat.Base.{
  zero, suc, ◌+◌, ◌≡◌, refl, ◌≢◌, ◌⊎◌, inl, inr, Bool, true, false, some, arith, if◌then◌else◌,
  ◌>>=◌, Returns, Returns-bind, Ordering-cases,
}
use ipstat.Base.Int.{ℤ, pos, negsuc, ◌+ℤ◌, ◌-ℤ◌}
use ipstat.Base.Memory.{Compare}
use ipstat.Gtree.{Tree, null, node, balance_of, settle, node_new, moves, node_insert}
use ipstat.Gtree.Balance.{height, IsBalanced, rise, Levelled, Tilted, left_heavy, right_heavy}

module _ {ℓ κ} {K : Type ℓ} {V : Type κ} where
  -- What an insertion does to the heights.
  pub record Inserted (t t' : Tree K V) (inserted : Bool) : Type 0 where
    pub balanced : IsBalanced t'
    pub taller : height t' ≡ height t + rise t t'
    pub kept : inserted ≡ false → rise t t' ≡ 0

  settle_still :
      (b : ℤ) (k : K) (v : V) (l r l' r' : Tree K V) (inserted : Bool)
      → IsBalanced (node b k v l r)
      → IsBalanced l'
      → IsBalanced r'
      → height l' ≡ height l
      → height r' ≡ height r
      → Returns (λ (t, i). Inserted (node b k v l r) t i) (settle inserted b k v l' r')
  unfolding settle
  settle_still (pos zero) k v l r l' r' i p q q' e e' = ground arith
  settle_still (pos (suc zero)) k v l r l' r' i p q q' e e' = ground arith
  settle_still (negsuc zero) k v l r l' r' i p q q' e e' = ground arith
  settle_still _ k v l r l' r' i p q q' e e' = absurd (omega arith)

  level_Inserted :
      (b : ℤ) (k : K) (v : V) (l r : Tree K V) (t : Tree K V)
      → b ≢ pos 0
      → Levelled (height (node b k v l r)) t
      → Inserted (node b k v l r) t true
  unfolding balance_of
  level_Inserted b k v l r null n h = absurd (omega arith)
  level_Inserted b k v l r (node b' k' v' l' r') n h = ground arith

  -- The left child has grown by one and tilts, or was null.
  grown_left :
      (b : ℤ) (k : K) (v : V) (l r l' : Tree K V)
      → IsBalanced (node b k v l r)
      → IsBalanced l'
      → Tilted l' ⊎ (height l ≡ 0)
      → height l' ≡ height l + 1
      → Returns (λ (t, i). Inserted (node b k v l r) t i) (settle true (b -ℤ pos 1) k v l' r)
  unfolding settle ◌-ℤ◌
  grown_left (pos zero) k v l r l' p q n e = ground arith
  grown_left (pos (suc zero)) k v l r l' p q n e = ground arith
  grown_left (negsuc zero) k v l r l' p q (inr z) e = absurd (omega arith)
  grown_left (negsuc zero) k v l r l' p q (inl n) e =
      Returns-bind (Levelled (height l')) (λ (t, i). Inserted (node (negsuc 0) k v l r) t i) _ _
        (left_heavy k v l' r q n p.4 (omega arith))
        λ t h. level_Inserted (negsuc 0) k v l r t (λ z. cc z) (h.0, omega (arith, h.1), h.2)
  grown_left _ k v l r l' p q n e = absurd (omega arith)

  grown_right :
      (b : ℤ) (k : K) (v : V) (l r r' : Tree K V)
      → IsBalanced (node b k v l r)
      → IsBalanced r'
      → Tilted r' ⊎ (height r ≡ 0)
      → height r' ≡ height r + 1
      → Returns (λ (t, i). Inserted (node b k v l r) t i) (settle true (b +ℤ pos 1) k v l r')
  unfolding settle ◌+ℤ◌
  grown_right (pos zero) k v l r r' p q n e = ground arith
  grown_right (negsuc zero) k v l r r' p q n e = ground arith
  grown_right (pos (suc zero)) k v l r r' p q (inr z) e = absurd (omega arith)
  grown_right (pos (suc zero)) k v l r r' p q (inl n) e =
      Returns-bind (Levelled (height r')) (λ (t, i). Inserted (node (pos 1) k v l r) t i) _ _
        (right_heavy k v l r' p.3 q n (omega arith))
        λ t h. level_Inserted (pos 1) k v l r t (λ z. cc z) (h.0, omega (arith, h.1), h.2)
  grown_right _ k v l r r' p q n e = absurd (omega arith)

  -- What the test on the child's balance tells its parent.
  moves_lem :
      (t t' : Tree K V) (i : Bool)
      → Inserted t t' i
      → ((moves t t' ≡ some true)
          × (height t' ≡ height t + 1)
          × (Tilted t' ⊎ (height t ≡ 0))
          × (i ≡ true))
        ⊎ ((moves t t' ≡ some false) × (height t' ≡ height t))
  unfolding moves
  moves_lem null t' true h = inl (refl, h.taller, inr refl, refl)
  moves_lem null t' false h = absurd (omega (arith, h.kept refl))
  moves_lem (node b k v l r) null i h = absurd (omega (arith, h.taller))
  moves_lem (node b k v l r) (node b' k' v' l' r') i h = ground arith

  insert_left :
      (b : ℤ) (k : K) (v : V) (l r l' : Tree K V) (i : Bool)
      → IsBalanced (node b k v l r)
      → Inserted l l' i
      → Returns
          (λ (t, i). Inserted (node b k v l r) t i)
          (do m ← moves l l'; settle i (if m then b -ℤ pos 1 else b) k v l' r)
  insert_left b k v l r l' i p h = elim (moves_lem l l' i h) [
    | inl (m, e, n, j) ↦ rw (m, j) (grown_left b k v l r l' p h.balanced n e)
    | inr (m, e) ↦ rw m (settle_still b k v l r l' r i p h.balanced p.4 e refl)
  ]

  insert_right :
      (b : ℤ) (k : K) (v : V) (l r r' : Tree K V) (i : Bool)
      → IsBalanced (node b k v l r)
      → Inserted r r' i
      → Returns
          (λ (t, i). Inserted (node b k v l r) t i)
          (do m ← moves r r'; settle i (if m then b +ℤ pos 1 else b) k v l r')
  insert_right b k v l r r' i p h = elim (moves_lem r r' i h) [
    | inl (m, e, n, j) ↦ rw (m, j) (grown_right b k v l r r' p h.balanced n e)
    | inr (m, e) ↦ rw m (settle_still b k v l r l r' i p p.3 h.balanced refl e)
  ]

module _ {ℓ κ} {K : Type ℓ} {V : Type κ} ⦃o : Compare K⦄ where
  -- Given memory, an insertion into a tree whose balance fields are right follows no null pointer,
  -- keeps them right, and raises the height by the one that the parent's test finds, if at all.
  pub node_insert-IsBalanced :
      (t : Tree K V) (key : K) (value : V)
      → IsBalanced t
      → Returns (λ (t', inserted). Inserted t t' inserted) (node_insert true t key value)
  unfolding node_insert node_new
  node_insert-IsBalanced null key value p = record {
    balanced = omega arith;
    taller = omega arith;
    kept = λ e. cc;
  }
  node_insert-IsBalanced (node b k v l r) key value p = elim (Ordering-cases (o.cmp key k)) [
    | inl e ↦
        rw (e, node_insert)
          (Returns-bind (λ (l', i). Inserted l l' i) (λ (t', i). Inserted (node b k v l r) t' i) _ _
            (node_insert-IsBalanced l key value p.3) λ (l', i) h. insert_left b k v l r l' i p h)
    | inr (inl e) ↦ rw (e, node_insert) ground arith
    | inr (inr e) ↦
        rw (e, node_insert)
          (Returns-bind (λ (r', i). Inserted r r' i) (λ (t', i). Inserted (node b k v l r) t' i) _ _
            (node_insert-IsBalanced r key value p.4) λ (r', i) h. insert_right b k v l r r' i p h)
  ]
