-- ===== src/Gtree/Refine.antt =====
-- The tree of src/gtree.c as a sorted dictionary: insertion is `put`, lookup is `find`.

use mathlib.Core.List.{append_assoc}
use ipstat.Base.{
  ◌≡◌, refl, inl, inr, Bool, ◌&&◌, ◌||◌, true, false, Option, none, some, List, ◌∷◌, ◌++◌,
  if◌then◌else◌, ◌>>=◌, Ordering-cases, Bool-cases, Ensures, Ensures-bind, Ensures-imp, sym, ◌∙◌,
}
use ipstat.Base.Int.{ℤ, pos, negsuc, ltb_ℤ, ◌-ℤ◌, ◌+ℤ◌}
use ipstat.Base.Memory.{Compare}
use ipstat.Gtree.{
  Tree, null, node, rotate_left, rotate_right, balance_of, rebalance, settle, node_new, moves,
  node_insert, node_lookup,
}
use ipstat.Gtree.Entries.{
  entries, put, find, Ascending, Ascending-split, put-lt, put-eq, put-gt, find-lt, find-eq, find-gt,
}

any {ℓ} : {A : Type ℓ} (m : Option A) → Ensures (λ _. Unit {0}) m
any none = tt
any (some a) = tt

module _ {K V : Type 0} where
  abbrev Reads : List (K × V) → Tree K V → Type 0
  Reads m t = entries t ≡ m

  rotate_left-entries :
      (b : ℤ) (k : K) (v : V) (l r : Tree K V)
      → Ensures (λ t. entries t ≡ entries l ++ ((k, v) ∷ entries r)) (rotate_left (node b k v l r))
  unfolding rotate_left
  rotate_left-entries b k v l null = tt
  rotate_left-entries b k v l (node rb rk rv rl rr) = append_assoc (entries l) _ _

  rotate_right-entries :
      (b : ℤ) (k : K) (v : V) (l r : Tree K V)
      → Ensures (λ t. entries t ≡ entries l ++ ((k, v) ∷ entries r)) (rotate_right (node b k v l r))
  unfolding rotate_right
  rotate_right-entries b k v null r = tt
  rotate_right-entries b k v (node lb lk lv ll lr) r = sym (append_assoc (entries ll) _ _)

  turned_left :
      (c : Bool) (l : Tree K V)
      → Ensures (λ t. entries t ≡ entries l) (if c then rotate_left l else some l)
  unfolding rotate_left
  turned_left false l = refl
  turned_left true null = tt
  turned_left true (node b k v l r) = rotate_left-entries b k v l r

  turned_right :
      (c : Bool) (l : Tree K V)
      → Ensures (λ t. entries t ≡ entries l) (if c then rotate_right l else some l)
  unfolding rotate_right
  turned_right false l = refl
  turned_right true null = tt
  turned_right true (node b k v l r) = rotate_right-entries b k v l r

  rebalance_left :
      (b : ℤ) (k : K) (v : V) (l r : Tree K V)
      → Ensures
          (λ t. entries t ≡ entries l ++ ((k, v) ∷ entries r))
          (do
            lb ← balance_of l
            l' ← if ltb_ℤ (pos 0) lb then rotate_left l else some l
            rotate_right (node b k v l' r))
  rebalance_left b k v l r =
      let P = Reads (entries l ++ ((k, v) ∷ entries r)) in
      Ensures-bind (λ _. Unit {0}) P (balance_of l) _ (any _)
        λ lb _.
          Ensures-bind (Reads (entries l)) P (if ltb_ℤ (pos 0) lb then rotate_left l else some l)
            (λ l'. rotate_right (node b k v l' r)) (turned_left (ltb_ℤ (pos 0) lb) l)
            λ l' e. rw e at (rotate_right-entries b k v l' r)

  rebalance_right :
      (b : ℤ) (k : K) (v : V) (l r : Tree K V)
      → Ensures
          (λ t. entries t ≡ entries l ++ ((k, v) ∷ entries r))
          (do
            rb ← balance_of r
            r' ← if ltb_ℤ rb (pos 0) then rotate_right r else some r
            rotate_left (node b k v l r'))
  rebalance_right b k v l r =
      let P = Reads (entries l ++ ((k, v) ∷ entries r)) in
      Ensures-bind (λ _. Unit {0}) P (balance_of r) _ (any _)
        λ rb _.
          Ensures-bind (Reads (entries r)) P (if ltb_ℤ rb (pos 0) then rotate_right r else some r)
            (λ r'. rotate_left (node b k v l r')) (turned_right (ltb_ℤ rb (pos 0)) r)
            λ r' e. rw e at (rotate_left-entries b k v l r')

  -- Rotations move nodes and leave the entries where they are.
  rebalance-entries :
      (b : ℤ) (k : K) (v : V) (l r : Tree K V)
      → Ensures (λ t. entries t ≡ entries l ++ ((k, v) ∷ entries r)) (rebalance b k v l r)
  unfolding rebalance
  rebalance-entries b k v l r = elim (Bool-cases (ltb_ℤ b (negsuc 0))) [
    | inl e ↦ rw e (rebalance_left b k v l r)
    | inr e ↦ rw e (elim (Bool-cases (ltb_ℤ (pos 1) b)) [
      | inl f ↦ rw f (rebalance_right b k v l r)
      | inr f ↦ rw f refl
    ])
  ]

  settle-entries :
      (i : Bool) (b : ℤ) (k : K) (v : V) (l r : Tree K V)
      → Ensures
          (λ (t, j). (entries t ≡ entries l ++ ((k, v) ∷ entries r)) × (j ≡ i))
          (settle i b k v l r)
  unfolding settle
  settle-entries i b k v l r = elim (Bool-cases (i && (ltb_ℤ b (negsuc 0) || ltb_ℤ (pos 1) b))) [
    | inl e ↦ rw e (
        Ensures-bind (λ t. entries t ≡ entries l ++ ((k, v) ∷ entries r)) _ _ _
          (rebalance-entries b k v l r) λ t h. (h, refl))
    | inr e ↦ rw e (refl, refl)
  ]

-- Whether a key was there.
abbrev pub is_none : {A : Type 0} → Option A → Bool
is_none none = true
is_none (some _) = false

module _ {K V : Type 0} ⦃o : Compare K⦄ where
  -- The outcome of an insertion, as the dictionary sees it.
  abbrev pub Puts : Tree K V → K → V → Tree K V × Bool → Type 0
  Puts t key value (t', inserted) =
      (entries t' ≡ put key value (entries t)) × (inserted ≡ is_none (find key (entries t)))

  -- the insertion into a child, put back under its parent
  put_back :
      (t c : Tree K V) (key : K) (value : V) (m : Option (Tree K V × Bool))
      (f : Tree K V → Option Bool) (b b' : ℤ) (k : K) (v : V)
      (side : Tree K V → Tree K V × Tree K V)
      → Ensures (Puts c key value) m
      → (is_none (find key (entries t)) ≡ is_none (find key (entries c)))
      → ((c' : Tree K V)
          → entries c' ≡ put key value (entries c)
          → entries (side c').0 ++ ((k, v) ∷ entries (side c').1) ≡ put key value (entries t))
      → Ensures
          (Puts t key value)
          (do (c', i) ← m; d ← f c'; settle i (if d then b' else b) k v (side c').0 (side c').1)
  put_back t c key value m f b b' k v side h e p =
      Ensures-bind (Puts c key value) (Puts t key value) m _ h λ (c', i) q.
        Ensures-bind (λ _. Unit {0}) (Puts t key value) (f c') _ (any _)
          λ d _.
            Ensures-imp _ (Puts t key value) _ (λ (t', j) r. (r.0 ∙ p c' q.0, r.1 ∙ q.1 ∙ sym e))
              (settle-entries i (if d then b' else b) k v (side c').0 (side c').1)

  -- An insertion is a `put`, and says whether the key is new.
  pub node_insert-put :
      (t : Tree K V) (key : K) (value : V)
      → Ascending (entries t)
      → Ensures (Puts t key value) (node_insert true t key value)
  unfolding node_insert node_new put find
  node_insert-put null key value h = (refl, refl)
  node_insert-put (node b k v l r) key value h =
      let (below, above, hl, hr) = Ascending-split (entries l) k v (entries r) h in
      let at = entries l in
      let to = entries r in
      elim (Ordering-cases (o.cmp key k)) [
        | inl e ↦
            rw (e, node_insert)
              (put_back (node b k v l r) l key value _ (moves l) b (b -ℤ pos 1) k v (λ c. (c, r))
                (node_insert-put l key value hl) (rw (find-lt key at k v to h e))
                (λ c q. rw (q, put-lt key at k v to h value e)))
        | inr (inl e) ↦
            rw (e, node_insert)
              (rw (put-eq key at k v to h value e), rw (find-eq key at k v to h e))
        | inr (inr e) ↦
            rw (e, node_insert)
              (put_back (node b k v l r) r key value _ (moves r) b (b +ℤ pos 1) k v (λ c. (l, c))
                (node_insert-put r key value hr) (rw (find-gt key at k v to h e))
                (λ c q. rw (q, put-gt key at k v to h value e)))
      ]

  -- A lookup is a `find`.
  pub node_lookup-find :
      (t : Tree K V) (key : K) → Ascending (entries t) → node_lookup t key ≡ find key (entries t)
  unfolding node_lookup find
  node_lookup-find null key h = refl
  node_lookup-find (node b k v l r) key h =
      let (below, above, hl, hr) = Ascending-split (entries l) k v (entries r) h in
      elim (Ordering-cases (o.cmp key k)) [
        | inl e ↦
            rw (e, node_lookup)
              (node_lookup-find l key hl ∙ sym (find-lt key (entries l) k v (entries r) h e))
        | inr (inl e) ↦ rw (e, node_lookup) (sym (find-eq key (entries l) k v (entries r) h e))
        | inr (inr e) ↦
            rw (e, node_lookup)
              (node_lookup-find r key hr ∙ sym (find-gt key (entries l) k v (entries r) h e))
      ]
