-- ===== src/Gtree/Write.antt =====
-- Callers of src/gtree.c that write through the pointer that `i_tree_lookup` returned, or that add
-- up what an `ITree` holds.
use Prim.Native.Nat.Ordering.{eq}
use ipstat.Base.{
  ℕ, ◌+◌, ◌≡◌, ◌↔◌, refl, sym, ap, ◌∙◌, Bool, true, false, Option, none, some, List, [], ◌∷◌, arith,
  Ordering-cases, inl, inr, if◌then◌else◌,
}
use ipstat.Base.Memory.{Compare}
use ipstat.Gtree.{Tree, null, node, node_write, ITree, i_tree_lookup}
use ipstat.Gtree.Balance.{IsBalanced, height}
use ipstat.Gtree.Entries.{
  entries, put, find, Ascending, Above, put-Ascending, Ascending-split, put-lt, put-eq, put-gt,
  find-lt, find-gt, Above-trans,
}
use ipstat.Gtree.Refine.{node_lookup-find}
use ipstat.Gtree.Table.{IsTable}

module _ {K V : Type 0} ⦃o : Compare K⦄ where
  write-height : (t : Tree K V) (key : K) (value : V) → height (node_write t key value) ≡ height t
  unfolding node_write
  write-height null key value = refl
  write-height (node b k v l r) key value =
      ground (arith, write-height l key value, write-height r key value)

  write-IsBalanced :
      (t : Tree K V) (key : K) (value : V) → IsBalanced t → IsBalanced (node_write t key value)
  unfolding node_write
  write-IsBalanced null key value h = tt
  write-IsBalanced (node b k v l r) key value h = ground (
    arith,
    write-height l key value,
    write-height r key value,
    write-IsBalanced l key value h.3,
    write-IsBalanced r key value h.4,
  )

  find_nil : (key : K) (old : V) → find key [] ≡ some old → ⊥
  unfolding find
  find_nil key old f = cc

  write-put :
      (t : Tree K V) (key : K) (old value : V)
      → Ascending (entries t)
      → find key (entries t) ≡ some old
      → entries (node_write t key value) ≡ put key value (entries t)
  unfolding node_write
  write-put null key old value h f = absurd (find_nil key old f)
  write-put (node b k v l r) key old value h f = elim (Ordering-cases (o.cmp key k)) [
    | inl e ↦
        rw (e, node_write)
          (rw (put-lt key (entries l) k v (entries r) h value e) (
            rw
              (write-put l key old value (Ascending-split (entries l) k v (entries r) h).2
                (sym (find-lt key (entries l) k v (entries r) h e) ∙ f))
              refl))
    | inr (inl e) ↦ rw (e, node_write) (sym (put-eq key (entries l) k v (entries r) h value e))
    | inr (inr e) ↦
        rw (e, node_write)
          (rw (put-gt key (entries l) k v (entries r) h value e) (
            rw
              (write-put r key old value (Ascending-split (entries l) k v (entries r) h).3
                (sym (find-gt key (entries l) k v (entries r) h e) ∙ f))
              refl))
  ]

  -- A write through a pointer that a lookup returned keeps the table valid, and binds the key to
  -- the new value.
  pub write-IsTable :
      (t : ITree K V) (key : K) (old value : V)
      → IsTable t
      → i_tree_lookup t key ≡ some old
      → IsTable (record { root = node_write t.root key value })
        × (entries (node_write t.root key value) ≡ put key value (entries t.root))
  unfolding i_tree_lookup
  write-IsTable t key old value h f =
      let e =
        write-put t.root key old value h.ascending
          (sym (node_lookup-find t.root key h.ascending) ∙ f) in
      (
        record {
          balanced = write-IsBalanced t.root key value h.balanced;
          ascending = rw e (put-Ascending key value _ h.ascending);
        },
        e,
      )

-- The sum of one number of the values whose keys satisfy a test.
abbrev pub sum_of {ℓ κ} : {K : Type ℓ} {V : Type κ} → (V → ℕ) → (K → Bool) → List (K × V) → ℕ
sum_of w p [] = 0
sum_of w p ((k, v) ∷ m) = (if p k then w v else 0) + sum_of w p m

abbrev pub held_of {ℓ} : {V : Type ℓ} → (V → ℕ) → Option V → ℕ
held_of w none = 0
held_of w (some v) = w v

module _ {K : Type 0} ⦃o : Compare K⦄ where
  same_test : (p : K → Bool) (key k : K) → o.cmp key k ≡ eq → p key ≡ p k
  same_test p key k e = ap p (o.cmp_same key k e)

module _ {K V : Type 0} ⦃o : Compare K⦄ (w : V → ℕ) where
  missing : (key : K) (m : List (K × V)) → Above key m → find key m ≡ none
  unfolding find
  missing key [] h = refl
  missing key ((k, v) ∷ m) h = ground (arith, missing key m h.1)

  pub sum_of-put :
      (p : K → Bool) (key : K) (value : V) (m : List (K × V))
      → Ascending m
      → sum_of w p (put key value m) + (if p key then held_of w (find key m) else 0)
        ≡ sum_of w p m + (if p key then w value else 0)
  unfolding put find
  sum_of-put p key value [] h = ground arith
  sum_of-put p key value ((k, v) ∷ m) h =
      ground
        (arith, sum_of-put p key value m h.1, missing key m, Above-trans k key m, same_test p key k)

-- The same where the values are numbers.
abbrev pub total {ℓ} : {K : Type ℓ} → (K → Bool) → List (K × ℕ) → ℕ
total = sum_of (λ v. v)

abbrev pub held : Option ℕ → ℕ
held = held_of (λ v. v)

module _ {K : Type 0} ⦃o : Compare K⦄ where
  -- The test for one key.
  abbrev pub same : K → K → Bool
  same j k = elim (o.cmp j k) [ eq ↦ true | _ ↦ false ]

  nothing_at_left : (j : K) (m : List (K × ℕ)) → Above j m → total (same j) m ≡ 0
  nothing_at_left j [] h = refl
  nothing_at_left j ((k, v) ∷ m) h = ground (arith, nothing_at_left j m h.1)

  pub total-find : (j : K) (m : List (K × ℕ)) → Ascending m → total (same j) m ≡ held (find j m)
  unfolding find
  total-find j [] h = refl
  total-find j ((k, v) ∷ m) h = ground (
    arith,
    total-find j m h.1,
    nothing_at_left j m,
    Above-trans k j m,
    o.cmp_same j k,
    o.flip_gt j k,
  )

  pub same_iff : (j key : K) → (same j key ≡ true) ↔ (j ≡ key)
  same_iff j key =
      (λ h. ground (arith, o.cmp_same j key), λ e. rw e (ground (arith, o.cmp_self key)))

  same-held :
      (j key : K) (m : List (K × ℕ)) → same j key ≡ true → held (find key m) ≡ held (find j m)
  same-held j key m h = ap (λ k. held (find k m)) (sym ((same_iff j key).0 h))

  -- What one key holds after a binding.
  pub total-same-put :
      (j key : K) (value : ℕ) (m : List (K × ℕ))
      → Ascending m
      → total (same j) (put key value m) ≡ (if same j key then value else total (same j) m)
  total-same-put j key value m h = ground (
    arith,
    sum_of-put (λ v. v) (same j) key value m h,
    total-find j m h,
    o.cmp_same j key,
    same-held j key m,
  )
