-- ===== src/Gtree/Entries.antt =====
-- The tree of src/gtree.c read from left to right: a list of entries in the order of the keys.
use Prim.Native.Nat.Ordering.{lt, eq, gt}
use ipstat.Base.{◌≡◌, refl, Option, none, some, List, [], ◌∷◌, ◌++◌, arith, All}
use ipstat.Base.Memory.{Compare}
use ipstat.Gtree.{Tree, null, node}

module _ {ℓ κ} {K : Type ℓ} {V : Type κ} where
  abbrev pub entries : Tree K V → List (K × V)
  entries null = []
  entries (node b k v l r) = entries l ++ ((k, v) ∷ entries r)

module _ {ℓ κ} {K : Type ℓ} {V : Type κ} ⦃o : Compare K⦄ where
  -- The entries of a dictionary whose keys ascend: a key that is there keeps its place and its
  -- first spelling, and takes the new value.
  unfoldable pub put : K → V → List (K × V) → List (K × V)
  put key value [] = (key, value) ∷ []
  put key value ((k, v) ∷ m) = elim (o.cmp key k) [
    | lt ↦ (key, value) ∷ ((k, v) ∷ m)
    | eq ↦ (k, value) ∷ m
    | gt ↦ (k, v) ∷ put key value m
  ]

  unfoldable pub find : K → List (K × V) → Option V
  find key [] = none
  find key ((k, v) ∷ m) = elim (o.cmp key k) [ eq ↦ some v | _ ↦ find key m ]

  abbrev pub Above : K → List (K × V) → Type 0
  Above k = All (λ e. o.cmp k e.0 ≡ lt)

  abbrev pub Below : K → List (K × V) → Type 0
  Below k = All (λ e. o.cmp e.0 k ≡ lt)

  -- The keys ascend.
  abbrev pub Ascending : List (K × V) → Type 0
  Ascending [] = Unit
  Ascending ((k, v) ∷ m) = Above k m × Ascending m

  Above-right :
      (k : K) (xs : List (K × V)) (e : K × V) (ys : List (K × V))
      → Above k (xs ++ (e ∷ ys))
      → (o.cmp k e.0 ≡ lt) × Above k xs × Above k ys
  Above-right k [] e ys h = (h.0, tt, h.1)
  Above-right k (x ∷ xs) e ys h = let (a, b, c) = Above-right k xs e ys h.1 in (a, (h.0, b), c)

  -- The entries on the two sides of one of them.
  pub Ascending-split :
      (xs : List (K × V)) (k : K) (v : V) (ys : List (K × V))
      → Ascending (xs ++ ((k, v) ∷ ys))
      → Below k xs × Above k ys × Ascending xs × Ascending ys
  Ascending-split [] k v ys h = (tt, h.0, tt, h.1)
  Ascending-split (x ∷ xs) k v ys h =
      let (a, b, c, d) = Ascending-split xs k v ys h.1 in
      let (p, q, r) = Above-right x.0 xs (k, v) ys h.0 in ((p, a), b, (q, c), d)

  Below-trans : (k key : K) (xs : List (K × V)) → o.cmp k key ≡ lt → Below k xs → Below key xs
  Below-trans k key [] h b = tt
  Below-trans k key (x ∷ xs) h b = (o.lt_chain x.0 k key b.0 h, Below-trans k key xs h b.1)

  pub Above-trans : (k key : K) (xs : List (K × V)) → o.cmp key k ≡ lt → Above k xs → Above key xs
  Above-trans k key [] h b = tt
  Above-trans k key (x ∷ xs) h b = (o.lt_chain key k x.0 h b.0, Above-trans k key xs h b.1)

  -- `put` and `find` go to one side of an entry.
  put_left :
      (key : K) (value : V) (xs : List (K × V)) (k : K) (v : V) (ys : List (K × V))
      → o.cmp key k ≡ lt
      → put key value (xs ++ ((k, v) ∷ ys)) ≡ put key value xs ++ ((k, v) ∷ ys)
  unfolding put
  put_left key value [] k v ys h = ground arith
  put_left key value ((x, w) ∷ xs) k v ys h = ground (arith, put_left key value xs k v ys h)

  put_right :
      (key : K) (value : V) (xs : List (K × V)) (ys : List (K × V))
      → Below key xs
      → put key value (xs ++ ys) ≡ xs ++ put key value ys
  unfolding put
  put_right key value [] ys h = refl
  put_right key value ((x, w) ∷ xs) ys h =
      ground (arith, put_right key value xs ys h.1, o.flip_lt x key h.0)

  find_left : (key : K) (xs ys : List (K × V)) → Above key ys → find key (xs ++ ys) ≡ find key xs
  unfolding find
  find_left key [] [] h = refl
  find_left key [] ((k, v) ∷ ys) h = ground (arith, find_left key [] ys h.1)
  find_left key ((x, w) ∷ xs) ys h = ground (arith, find_left key xs ys h)

  find_right :
      (key : K) (xs : List (K × V)) (ys : List (K × V))
      → Below key xs
      → find key (xs ++ ys) ≡ find key ys
  unfolding find
  find_right key [] ys h = refl
  find_right key ((x, w) ∷ xs) ys h = ground (arith, find_right key xs ys h.1, o.flip_lt x key h.0)

  -- the keys of a `put`
  Above-put :
      (b key : K) (value : V) (m : List (K × V))
      → o.cmp b key ≡ lt
      → Above b m
      → Above b (put key value m)
  unfolding put
  Above-put b key value [] h a = (h, tt)
  Above-put b key value ((k, v) ∷ m) h a = ground (arith, Above-put b key value m h a.1)

  pub put-Ascending :
      (key : K) (value : V) (m : List (K × V)) → Ascending m → Ascending (put key value m)
  unfolding put
  put-Ascending key value [] h = (tt, tt)
  put-Ascending key value ((k, v) ∷ m) h = ground (
    arith,
    put-Ascending key value m h.1,
    Above-put k key value m,
    o.flip_gt key k,
    Above-trans k key m,
  )

  module _ (key : K) (xs : List (K × V)) (k : K) (v : V) (ys : List (K × V))
      (h : Ascending (xs ++ ((k, v) ∷ ys))) where
    pub put-lt :
        (value : V)
        → o.cmp key k ≡ lt
        → put key value (xs ++ ((k, v) ∷ ys)) ≡ put key value xs ++ ((k, v) ∷ ys)
    put-lt value e = put_left key value xs k v ys e

    pub put-eq :
        (value : V)
        → o.cmp key k ≡ eq
        → put key value (xs ++ ((k, v) ∷ ys)) ≡ xs ++ ((k, value) ∷ ys)
    unfolding put
    put-eq value e =
        rw
          (put_right key value xs ((k, v) ∷ ys)
            (rw (o.cmp_same key k e) (Ascending-split xs k v ys h).0))
          (rw (e, put))

    pub put-gt :
        (value : V)
        → o.cmp key k ≡ gt
        → put key value (xs ++ ((k, v) ∷ ys)) ≡ xs ++ ((k, v) ∷ put key value ys)
    unfolding put
    put-gt value e =
        rw
          (put_right key value xs ((k, v) ∷ ys)
            (Below-trans k key xs (o.flip_gt key k e) (Ascending-split xs k v ys h).0))
          (rw (e, put))

    pub find-lt : o.cmp key k ≡ lt → find key (xs ++ ((k, v) ∷ ys)) ≡ find key xs
    find-lt e =
        find_left key xs ((k, v) ∷ ys) (e, Above-trans k key ys e (Ascending-split xs k v ys h).1)

    pub find-eq : o.cmp key k ≡ eq → find key (xs ++ ((k, v) ∷ ys)) ≡ some v
    unfolding find
    find-eq e =
        rw
          (find_right key xs ((k, v) ∷ ys)
            (rw (o.cmp_same key k e) (Ascending-split xs k v ys h).0))
          (rw (e, find))

    pub find-gt : o.cmp key k ≡ gt → find key (xs ++ ((k, v) ∷ ys)) ≡ find key ys
    unfolding find
    find-gt e =
        rw
          (find_right key xs ((k, v) ∷ ys)
            (Below-trans k key xs (o.flip_gt key k e) (Ascending-split xs k v ys h).0))
          (rw (e, find))
