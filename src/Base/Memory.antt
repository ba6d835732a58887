-- ===== src/Base/Memory.antt =====
-- `memcmp` over bytes, and the orders that a comparison function stands for.
use Prim.Native.Nat.{ℕ, compare, Ordering}
use Prim.Native.Nat.Ordering.{lt, eq, gt}
use mathlib.Core.Path.{◌≡◌, refl}
use mathlib.Core.List.{List, [], ◌∷◌}
use native.Mathlib.Omega.{arith}

-- What a container asks of its comparison function: a total order by its sign.
pub record IsOrder {ℓ} {K : Type ℓ} (cmp : K → K → Ordering) : Type ℓ where
  pub lt_chain : (x y z : K) → cmp x y ≡ lt → cmp y z ≡ lt → cmp x z ≡ lt
  pub flip_lt : (x y : K) → cmp x y ≡ lt → cmp y x ≡ gt
  pub flip_gt : (x y : K) → cmp x y ≡ gt → cmp y x ≡ lt
  pub cmp_same : (x y : K) → cmp x y ≡ eq → x ≡ y
  pub cmp_self : (x : K) → cmp x x ≡ eq

pub record Compare {ℓ} (K : Type ℓ) : Type ℓ where
  pub cmp : K → K → Ordering
  pub order : IsOrder cmp
  pub open order use *

-- The first bytes that differ decide. The program compares blocks of one size.
unfoldable pub memcmp : List ℕ → List ℕ → Ordering
memcmp [] [] = eq
memcmp [] (b ∷ bs) = lt
memcmp (a ∷ as_) [] = gt
memcmp (a ∷ as_) (b ∷ bs) = elim (compare a b) [ lt ↦ lt | eq ↦ memcmp as_ bs | gt ↦ gt ]

memcmp_self : (a : List ℕ) → memcmp a a ≡ eq
unfolding memcmp
memcmp_self [] = refl
memcmp_self (a ∷ r) = ground (arith, memcmp_self r)

memcmp_same : (a b : List ℕ) → memcmp a b ≡ eq → a ≡ b
unfolding memcmp
memcmp_same [] [] h = refl
memcmp_same [] (b ∷ s) h = cc
memcmp_same (a ∷ r) [] h = cc
memcmp_same (a ∷ r) (b ∷ s) h = ground (arith, memcmp_same r s)

memcmp_flip_gt : (a b : List ℕ) → memcmp a b ≡ gt → memcmp b a ≡ lt
unfolding memcmp
memcmp_flip_gt [] [] h = cc
memcmp_flip_gt [] (b ∷ s) h = cc
memcmp_flip_gt (a ∷ r) [] h = refl
memcmp_flip_gt (a ∷ r) (b ∷ s) h = ground (arith, memcmp_flip_gt r s)

memcmp_flip_lt : (a b : List ℕ) → memcmp a b ≡ lt → memcmp b a ≡ gt
unfolding memcmp
memcmp_flip_lt [] [] h = cc
memcmp_flip_lt [] (b ∷ s) h = refl
memcmp_flip_lt (a ∷ r) [] h = cc
memcmp_flip_lt (a ∷ r) (b ∷ s) h = ground (arith, memcmp_flip_lt r s)

memcmp_chain : (a b c : List ℕ) → memcmp a b ≡ lt → memcmp b c ≡ lt → memcmp a c ≡ lt
unfolding memcmp
memcmp_chain [] [] c h k = cc
memcmp_chain [] (b ∷ s) [] h k = cc
memcmp_chain [] (b ∷ s) (c ∷ t) h k = refl
memcmp_chain (a ∷ r) [] c h k = cc
memcmp_chain (a ∷ r) (b ∷ s) [] h k = cc
memcmp_chain (a ∷ r) (b ∷ s) (c ∷ t) h k = ground (arith, memcmp_chain r s t)

pub memcmp-IsOrder : IsOrder memcmp
memcmp-IsOrder = record {
  lt_chain = memcmp_chain;
  flip_lt = memcmp_flip_lt;
  flip_gt = memcmp_flip_gt;
  cmp_same = memcmp_same;
  cmp_self = memcmp_self;
}

-- Keys that the program compares by `memcmp`.
instance unfoldable pub bytes_compare : Compare (List ℕ)
bytes_compare = record { cmp = memcmp; order = memcmp-IsOrder }
