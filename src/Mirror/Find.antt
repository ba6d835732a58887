-- ===== src/Mirror/Find.antt =====
-- Searching a list of nodes after a write, a deletion or an insertion.
use ipstat.Base.{
  ℕ, ◌≡◌, refl, true, false, Option, none, some, List, [], ◌∷◌, ◌++◌, All, ◌==◌, ==_iff, ==_refl,
  if◌then◌else◌, arith, Bool-cases, inl, inr,
}
use mathlib.Core.Path.{subst}
use ipstat.Mirror.{Kind, find_node, write_node, delete_node}

-- A function of what a search found.
abbrev pub through {ℓ κ} : {A : Type ℓ} {B : Type κ} → (A → B) → Option A → Option B
through f none = none
through f (some a) = some (f a)

pub through-none {ℓ κ} :
    {A : Type ℓ} {B : Type κ} (f : A → B) (o : Option A) → through f o ≡ none → o ≡ none
through-none f none e = refl
through-none f (some a) e = cc

module _ {N R Query : Type 0} (kind : Kind N R Query) where
  pub find-key :
      (id : ℕ) (n : N) (list : List N) → find_node kind id list ≡ some n → kind.key n ≡ id
  unfolding find_node
  find-key id n [] e = cc
  find-key id n (m ∷ list) e = ground (arith, find-key id n list)

  pub find_under :
      (id j : ℕ) (list : List N) (o : Option N)
      → (id == j) ≡ true
      → find_node kind j list ≡ o
      → find_node kind id list ≡ o
  find_under id j list o b e = rw ((==_iff id j).0 b) e

  pub find-write :
      (j id : ℕ) (f : N → N) (list : List N)
      → ((n : N) → kind.key n ≡ id → kind.key (f n) ≡ id)
      → find_node kind j (write_node kind id f list)
        ≡ (if j == id then through f (find_node kind id list) else find_node kind j list)
  unfolding find_node write_node
  find-write j id f [] h = ground arith
  find-write j id f (n ∷ list) h = ground (arith, find-write j id f list h, h n)

  pub find-append :
      (j : ℕ) (n : N) (list : List N)
      → find_node kind (kind.key n) list ≡ none
      → find_node kind j (list ++ (n ∷ []))
        ≡ (if j == kind.key n then some n else find_node kind j list)
  unfolding find_node
  find-append j n [] e = ground arith
  find-append j n (m ∷ list) e = ground (arith, find-append j n list)

  -- No key twice.
  abbrev pub Distinct : List N → Type 0
  Distinct [] = Unit
  Distinct (n ∷ list) = (find_node kind (kind.key n) list ≡ none) × Distinct list

  pub find-delete :
      (j id : ℕ) (list : List N)
      → Distinct list
      → find_node kind j (delete_node kind id list)
        ≡ (if j == id then none else find_node kind j list)
  unfolding find_node delete_node
  find-delete j id [] h = ground arith
  find-delete j id (n ∷ list) h = ground (arith, find-delete j id list h.1)

  pub write-Distinct :
      (id : ℕ) (f : N → N) (list : List N)
      → ((n : N) → kind.key n ≡ id → kind.key (f n) ≡ id)
      → Distinct list
      → Distinct (write_node kind id f list)
  unfolding write_node
  write-Distinct id f [] h d = tt
  write-Distinct id f (n ∷ list) h d = ground (
    arith,
    write-Distinct id f list h d.1,
    find-write (kind.key n) id f list h,
    h n,
    ==_iff (kind.key n) id,
  )

  pub append-Distinct :
      (n : N) (list : List N)
      → find_node kind (kind.key n) list ≡ none
      → Distinct list
      → Distinct (list ++ (n ∷ []))
  unfolding find_node
  append-Distinct n [] e d = (refl, tt)
  append-Distinct n (m ∷ list) e d =
      ground (arith, append-Distinct n list, find-append (kind.key m) n list)

  pub delete-Distinct :
      (id : ℕ) (list : List N) → Distinct list → Distinct (delete_node kind id list)
  unfolding delete_node
  delete-Distinct id [] d = tt
  delete-Distinct id (n ∷ list) d =
      ground (arith, delete-Distinct id list d.1, find-delete (kind.key n) id list d.1)

  find_behind :
      (n m : N) (list : List N) (id : ℕ)
      → find_node kind (kind.key n) list ≡ none
      → find_node kind id list ≡ some m
      → find_node kind id (n ∷ list) ≡ some m
  unfolding find_node
  find_behind n m list id u e = ground (arith, ==_iff (kind.key n) id)

  find_front : (n : N) (list : List N) → find_node kind (kind.key n) (n ∷ list) ≡ some n
  unfolding find_node
  find_front n list = ground (arith, ==_refl (kind.key n))

  -- Every node of a list with no key twice is found.
  pub All-find {ℓ} :
      (P : N → Type ℓ) (list : List N)
      → Distinct list
      → ((id : ℕ) (n : N) → find_node kind id list ≡ some n → P n)
      → All P list
  All-find P [] u h = tt
  All-find P (n ∷ list) u h = (
    h (kind.key n) n (find_front n list),
    All-find P list u.1 (λ id m e. h id m (find_behind n m list id u.0 e)),
  )

  find_hit :
      (m n : N) (list : List N) (id : ℕ)
      → kind.key m == id ≡ true
      → find_node kind id (m ∷ list) ≡ some n
      → m ≡ n
  unfolding find_node
  find_hit m n list id b e = ground arith

  find_miss :
      (m n : N) (list : List N) (id : ℕ)
      → kind.key m == id ≡ false
      → find_node kind id (m ∷ list) ≡ some n
      → find_node kind id list ≡ some n
  unfolding find_node
  find_miss m n list id b e = ground arith

  pub find-All {ℓ} :
      (P : N → Type ℓ) (list : List N) (id : ℕ) (n : N)
      → All P list
      → find_node kind id list ≡ some n
      → P n
  unfolding find_node
  find-All P [] id n a e = cc
  find-All P (m ∷ list) id n a e = elim (Bool-cases (kind.key m == id)) [
    | inl b ↦ subst P (find_hit m n list id b e) a.0
    | inr b ↦ find-All P list id n a.1 (find_miss m n list id b e)
  ]
