-- ===== src/Mirror/Expire.antt =====
-- The walk that deletes the dead nodes.
use ipstat.Base.{
  ℕ, ◌≡◌, refl, ◌∙◌, Option, none, some, List, [], ◌∷◌, ==_iff, if◌then◌else◌, arith, Bool-cases,
  inl, inr,
}
use ipstat.Mirror.{Kind, find_node, delete_node, expire}
use ipstat.Mirror.Find.{Distinct, find-delete, delete-Distinct}

module _ {N R Query : Type 0} (kind : Kind N R Query) where
  -- What the walk leaves of what was found.
  unfoldable pub survivor : ℕ → Option N → Option N
  survivor later none = none
  survivor later (some n) = if kind.is_dead later n then none else some n

  -- The list after the visit of one node.
  abbrev visited : ℕ → N → List N → List N
  visited later n list = if kind.is_dead later n then delete_node kind (kind.key n) list else list

  visited-Distinct :
      (later : ℕ) (n : N) (list : List N)
      → Distinct kind list
      → Distinct kind (visited later n list)
  visited-Distinct later n list u = elim (Bool-cases (kind.is_dead later n)) [
    | inl e ↦ rw e (delete-Distinct kind (kind.key n) list u)
    | inr e ↦ rw e u
  ]

  -- The visited nodes decide where there is one under the key.
  abbrev verdict : ℕ → Option N → Option N → Option N
  verdict later none o = o
  verdict later (some n) o = if kind.is_dead later n then none else o

  verdict_step :
      (later : ℕ) (n : N) (visit list : List N) (id : ℕ)
      → find_node kind (kind.key n) visit ≡ none
      → Distinct kind list
      → verdict later (find_node kind id visit) (find_node kind id (visited later n list))
        ≡ verdict later (find_node kind id (n ∷ visit)) (find_node kind id list)
  unfolding find_node
  verdict_step later n visit list id e u =
      ground (arith, find-delete kind id (kind.key n) list u, ==_iff id (kind.key n))

  find-expire :
      (later : ℕ) (visit list : List N) (id : ℕ)
      → Distinct kind visit
      → Distinct kind list
      → find_node kind id (expire kind later visit list)
        ≡ verdict later (find_node kind id visit) (find_node kind id list)
  unfolding expire find_node
  find-expire later [] list id v u = refl
  find-expire later (n ∷ visit) list id v u =
      find-expire later visit (visited later n list) id v.1 (visited-Distinct later n list u)
      ∙ verdict_step later n visit list id v.0 u

  verdict_self : (later : ℕ) (o : Option N) → verdict later o o ≡ survivor later o
  unfolding survivor
  verdict_self later none = refl
  verdict_self later (some n) = refl

  pub expire-survivor :
      (later : ℕ) (list : List N) (id : ℕ)
      → Distinct kind list
      → find_node kind id (expire kind later list list) ≡ survivor later (find_node kind id list)
  unfolding survivor
  expire-survivor later list id u =
      find-expire later list list id u u ∙ verdict_self later (find_node kind id list)

  pub expire-Distinct :
      (later : ℕ) (visit list : List N)
      → Distinct kind list
      → Distinct kind (expire kind later visit list)
  unfolding expire
  expire-Distinct later [] list u = u
  expire-Distinct later (n ∷ visit) list u =
      expire-Distinct later visit (visited later n list) (visited-Distinct later n list u)
