-- ===== src/Mirror/Settle.antt =====
-- What one row of the listing does to a list in memory.
use ipstat.Base.{
  ℕ, ◌≡◌, refl, ◌∙◌, true, false, none, some, List, [], ◌∷◌, ◌++◌, ◌==◌, ==_iff, ==_refl,
  if◌then◌else◌, arith, Bool-cases, inl, inr,
}
use ipstat.Base.Memory.{bytes_compare}
use ipstat.Gtree.Write.{same}
use ipstat.Mirror.{Kind, find_node, write_node}
use ipstat.Mirror.Find.{Distinct, find-write, find_under, find-append, write-Distinct}
use ipstat.Mirror.Law.{IsMirror, settled}

module _ {N R Query V : Type 0} (kind : Kind N R Query) (now later : ℕ) (view : N → V)
    (row_view : R → V) (law : IsMirror kind now later view row_view) where
  found_same :
      (r : R) (n : N) → kind.key n ≡ kind.row_key r → kind.key (kind.found now n) ≡ kind.row_key r
  found_same r n k = law.found_key n ∙ k

  kept_same :
      (r : R) (n : N) → kind.key n ≡ kind.row_key r → kind.key (kind.kept now n) ≡ kind.row_key r
  kept_same r n k = law.kept_key n ∙ k

  renew_same :
      (r : R) (n : N) → kind.key n ≡ kind.row_key r → kind.key (kind.renew now r n) ≡ kind.row_key r
  renew_same r n k = law.renew_key r n

  pub find-found :
      (r : R) (n : N) (list : List N)
      → find_node kind (kind.row_key r) list ≡ some n
      → find_node kind (kind.row_key r) (write_node kind (kind.row_key r) (kind.found now) list)
        ≡ some (kind.found now n)
  find-found r n list e =
      let w =
        find-write kind (kind.row_key r) (kind.row_key r) (kind.found now) list (found_same r) in
      rw (w, ==_refl (kind.row_key r), e) refl

  pub fresh_settles :
      (r : R) (list : List N) (id : ℕ)
      → find_node kind (kind.row_key r) list ≡ none
      → kind.accepts r ≡ true
      → find_node kind id (list ++ (kind.fresh now r ∷ [])) ≡ (
          if id == kind.row_key r
          then settled kind now r (find_node kind id list)
          else find_node kind id list)
  unfolding settled
  fresh_settles r list id e a =
      let h = find-append kind id (kind.fresh now r) list (rw (law.fresh_key r) e) in
      ground (arith, h, law.fresh_key r, ==_iff id (kind.row_key r))

  pub refused_settles :
      (r : R) (list : List N) (id : ℕ)
      → find_node kind (kind.row_key r) list ≡ none
      → kind.accepts r ≡ false
      → find_node kind id list ≡ (
          if id == kind.row_key r
          then settled kind now r (find_node kind id list)
          else find_node kind id list)
  unfolding settled
  refused_settles r list id e a = ground (arith, ==_iff id (kind.row_key r))

  -- The list that a row leaves whose key is found.
  abbrev pub known_list : R → N → List N → List N
  known_list r n list = write_node kind (kind.row_key r) (kind.kept now) (
      if same (kind.md5 n) (kind.row_md5 r)
      then write_node kind (kind.row_key r) (kind.found now) list
      else write_node kind (kind.row_key r) (kind.renew now r)
          (write_node kind (kind.row_key r) (kind.found now) list))

  pub known-Distinct :
      (r : R) (n : N) (list : List N) → Distinct kind list → Distinct kind (known_list r n list)
  known-Distinct r n list u =
      let f = write-Distinct kind (kind.row_key r) (kind.found now) list (found_same r) u in
      let g = write-Distinct kind (kind.row_key r) (kind.renew now r) _ (renew_same r) f in
      elim (Bool-cases (same (kind.md5 n) (kind.row_md5 r))) [
        | inl s ↦ rw s (write-Distinct kind (kind.row_key r) (kind.kept now) _ (kept_same r) f)
        | inr s ↦ rw s (write-Distinct kind (kind.row_key r) (kind.kept now) _ (kept_same r) g)
      ]

  pub known_settles :
      (r : R) (n : N) (list : List N) (id : ℕ)
      → find_node kind (kind.row_key r) list ≡ some n
      → find_node kind id (known_list r n list) ≡ (
          if id == kind.row_key r
          then settled kind now r (find_node kind id list)
          else find_node kind id list)
  unfolding settled
  known_settles r n list id e =
      let k = kind.row_key r in
      let one = write_node kind k (kind.found now) list in
      let f = find-write kind id k (kind.found now) list (found_same r) in
      let g = find-write kind id k (kind.renew now r) one (renew_same r) in
      let h = find-write kind id k (kind.kept now) one (kept_same r) in
      let i =
        find-write kind id k (kind.kept now) (write_node kind k (kind.renew now r) one)
          (kept_same r) in
      let p = find-found r n list e in
      let q = find-write kind k k (kind.renew now r) one (renew_same r) in
      elim (Bool-cases (same (kind.md5 n) (kind.row_md5 r))) [
        | inl s ↦ elim (Bool-cases (id == k)) [
          | inl b ↦ let e' = find_under kind id k list (some n) b e in rw (s, h, b, p, e', s) refl
          | inr b ↦ rw (s, h, f, b) refl
        ]
        | inr s ↦ elim (Bool-cases (id == k)) [
          | inl b ↦
              let e' = find_under kind id k list (some n) b e in
              rw (s, i, b, q, ==_refl k, p, e', s) refl
          | inr b ↦ rw (s, i, g, f, b) refl
        ]
      ]
