-- ===== src/Mirror/Shows.antt =====
-- What a synchronised list shows.
use ipstat.Base.{ℕ, ◌≡◌, refl, sym, ap, ◌∙◌, Option, none, some, List, All, arith}
use mathlib.Core.Path.{subst}
use ipstat.Mirror.{Kind, find_node}
use ipstat.Mirror.Find.{through, Distinct, All-find, find-All}
use ipstat.Mirror.Law.{find_row}
use ipstat.Mirror.Expire.{survivor}

module _ {N R Query V : Type 0} (kind : Kind N R Query) (later : ℕ) (view : N → V)
    (row_view : R → V) where
  -- The content under a key: the row's, or else that of what was there, if it is not expired.
  unfoldable pub shows : Option R → Option N → Option V
  shows none o = through view (survivor kind later o)
  shows (some r) o = some (row_view r)

  -- No key twice, and under each key what the rows and the list before say.
  abbrev pub ShowsAll : List R → List N → List N → Type 0
  ShowsAll rows list list' =
      Distinct kind list'
      × ((id : ℕ)
          → through view (find_node kind id list')
            ≡ shows (find_row kind id rows) (find_node kind id list))

  some_same : (v w : V) → some v ≡ some w → v ≡ w
  some_same v w e = cc

  shown_kept : (n m : N) → some (view n) ≡ shows none (some m) → view n ≡ view m
  unfolding shows survivor
  shown_kept n m e = ground arith

  shown_content :
      (Q : V → Type 0) (row : Option R) (o : Option N) (n : N)
      → some (view n) ≡ shows row o
      → ((r : R) → row ≡ some r → Q (row_view r))
      → ((m : N) → o ≡ some m → Q (view m))
      → Q (view n)
  unfolding shows survivor
  shown_content Q (some r) o n e a b = subst Q (sym (some_same (view n) (row_view r) e)) (a r refl)
  shown_content Q none none n e a b = cc
  shown_content Q none (some m) n e a b = subst Q (sym (shown_kept n m e)) (b m refl)

  -- A property of contents that the rows and the list before have, the synchronised list has.
  pub ShowsAll-All :
      (Q : V → Type 0) (rows : List R) (list list' : List N)
      → ShowsAll rows list list'
      → ((id : ℕ) (r : R) → find_row kind id rows ≡ some r → Q (row_view r))
      → All (λ n. Q (view n)) list
      → All (λ n. Q (view n)) list'
  ShowsAll-All Q rows list list' s a b =
      All-find kind (λ n. Q (view n)) list' s.0
        (λ id n e.
          shown_content Q (find_row kind id rows) (find_node kind id list) n
            (ap (through view) (sym e) ∙ s.1 id) (a id)
            (λ m f. find-All kind (λ n. Q (view n)) list id m b f))
