-- ===== src/Mirror/Law.antt =====
-- What the kinds of lists have in common, what a database that answers does, and what a listing is
-- to make of a list.
use ipstat.Base.{ℕ, ◌≡◌, true, false, Option, none, some, List, [], ◌∷◌, All, ◌==◌, if◌then◌else◌}
use ipstat.Base.Memory.{bytes_compare}
use ipstat.Gtree.Write.{same}
use ipstat.Store.{RowStore}
use ipstat.Mirror.{Kind}

-- What the functions of a kind do to a node's key and to its content, which `view` extracts, and
-- that the walk spares the nodes that a row named.
pub record IsMirror {N R Query V : Type 0} (kind : Kind N R Query) (now later : ℕ) (view : N → V)
    (row_view : R → V) : Type 0 where
  pub fresh_key : (r : R) → kind.key (kind.fresh now r) ≡ kind.row_key r
  pub renew_key : (r : R) (n : N) → kind.key (kind.renew now r n) ≡ kind.row_key r
  pub found_key : (n : N) → kind.key (kind.found now n) ≡ kind.key n
  pub kept_key : (n : N) → kind.key (kind.kept now n) ≡ kind.key n
  pub fresh_view : (r : R) → view (kind.fresh now r) ≡ row_view r
  pub renew_view : (r : R) (n : N) → view (kind.renew now r n) ≡ row_view r
  pub found_view : (n : N) → view (kind.found now n) ≡ view n
  pub kept_view : (n : N) → view (kind.kept now n) ≡ view n
  pub fresh_alive : (r : R) → kind.is_dead later (kind.fresh now r) ≡ false
  pub found_alive : (n : N) → kind.is_dead later (kind.kept now (kind.found now n)) ≡ false
  pub renew_alive :
      (r : R) (n : N)
      → kind.is_dead later (kind.kept now (kind.renew now r (kind.found now n))) ≡ false

-- The database serves the rows in every state with the property: sessions open, the listing is
-- answered with the rows, and each key with its row.
pub record IsServing {Db N R Query Exec : Type 0} (store : RowStore Db Query R Exec)
    (kind : Kind N R Query) (rows : List R) (IsGood : Db → Type 0) : Type 0 where
  pub opens : (d : Db) → IsGood d → ((store.open_session d).0 ≡ true)
  pub open_good : (d : Db) → IsGood d → IsGood (store.open_session d).1
  pub lists : (d : Db) → IsGood d → (store.select kind.listing d).0 ≡ some rows
  pub list_good : (d : Db) → IsGood d → IsGood (store.select kind.listing d).1
  pub finds :
      All
        (λ r.
          (d : Db) → IsGood d → (store.select (kind.by_key (kind.row_key r)) d).0 ≡ some (r ∷ []))
        rows
  pub find_good : (id : ℕ) (d : Db) → IsGood d → IsGood (store.select (kind.by_key id) d).1
  pub close_good : (d : Db) → IsGood d → IsGood (store.close d)

module _ {N R Query : Type 0} (kind : Kind N R Query) where
  -- The row of a key in a listing.
  unfoldable pub find_row : ℕ → List R → Option R
  find_row id [] = none
  find_row id (r ∷ rows) = if kind.row_key r == id then some r else find_row id rows

  -- No key twice in a listing.
  abbrev pub DistinctRows : List R → Type 0
  DistinctRows [] = Unit
  DistinctRows (r ∷ rows) = (find_row (kind.row_key r) rows ≡ none) × DistinctRows rows

  -- What a row makes of the node under its key.
  unfoldable pub settled : ℕ → R → Option N → Option N
  settled now r none = if kind.accepts r then some (kind.fresh now r) else none
  settled now r (some n) = some (
      kind.kept now (
        if same (kind.md5 n) (kind.row_md5 r)
        then kind.found now n
        else kind.renew now r (kind.found now n)))

  -- What a listing makes of the node under a key.
  unfoldable pub settled_by : ℕ → Option R → Option N → Option N
  settled_by now none o = o
  settled_by now (some r) o = settled now r o
