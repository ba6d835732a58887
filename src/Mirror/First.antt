-- ===== src/Mirror/First.antt =====
-- The first synchronisation and the loading at the start.
use ipstat.Base.{
  ℕ, ◌≡◌, refl, sym, ap, ◌∙◌, Bool, true, false, none, some, Option, List, [], ◌∷◌, ◌++◌, All, ◌==◌,
  ==_iff, if◌then◌else◌, arith, Bool-cases, inl, inr,
}
use ipstat.Base.Memory.{bytes_compare}
use ipstat.Store.{RowStore}
use ipstat.Mirror.{Kind, find_node, sync_rows, expire, sync_table}
use ipstat.Mirror.Find.{find-append}
use ipstat.Mirror.Law.{IsMirror, IsServing, find_row, DistinctRows}
use mathlib.Core.List.{append-nil, append_assoc}
use ipstat.Mirror.Init.{load_rows, init_table}
use ipstat.Mirror.Row.{sync_row-fresh, after_fetch, after_fetch-good}

module _ {N R Query : Type 0} (kind : Kind N R Query) (now : ℕ) where
  -- The nodes of a listing.
  unfoldable pub fresh_rows : List R → List N
  fresh_rows [] = []
  fresh_rows (r ∷ rows) =
      if kind.accepts r then kind.fresh now r ∷ fresh_rows rows else fresh_rows rows

  -- The list after one row.
  abbrev with_row : R → List N → List N
  with_row r list = if kind.accepts r then list ++ (kind.fresh now r ∷ []) else list

  with_row-fresh_rows :
      (r : R) (rows : List R) (list : List N)
      → with_row r list ++ fresh_rows rows ≡ list ++ fresh_rows (r ∷ rows)
  unfolding fresh_rows
  with_row-fresh_rows r rows list = elim (Bool-cases (kind.accepts r)) [
    | inl e ↦ rw (e, fresh_rows) (append_assoc list (kind.fresh now r ∷ []) (fresh_rows rows))
    | inr e ↦ rw (e, fresh_rows) refl
  ]

  load_rows-fresh_rows :
      (mem : ℕ → Bool × Bool) (rows : List R) (list : List N)
      → ((id : ℕ) → mem id ≡ (true, true))
      → load_rows kind mem now rows list ≡ list ++ fresh_rows rows
  unfolding load_rows fresh_rows
  load_rows-fresh_rows mem [] list h = sym (append-nil list)
  load_rows-fresh_rows mem (r ∷ rows) list h =
      rw (h (kind.row_key r), load_rows-fresh_rows mem rows (with_row r list) h)
        (with_row-fresh_rows r rows list)

  -- The node that the loading makes of the row of a key.
  abbrev node_of_row : Option R → Option N
  node_of_row none = none
  node_of_row (some r) = if kind.accepts r then some (kind.fresh now r) else none

  find_row_under :
      (id : ℕ) (r : R) (rows : List R)
      → (kind.row_key r == id) ≡ true
      → find_row kind (kind.row_key r) rows ≡ none
      → find_row kind id rows ≡ none
  find_row_under id r rows b e = rw (sym ((==_iff (kind.row_key r) id).0 b)) e

  find-fresh_rows :
      (id : ℕ) (rows : List R)
      → ((r : R) → kind.key (kind.fresh now r) ≡ kind.row_key r)
      → DistinctRows kind rows
      → find_node kind id (fresh_rows rows) ≡ node_of_row (find_row kind id rows)
  unfolding fresh_rows find_node find_row
  find-fresh_rows id [] k w = refl
  find-fresh_rows id (r ∷ rows) k w =
      let i = find-fresh_rows id rows k w.1 in
      elim (Bool-cases (kind.accepts r)) [
        | inl e ↦ elim (Bool-cases (kind.row_key r == id)) [
          | inl b ↦ rw (e, k r, b, e) refl
          | inr b ↦ rw (e, k r, b) i
        ]
        | inr e ↦ elim (Bool-cases (kind.row_key r == id)) [
          | inl b ↦ rw (e, b, e) (i ∙ ap node_of_row (find_row_under id r rows b w.0))
          | inr b ↦ rw (e, b) i
        ]
      ]

  -- No node under the keys of the rows.
  abbrev Absent : List R → List N → Type 0
  Absent rows list = All (λ r. find_node kind (kind.row_key r) list ≡ none) rows

  with_row-Absent :
      (r : R) (rows : List R) (list : List N)
      → kind.key (kind.fresh now r) ≡ kind.row_key r
      → find_node kind (kind.row_key r) list ≡ none
      → find_row kind (kind.row_key r) rows ≡ none
      → Absent rows list
      → Absent rows (with_row r list)
  unfolding find_row
  with_row-Absent r [] list k f e a = tt
  with_row-Absent r (x ∷ rows) list k f e a =
      let b = with_row-Absent r rows list k f (ground arith) a.1 in
      ground (arith, find-append kind (kind.row_key x) (kind.fresh now r) list)

module _ {N R Query : Type 0} (kind : Kind N R Query) where
  expire-alive :
      (later : ℕ) (visit list : List N)
      → All (λ n. kind.is_dead later n ≡ false) visit
      → expire kind later visit list ≡ list
  unfolding expire
  expire-alive later [] list a = refl
  expire-alive later (n ∷ visit) list a = rw a.0 (expire-alive later visit list a.1)

  fresh_rows-alive :
      (now later : ℕ) (rows : List R)
      → ((r : R) → kind.is_dead later (kind.fresh now r) ≡ false)
      → All (λ n. kind.is_dead later n ≡ false) (fresh_rows kind now rows)
  unfolding fresh_rows
  fresh_rows-alive now later [] h = tt
  fresh_rows-alive now later (r ∷ rows) h = elim (Bool-cases (kind.accepts r)) [
    | inl e ↦ rw e (h r, fresh_rows-alive now later rows h)
    | inr e ↦ rw e (fresh_rows-alive now later rows h)
  ]

  nothing-Absent : (rows : List R) → All (λ r. find_node kind (kind.row_key r) [] ≡ none) rows
  unfolding find_node
  nothing-Absent [] = tt
  nothing-Absent (r ∷ rows) = (refl, nothing-Absent rows)

module _ {N R Query V Db Exec : Type 0} (kind : Kind N R Query) (now later : ℕ) (view : N → V)
    (row_view : R → V) (law : IsMirror kind now later view row_view)
    (store : RowStore Db Query R Exec) (mem : ℕ → Bool × Bool)
    (has_mem : (id : ℕ) → mem id ≡ (true, true)) (all_rows : List R) (IsGood : Db → Type 0)
    (serves : IsServing store kind all_rows IsGood) where
  sync_rows-fresh_rows :
      (rows : List R) (list : List N) (d : Db)
      → IsGood d
      → All
          (λ r.
            (d : Db) → IsGood d → (store.select (kind.by_key (kind.row_key r)) d).0 ≡ some (r ∷ []))
          rows
      → DistinctRows kind rows
      → Absent kind now rows list
      → (d' : Db) × (sync_rows kind store mem now rows list d
          ≡ some (list ++ fresh_rows kind now rows, d'))
  unfolding sync_rows fresh_rows
  sync_rows-fresh_rows [] list d g ans w a = (d, rw (append-nil list) refl)
  sync_rows-fresh_rows (r ∷ rows) list d g ans w a =
      let (d', e) =
        sync_rows-fresh_rows rows (with_row kind now r list)
          (after_fetch kind now later view row_view law store mem has_mem all_rows IsGood serves
            (kind.row_key r) d)
          (after_fetch-good kind now later view row_view law store mem has_mem all_rows IsGood
            serves (kind.row_key r) d g)
          ans.1 w.1 (with_row-Absent kind now r rows list (law.fresh_key r) a.0 w.0 a.1) in
      (
        d',
        rw
            (sync_row-fresh kind now later view row_view law store mem has_mem all_rows IsGood
              serves r list d g ans.0 a.0)
            (e ∙ ap (λ x. some (x, d')) (with_row-fresh_rows kind now r rows list)),
      )

  -- Where the database serves the rows of a synchronisation, answers the query of the start with
  -- rows too, neither with a key twice, and has the same row for each key in both, and where there is
  -- memory: the loading at the start and a synchronisation of the empty list that the deletion
  -- follows soon enough leave the same node under each key. Each list has a node of each row that is
  -- accepted, in the order of its own query, which need not be the same.
  pub init_table-sync_table :
      (first_listing : Query) (first_rows : List R) (d : Db)
      → ((d : Db) → IsGood d → (store.select first_listing d).0 ≡ some first_rows)
      → IsGood d
      → DistinctRows kind first_rows
      → DistinctRows kind all_rows
      → ((id : ℕ) → find_row kind id first_rows ≡ find_row kind id all_rows)
      → (d₁ d₂ : Db) × (init_table kind first_listing (some store) mem now [] d
          ≡ (true, fresh_rows kind now first_rows, d₁))
        × (sync_table kind (some store) mem now later (λ list. list) [] d
            ≡ some (true, fresh_rows kind now all_rows, d₂))
        × ((id : ℕ)
            → find_node kind id (fresh_rows kind now first_rows)
              ≡ find_node kind id (fresh_rows kind now all_rows))
  unfolding init_table sync_table
  init_table-sync_table first_listing first_rows d firsts g v w same_rows =
      let d₁ = (store.open_session d).1 in
      let g₁ = serves.open_good d g in
      let d₂ = (store.select kind.listing d₁).1 in
      let (d₃, e) =
        sync_rows-fresh_rows all_rows [] d₂ (serves.list_good d₁ g₁) serves.finds w
          (nothing-Absent kind all_rows) in
      let x =
        expire-alive kind later (fresh_rows kind now all_rows) (fresh_rows kind now all_rows)
          (fresh_rows-alive kind now later all_rows law.fresh_alive) in
      (
        store.close (store.select first_listing d₁).1,
        store.close d₃,
        rw (serves.opens d g, firsts d₁ g₁, load_rows-fresh_rows kind now mem first_rows [] has_mem)
            refl,
        rw (serves.opens d g, serves.lists d₁ g₁, e, x) refl,
        λ id.
            find-fresh_rows kind now id first_rows law.fresh_key v
            ∙ ap (node_of_row kind now) (same_rows id)
            ∙ sym (find-fresh_rows kind now id all_rows law.fresh_key w),
      )
