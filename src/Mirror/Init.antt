-- ===== src/Mirror/Init.antt =====
-- The loading of a list when a plugin starts.
use ipstat.Base.{Bool, true, false, not, ℕ, Option, none, some, List, [], ◌∷◌, ◌++◌, if◌then◌else◌}
use ipstat.Store.{RowStore}
use ipstat.Mirror.{Kind}

module _ {N R Query : Type 0} (kind : Kind N R Query) (mem : ℕ → Bool × Bool) (now : ℕ) where
  -- The loop: a row that finds no memory for its node, or is not accepted, is skipped.
  unfoldable pub load_rows : List R → List N → List N
  load_rows [] list = list
  load_rows (r ∷ rows) list =
      let (mem_node, mem_cell) = mem (kind.row_key r) in
      load_rows rows (
        if mem_node
        then (if kind.accepts r
            then (if mem_cell then list ++ (kind.fresh now r ∷ []) else [])
            else list)
        else list)

module _ {N R Query : Type 0} (kind : Kind N R Query) {Db Exec : Type 0} where
  -- The query has the columns of a node, and in two of the lists an order; it is not that of the
  -- synchronisation.
  unfoldable pub init_table :
      Query
      → Option (RowStore Db Query R Exec)
      → (mem : ℕ → Bool × Bool) → (now : ℕ) → List N
      → Db
      → Bool × List N × Db
  init_table first_listing none mem now list d = (false, list, d)
  init_table first_listing (some store) mem now list d =
      let (opened, d₁) = store.open_session d in
      let (answer, d₂) = store.select first_listing d₁ in
      if not opened then (false, list, d₁) else elim answer [
        | none ↦ (false, list, store.close d₂)
        | some rows ↦ (true, load_rows kind mem now rows list, store.close d₂)
      ]
