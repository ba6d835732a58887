-- ===== src/Mirror.antt =====
-- The plugins keep lists in memory that mirror tables of the database: the users, groups and
-- intervals of src/ipstat_system_time_policy, the users and patterns of src/ipstat_url_policy.c, the
-- limits of the two group limit plugins. Each has its own copy of the same functions; the copies
-- differ in the node, the row and the statements, which are a `Kind` here.
pub mod Find
pub mod Law
pub mod Settle
pub mod Row
pub mod Rows
pub mod Expire
pub mod Mirrors
pub mod Shows
pub mod Init
pub mod First
use ipstat.Base.{
  ℕ, Bool, true, false, not, Option, none, some, List, [], ◌∷◌, ◌++◌, ◌==◌, if◌then◌else◌, ◌>>=◌,
}
use ipstat.Base.Memory.{bytes_compare}
use ipstat.Gtree.Write.{same}
use ipstat.Store.{RowStore}

-- A kind of list. The numbers are times. `found` is what happens to a node that a row of the
-- database names, before the fingerprints are compared, and `kept` what happens to it after;
-- `fresh` makes a node of a row, `renew` overwrites one; `accepts` is false for a row whose regular
-- expression does not compile, which is freed again instead of inserted; `is_dead` says which nodes
-- the walk at the end deletes.
pub record Kind (N R Query : Type 0) : Type 0 where
  pub key : N → ℕ
  pub md5 : N → List ℕ
  pub row_key : R → ℕ
  pub row_md5 : R → List ℕ
  pub accepts : R → Bool
  pub fresh : ℕ → R → N
  pub renew : ℕ → R → N → N
  pub found : ℕ → N → N
  pub kept : ℕ → N → N
  pub is_dead : ℕ → N → Bool
  pub listing : Query
  pub by_key : ℕ → Query

module _ {N R Query : Type 0} (kind : Kind N R Query) where
  -- `g_list_find_custom` with the comparison of keys.
  unfoldable pub find_node : ℕ → List N → Option N
  find_node id [] = none
  find_node id (n ∷ list) = if kind.key n == id then some n else find_node id list

  -- A write through the pointer that the search returns.
  unfoldable pub write_node : ℕ → (N → N) → List N → List N
  write_node id f [] = []
  write_node id f (n ∷ list) = if kind.key n == id then f n ∷ list else n ∷ write_node id f list

  -- `g_list_remove` of the node that the search returns.
  unfoldable pub delete_node : ℕ → List N → List N
  delete_node id [] = []
  delete_node id (n ∷ list) = if kind.key n == id then list else n ∷ delete_node id list

  -- The end of an insertion. `mem_node` and `mem_cell` say whether there is memory for the node and
  -- for the list's cell; without the cell `g_list_append` returns null and the list is lost. `none`
  -- is a fault: there is no row.
  unfoldable pub append_row :
      (mem_node mem_cell : Bool) → ℕ → List R → List N → Option (Bool × List N)
  append_row false mem_cell now rows list = some (false, list)
  append_row true mem_cell now [] list = none
  append_row true mem_cell now (r ∷ rows) list =
      (if kind.accepts r
        then some (true, (if mem_cell then list ++ (kind.fresh now r ∷ []) else []))
        else some (false, list))

  -- The end of an update.
  unfoldable pub renew_row : ℕ → ℕ → List R → List N → Option (Bool × List N)
  renew_row now id [] list = none
  renew_row now id (r ∷ rows) list = some (kind.accepts r, write_node id (kind.renew now r) list)

  module _ {Db Exec : Type 0} (store : RowStore Db Query R Exec) (mem : ℕ → Bool × Bool)
      (now : ℕ) where
    -- What is done with the row of a key: nothing where no session opens or the query is refused.
    unfoldable pub fetch :
        ℕ → (List R → List N → Option (Bool × List N)) → List N → Db → Option (Bool × List N × Db)
    fetch id finish list d =
        let (opened, d₁) = store.open_session d in
        let (answer, d₂) = store.select (kind.by_key id) d₁ in
        if not opened then some (false, list, d₁) else elim answer [
          | none ↦ some (false, list, store.close d₂)
          | some rows ↦ do (ok, list') ← finish rows list; some (ok, list', store.close d₂)
        ]

    unfoldable pub insert_node : ℕ → List N → Db → Option (Bool × List N × Db)
    insert_node id list d = fetch id (append_row (mem id).0 (mem id).1 now) list d

    unfoldable pub update_node : ℕ → List N → Db → Option (Bool × List N × Db)
    update_node id list d = elim (find_node id list) [
      | none ↦ some (false, list, d)
      | some n ↦ fetch id (renew_row now id) list d
    ]

    -- One row of the listing.
    unfoldable pub sync_row : R → List N → Db → Option (List N × Db)
    sync_row r list d = elim (find_node (kind.row_key r) list) [
      | none ↦ do (_, list', d') ← insert_node (kind.row_key r) list d; some (list', d')
      | some n ↦ do
        let list₁ = write_node (kind.row_key r) (kind.found now) list
        (_, list₂, d₂) ←
            (if same (kind.md5 n) (kind.row_md5 r)
              then some (true, list₁, d)
              else update_node (kind.row_key r) list₁ d)
        some (write_node (kind.row_key r) (kind.kept now) list₂, d₂)
    ]

    unfoldable pub sync_rows : List R → List N → Db → Option (List N × Db)
    sync_rows [] list d = some (list, d)
    sync_rows (r ∷ rows) list d = do (list', d') ← sync_row r list d; sync_rows rows list' d'

  -- The walk over the nodes (the first list) that deletes the dead ones from the list.
  unfoldable pub expire : ℕ → List N → List N → List N
  expire later [] list = list
  expire later (n ∷ visit) list =
      expire later visit (if kind.is_dead later n then delete_node (kind.key n) list else list)

  -- The whole: `mark` is done to the list once the query is answered.
  unfoldable pub sync_table :
      {Db Exec : Type 0}
      → Option (RowStore Db Query R Exec)
      → (mem : ℕ → Bool × Bool) → (now later : ℕ) → (mark : List N → List N) → List N
      → Db
      → Option (Bool × List N × Db)
  sync_table none mem now later mark list d = some (false, list, d)
  sync_table (some store) mem now later mark list d =
      let (opened, d₁) = store.open_session d in
      let (answer, d₂) = store.select kind.listing d₁ in
      if not opened then some (true, list, d₁) else elim answer [
        | none ↦ some (false, list, store.close d₂)
        | some rows ↦ do
          (list', d₃) ← sync_rows store mem now rows (mark list) d₂
          some (true, expire later list' list', store.close d₃)
      ]
