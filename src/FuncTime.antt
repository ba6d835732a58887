-- ===== src/FuncTime.antt =====
-- src/func_time.c: the traffic of each user since the last export, summed in a tree in memory, and
-- the export of the sums into the table Log_Temp. An `IP_id` is the block of bytes that the tree
-- compares and the statements print.
mod Account
mod Sync
mod Trace
mod Drain
mod Examples
use ipstat.Base.{
  ℕ, zero, ◌-◌, ◌%◌, Bool, true, false, not, Option, none, some, List, ◌==◌, if◌then◌else◌, ◌>>=◌,
}
use ipstat.Base.Int.{add32}
use ipstat.Base.Memory.{bytes_compare}
use ipstat.Gtree.{
  ITree, i_tree_new, i_tree_lookup, i_tree_insert, i_tree_traverse, in_order, node_write,
}
use ipstat.Store.{StoreApi}

-- The statements that the file builds by `sprintf`.
pub data TempQuery : Type 0 where
  count_temp : List ℕ → TempQuery

pub data TempExec : Type 0 where
  update_temp : ℕ → List ℕ → TempExec
  insert_temp : List ℕ → ℕ → TempExec
  set_autocommit start_transaction insert_time zero_temp commit rollback : TempExec

-- The table `ag_time`, null before `time_init` and after `time_free`.
abbrev pub TimeTable : Type 0
TimeTable = Option (ITree (List ℕ) ℕ)

-- `mem_key`, `mem_value` and `mem_node` say which allocations succeed.
unfoldable pub time_acct :
    (mem_key mem_value mem_node : Bool) → TimeTable → List ℕ → ℕ → Option (Bool × TimeTable)
time_acct mem_key mem_value mem_node none id_user len = some (false, none)
time_acct mem_key mem_value mem_node (some t) id_user len = elim (i_tree_lookup t id_user) [
  | some val ↦ some (true, some (record { root = node_write t.root id_user (add32 val len) }))
  | none ↦
      if not mem_key
      then some (false, some t)
      else if not mem_value
      then some (false, some t)
      else (do (t', _) ← i_tree_insert mem_node t id_user len; some (true, some t'))
]

abbrev pub TimeStore : Type 0 → Type 0
TimeStore Db = StoreApi Db TempQuery TempExec

module _ {Db : Type 0} where
  -- `time_export` after the query: `none` is the jump to `error`. `flag_tmp` has eight bits.
  unfoldable pub write_temp : TimeStore Db → List ℕ → ℕ → Option ℕ → Db → Bool × Db
  write_temp store id_user size none d = (false, d)
  write_temp store id_user size (some n) d =
      store.exec (if n % 256 == 0 then insert_temp id_user size else update_temp size id_user) d

  -- Whether the record reached the log.
  unfoldable pub time_export : Option (TimeStore Db) → Bool → List ℕ → ℕ → Db → Bool × Db
  unfolding write_temp
  time_export none mem id_user size d = (false, d)
  time_export (some store) false id_user size d = (false, d)
  time_export (some store) true id_user size d =
      let (answer, d₁) = store.query (count_temp id_user) d in
      write_temp store id_user size answer d₁

  -- The callback: the sum is taken out of memory, and put back when the export fails.
  unfoldable pub time_traverse_sync :
      Option (TimeStore Db) → (List ℕ → Bool) → List ℕ → ℕ → Db → Bool × ℕ × Db
  time_traverse_sync api mem id_user size d =
      let rest = size - size in
      let (ok, d') = time_export api (mem id_user) id_user size d in
      (false, (if ok then rest else add32 rest size), d')

  -- `none` is the walk over a null table.
  unfoldable pub time_sync :
      Option (TimeStore Db) → (List ℕ → Bool) → TimeTable → Db → Option (Bool × TimeTable × Db)
  time_sync none mem ag_time d = some (false, ag_time, d)
  time_sync (some store) mem ag_time d =
      let (opened, d₁) = store.open_session d in
      if opened
      then (do
        t ← ag_time
        let (t', d₂) = i_tree_traverse (time_traverse_sync (some store) mem) in_order t d₁
        some (true, some t', store.close d₂))
      else some (true, ag_time, d₁)

  -- What is still in the table after the last export is freed with it.
  unfoldable pub time_free :
      Option (TimeStore Db) → (List ℕ → Bool) → TimeTable → Db → Option (Bool × TimeTable × Db)
  time_free api mem none d = some (false, none, d)
  time_free api mem (some t) d = do (_, _, d') ← time_sync api mem (some t) d; some (true, none, d')

  -- The label `error` of `time_group`.
  unfoldable pub give_up : TimeStore Db → Db → Bool × Db
  give_up store d = (false, store.close (store.exec rollback d).1)

  -- The sums of Log_Temp become rows of Log_Time in one transaction.
  unfoldable pub time_group : Option (TimeStore Db) → Db → Bool × Db
  time_group none d = (false, d)
  time_group (some store) d =
      let (opened, d₁) = store.open_session d in
      let (a, d₂) = store.exec set_autocommit d₁ in
      let (b, d₃) = store.exec start_transaction d₂ in
      let (c, d₄) = store.exec insert_time d₃ in
      let (e, d₅) = store.exec zero_temp d₄ in
      let (f, d₆) = store.exec commit d₅ in
      if not opened
      then (true, d₁)
      else if not a
      then give_up store d₂
      else if not b
      then give_up store d₃
      else if not c
      then give_up store d₄
      else if not e
      then give_up store d₅
      else if not f
      then give_up store d₆
      else (true, store.close d₆)
