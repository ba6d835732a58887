-- ===== src/FuncTime/Examples.antt =====
-- src/func_time.c against a small database, with statements that are refused.
use ipstat.Base.{
  ℕ, ◌+◌, ◌≤◌, ◌≡◌, refl, true, false, some, List, [], ◌∷◌, if◌then◌else◌, arith, Returns,
}
use ipstat.Base.Int.{pos}
use ipstat.Base.Memory.{bytes_compare, memcmp}
use ipstat.Gtree.{ITree, null, node, i_tree_lookup, i_tree_insert, i_tree_traverse}
use ipstat.Gtree.Write.{same}
use ipstat.FuncTime.{
  TempQuery, TempExec, count_temp, update_temp, insert_temp, TimeStore, time_acct, time_sync,
  time_traverse_sync, time_export,
}
use ipstat.FuncTime.Account.{IsTimeTable, Counted, time_acct-Counted}
use ipstat.FuncTime.Sync.{IsTempLog, Synced, time_sync-Synced}
use ipstat.Store.Small.{
  Db, Change, insert_row, update_row, no_change, small_store, calm_store, calm_store-IsUp,
  small_store-IsLog, calm_store-IsLog,
}
use ipstat.FuncTime.Drain.{Flushed, time_sync-Flushed}
use ipstat.FuncTime.Trace.{start, accounted, synced, Conserved, Reaches-Conserved}

abbrev asked : TempQuery → List ℕ
asked (count_temp id) = id

abbrev change : TempExec → Change
change (insert_temp id size) = insert_row size id
change (update_temp size id) = update_row size id
change _ = no_change

abbrev refusing : TimeStore Db
refusing = small_store asked change

abbrev calm : TimeStore Db
calm = calm_store asked change

refusing-IsTempLog : IsTempLog refusing (λ j d. d.rows j) (λ j d. d.sums j)
refusing-IsTempLog =
    small_store-IsLog asked change count_temp (λ size id. insert_temp id size) update_temp
      (λ id. refl) (λ s id. refl) (λ s id. refl)

calm-IsTempLog : IsTempLog calm (λ j d. d.rows j) (λ j d. d.sums j)
calm-IsTempLog =
    calm_store-IsLog asked change count_temp (λ size id. insert_temp id size) update_temp
      (λ id. refl) (λ s id. refl) (λ s id. refl)

-- Two users, the second with a row in the log; the first statement for the second user is refused.
abbrev one : List ℕ
one = 1 ∷ 0 ∷ 0 ∷ 0 ∷ []

abbrev two : List ℕ
two = 2 ∷ 0 ∷ 0 ∷ 0 ∷ []

abbrev at_start : Db
at_start = record {
  refusals = false ∷ false ∷ false ∷ true ∷ [];
  rows = λ j. if same j two then 1 else 0;
  sums = λ j. if same j two then 1000 else 0;
}

abbrev empty : ITree (List ℕ) ℕ
empty = record { root = null }

empty-IsTimeTable : IsTimeTable empty
empty-IsTimeTable = record { table = record { balanced = tt; ascending = tt }; narrow = tt }

time_acct-Counted_example :
    Returns (Counted empty one 60) (time_acct true true true (some empty) one 60)
time_acct-Counted_example = time_acct-Counted true true empty one 60 empty-IsTimeTable (omega arith)

-- The table after 60 bytes of the first user and 40 of the second, and after the export.
abbrev both : ℕ → ITree (List ℕ) ℕ
both sum = record { root = node (pos 1) one sum null (node (pos 0) two 40 null null) }

both-IsTimeTable : IsTimeTable (both 60)
unfolding bytes_compare memcmp
both-IsTimeTable = record {
  table = record { balanced = omega arith; ascending = ground arith };
  narrow = omega arith;
}

abbrev alone : ITree (List ℕ) ℕ
alone = record { root = node (pos 0) one 60 null null }

abbrev exported : Db
exported = record {
  refusals = [];
  rows = λ j. at_start.rows j + (if same j one then 1 else 0);
  sums = λ j. at_start.sums j + (if same j one then 60 else 0);
}

at_start-Single : (j : List ℕ) → at_start.rows j ≤ 1
at_start-Single j = ground arith

time_sync-Synced_example :
    Returns
      (Synced refusing _ _ refusing-IsTempLog (both 60) at_start)
      (time_sync (some refusing) (λ j. true) (some (both 60)) at_start)
time_sync-Synced_example =
    time_sync-Synced refusing _ _ refusing-IsTempLog (λ j. true) (both 60) at_start both-IsTimeTable
      at_start-Single

first_packet : time_acct true true true (some empty) one 60 ≡ some (true, some alone)
unfolding time_acct i_tree_lookup i_tree_insert bytes_compare memcmp
first_packet = refl

second_packet : time_acct true true true (some alone) two 40 ≡ some (true, some (both 60))
unfolding time_acct i_tree_lookup i_tree_insert bytes_compare memcmp
second_packet = refl

partial_export :
    time_sync (some refusing) (λ j. true) (some (both 60)) at_start
    ≡ some (true, some (both 0), exported)
unfolding time_sync i_tree_traverse time_traverse_sync time_export bytes_compare memcmp
partial_export = refl

Reaches-Conserved_example :
    Conserved refusing at_start _ _ refusing-IsTempLog
      ((two, 40) ∷ ((one, 60) ∷ []))
      (some (both 0))
      exported
Reaches-Conserved_example =
    Reaches-Conserved refusing at_start _ _ refusing-IsTempLog
      (synced (λ j. true) true
        (accounted true true two 40 (accounted true true one 60 start (omega arith) first_packet)
          (omega arith) second_packet)
        partial_export)
      at_start-Single

time_sync-Flushed_example :
    Returns
      (Flushed calm (calm_store-IsUp asked change) _ _ calm-IsTempLog (both 60) at_start)
      (time_sync (some calm) (λ j. true) (some (both 60)) at_start)
time_sync-Flushed_example =
    time_sync-Flushed calm (calm_store-IsUp asked change) _ _ calm-IsTempLog (both 60) at_start
      both-IsTimeTable at_start-Single
