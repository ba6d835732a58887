-- ===== src/FuncTime/Drain.antt =====
-- `time_sync` of src/func_time.c against a database that accepts every statement.
use ipstat.Base.{
  ℕ, ◌+◌, ◌≡◌, refl, Bool, true, none, some, List, [], ◌∷◌, arith, Returns, Returns-Ensures,
  Returns-imp, Ensures, Option-cases, inl, inr,
}
use ipstat.Base.Memory.{bytes_compare}
use ipstat.Gtree.{ITree}
use ipstat.Gtree.Entries.{entries}
use ipstat.Gtree.Table.{IsTable}
use ipstat.Gtree.Walk.{walk}
use ipstat.Gtree.Write.{total, same}
use ipstat.Gtree.Traverse.{i_tree_traverse-IsTable}
use ipstat.Store.Log.{IsUp}
use ipstat.FuncTime.{
  TimeStore, TimeTable, count_temp, write_temp, time_export, time_traverse_sync, time_sync,
}
use ipstat.FuncTime.Account.{in_memory, IsTimeTable}
use ipstat.FuncTime.Sync.{IsTempLog, OneRow, Synced, time_sync-Synced}

module _ {Db : Type 0} (store : TimeStore Db) (up : IsUp store) where
  exported : (id : List ℕ) (size : ℕ) (d : Db) → (time_export (some store) true id size d).0 ≡ true
  unfolding time_export write_temp
  exported id size d = elim (Option-cases (store.query (count_temp id) d).0) [
    | inl e ↦ absurd (up.answers (count_temp id) d e)
    | inr (n, e) ↦ rw (e, write_temp) (up.accepts _ _)
  ]

  drained :
      (j : List ℕ) (m : List (List ℕ × ℕ)) (d : Db)
      → total (same j) (walk (time_traverse_sync (some store) (λ k. true)) m d).1 ≡ 0
  unfolding walk time_traverse_sync
  drained j [] d = refl
  drained j ((k, v) ∷ m) d =
      rw (exported k v d) (ground (arith, drained j m (time_export (some store) true k v d).1))

  emptied :
      (t : ITree (List ℕ) ℕ) (d : Db)
      → IsTable t
      → Ensures
          (λ (ok, ag_time, d').
            (ok ≡ true) × Ensures (λ t'. (j : List ℕ) → in_memory j t' ≡ 0) ag_time)
          (time_sync (some store) (λ k. true) (some t) d)
  unfolding time_sync
  emptied t d h =
      let (g, p, q) =
        i_tree_traverse-IsTable (time_traverse_sync (some store) (λ k. true)) t
          (store.open_session d).1 h in
      rw (up.opens d, time_sync)
        (refl, λ j. rw p (drained j (entries t.root) (store.open_session d).1))

  module _ (rows logged : List ℕ → Db → ℕ) (log : IsTempLog store rows logged) where
    -- The memory is empty, and the log has what was there.
    abbrev pub Flushed : ITree (List ℕ) ℕ → Db → Bool × TimeTable × Db → Type 0
    Flushed t d (ok, none, d') = ⊥
    Flushed t d (ok, some t', d') =
        (ok ≡ true)
        × ((j : List ℕ) → (in_memory j t' ≡ 0) × (logged j d' ≡ logged j d + in_memory j t))

    flushed :
        (t : ITree (List ℕ) ℕ) (d : Db) (r : Bool × TimeTable × Db)
        → Synced store rows logged log t d r
        → (r.0 ≡ true) × Ensures (λ t'. (j : List ℕ) → in_memory j t' ≡ 0) r.1
        → Flushed t d r
    flushed t d (ok, none, d') s e = s
    flushed t d (ok, some t', d') s e = (e.0, λ j. (e.1 j, omega (arith, s.2 j, e.1 j)))

    -- When the database accepts every statement and memory is there, `time_sync` on a valid table and
    -- a log with at most one row for each user
    -- returns TRUE, leaves nothing in memory for any user, and adds to the log of each user exactly
    -- what memory held.
    pub time_sync-Flushed :
        (t : ITree (List ℕ) ℕ) (d : Db)
        → IsTimeTable t
        → OneRow store rows logged log d
        → Returns (Flushed t d) (time_sync (some store) (λ k. true) (some t) d)
    time_sync-Flushed t d h s =
        Returns-imp _ (Flushed t d) _ (λ r (a, b). flushed t d r a b)
          (Returns-Ensures (Synced store rows logged log t d) _ _
            (time_sync-Synced store rows logged log (λ k. true) t d h s) (emptied t d h.table))
