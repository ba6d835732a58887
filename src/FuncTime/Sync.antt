-- ===== src/FuncTime/Sync.antt =====
-- `time_sync` of src/func_time.c: what leaves the memory is in the log, and what is not in the log
-- stays in the memory.

use ipstat.Base.{
  ℕ, ◌+◌, ◌%◌, ◌^◌, ◌<◌, ◌≡◌, refl, ◌∙◌, Bool, true, false, Option, none, some, List, [], ◌∷◌, ◌==◌,
  if◌then◌else◌, arith, Returns, All, Bool-cases, inl, inr, Ensures,
}
use ipstat.Base.Memory.{bytes_compare}
use ipstat.Gtree.{ITree}
use ipstat.Gtree.Entries.{entries}
use ipstat.Gtree.Walk.{walk}
use ipstat.Gtree.Write.{total, same}
use ipstat.Gtree.Traverse.{i_tree_traverse-IsTable}
use ipstat.Store.Log.{IsLog, Single, Exported, written, query-Exported, query-Single}
use ipstat.FuncTime.{
  TimeStore, TimeTable, count_temp, update_temp, insert_temp, write_temp, time_export,
  time_traverse_sync, time_sync,
}
use ipstat.FuncTime.Account.{in_memory, IsTimeTable}

-- The table Log_Temp in the database server.
abbrev pub IsTempLog : {Db : Type 0} → TimeStore Db → (rows logged : List ℕ → Db → ℕ) → Type 0
IsTempLog store rows logged =
    IsLog store count_temp (λ size id. insert_temp id size) update_temp rows logged

module _ {Db : Type 0} (store : TimeStore Db) (rows logged : List ℕ → Db → ℕ)
    (log : IsTempLog store rows logged) where
  abbrev pub OneRow : Db → Type 0
  OneRow = Single store count_temp (λ size id. insert_temp id size) update_temp rows logged log

  abbrev Sent : List ℕ → ℕ → Db → Bool × Db → Type 0
  Sent = Exported store count_temp (λ size id. insert_temp id size) update_temp rows logged log

  sent :
      (id : List ℕ) (size : ℕ) (answer : Option ℕ) (d : Db)
      → OneRow d
      → Ensures (λ n. n ≡ rows id d) answer
      → Sent id size d (write_temp store id size answer d)
  unfolding write_temp
  sent id size none d s e = (s, λ j. omega arith)
  sent id size (some n) d s e =
      written store count_temp _ update_temp rows logged log (n % 256 == 0) id size d s
        (λ z. ground (arith, s id)) (λ z. ground (arith, s id))

  -- An export that succeeds adds the size to the log of the user, one that fails adds nothing.
  time_export-Sent :
      (mem : Bool) (id : List ℕ) (size : ℕ) (d : Db)
      → OneRow d
      → Sent id size d (time_export (some store) mem id size d)
  unfolding time_export
  time_export-Sent false id size d s = (s, λ j. omega arith)
  time_export-Sent true id size d s =
      let (answer, d₁) = store.query (count_temp id) d in
      query-Exported store count_temp _ update_temp rows logged log id size d
        (write_temp store id size answer d₁)
        (sent id size answer d₁ (query-Single store count_temp _ update_temp rows logged log id d s)
          (rw (log.rows-query id id d) (log.answer-query id d)))

  -- What the two together hold for a user.
  abbrev together : List ℕ → List (List ℕ × ℕ) → Db → ℕ
  together j m d = total (same j) m + logged j d

  abbrev Narrow : List (List ℕ × ℕ) → Type 0
  Narrow = All (λ e. e.1 < 2 ^ 32)

  abbrev Kept : List (List ℕ × ℕ) → Db → Bool × List (List ℕ × ℕ) × Db → Type 0
  Kept m d (stop, m', d') =
      OneRow d' × Narrow m' × ((j : List ℕ) → together j m' d' ≡ together j m d)

  module _ (mem : List ℕ → Bool) where
    moved :
        (id : List ℕ) (size : ℕ) (d : Db)
        → OneRow d
        → size < 2 ^ 32
        → let (stop, size', d') = time_traverse_sync (some store) mem id size d in
          (stop ≡ false)
          × OneRow d'
          × (size' < 2 ^ 32)
          × ((j : List ℕ)
              → (if same j id then size' else 0) + logged j d'
                ≡ (if same j id then size else 0) + logged j d)
    unfolding time_traverse_sync
    moved id size d s b =
        let (s', l) = time_export-Sent (mem id) id size d s in
        (refl, s', ground arith, λ j. ground (arith, l j))

    walk-Kept :
        (m : List (List ℕ × ℕ)) (d : Db)
        → OneRow d
        → Narrow m
        → Kept m d (walk (time_traverse_sync (some store) mem) m d)
    unfolding walk
    walk-Kept [] d s n = (s, tt, λ j. refl)
    walk-Kept ((k, v) ∷ m) d s n =
        let (e, s₁, b, l) = moved k v d s n.0 in
        let (s₂, n₂, r) = walk-Kept m (time_traverse_sync (some store) mem k v d).2 s₁ n.1 in
        rw e (s₂, (b, n₂), λ j. omega (arith, l j, r j))

  -- The outcome of `time_sync`.
  abbrev pub Synced : ITree (List ℕ) ℕ → Db → Bool × TimeTable × Db → Type 0
  Synced t d (ok, none, d') = ⊥
  Synced t d (ok, some t', d') =
      IsTimeTable t'
      × OneRow d'
      × ((j : List ℕ) → in_memory j t' + logged j d' ≡ in_memory j t + logged j d)

  -- Whatever statements the database refuses and whatever allocations fail, `time_sync` on a valid
  -- table ends; it keeps the table valid and the log at no more than one row for each user, as it was
  -- before, and the traffic of each user in
  -- memory and in the log together stays what it was.
  pub time_sync-Synced :
      (mem : List ℕ → Bool) (t : ITree (List ℕ) ℕ) (d : Db)
      → IsTimeTable t
      → OneRow d
      → Returns (Synced t d) (time_sync (some store) mem (some t) d)
  unfolding time_sync
  time_sync-Synced mem t d h s = elim (Bool-cases (store.open_session d).0) [
    | inr e ↦ rw (e, time_sync) (h, opened s, λ j. rw (log.logged-open j d) refl)
    | inl e ↦
        let (g, p, q) =
          i_tree_traverse-IsTable (time_traverse_sync (some store) mem) t (store.open_session d).1
            h.table in
        let (s', n, l) =
          walk-Kept mem (entries t.root) (store.open_session d).1 (opened s) h.narrow in
        rw (e, time_sync)
          (
            record { table = g; narrow = rw p n },
            λ j. rw (log.rows-close j _, q) (s' j),
            λ j. rw (log.logged-close j _, p, q) (l j ∙ rw (log.logged-open j d) refl),
          )
  ]
    where
      opened : OneRow d → OneRow (store.open_session d).1
      opened s j = rw (log.rows-open j d) (s j)
