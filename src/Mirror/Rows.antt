-- ===== src/Mirror/Rows.antt =====
-- The loop over the listing, where the database serves it: what is found under each key after it.
use ipstat.Base.{
  ℕ, ◌≡◌, refl, ◌∙◌, Bool, true, Option, none, some, List, [], ◌∷◌, All, ◌==◌, ==_iff,
  if◌then◌else◌, arith,
}
use ipstat.Base.Memory.{bytes_compare}
use ipstat.Store.{RowStore}
use ipstat.Mirror.{Kind, find_node, sync_rows}
use ipstat.Mirror.Find.{Distinct}
use ipstat.Mirror.Law.{IsMirror, IsServing, find_row, DistinctRows, settled, settled_by}
use ipstat.Mirror.Row.{sync_row-settles}

module _ {N R Query V Db Exec : Type 0} (kind : Kind N R Query) (now later : ℕ) (view : N → V)
    (row_view : R → V) (law : IsMirror kind now later view row_view)
    (store : RowStore Db Query R Exec) (mem : ℕ → Bool × Bool)
    (has_mem : (id : ℕ) → mem id ≡ (true, true)) (all_rows : List R) (IsGood : Db → Type 0)
    (serves : IsServing store kind all_rows IsGood) where
  head_settles :
      (r : R) (rows : List R) (id : ℕ) (before after : Option N)
      → find_row kind (kind.row_key r) rows ≡ none
      → after ≡ (if id == kind.row_key r then settled kind now r before else before)
      → settled_by kind now (find_row kind id rows) after
        ≡ settled_by kind now (find_row kind id (r ∷ rows)) before
  unfolding find_row settled_by
  head_settles r rows id before after w e = ground (arith, ==_iff id (kind.row_key r))

  -- The whole loop.
  abbrev pub RowsSettled : List R → List N → Option (List N × Db) → Type 0
  RowsSettled rows list out =
      (list' : List N) × (d' : Db) × (out ≡ some (list', d'))
      × IsGood d'
      × Distinct kind list'
      × ((id : ℕ)
          → find_node kind id list'
            ≡ settled_by kind now (find_row kind id rows) (find_node kind id list))

  pub sync_rows-settles :
      (rows : List R) (list : List N) (d : Db)
      → IsGood d
      → All
          (λ r.
            (d : Db) → IsGood d → (store.select (kind.by_key (kind.row_key r)) d).0 ≡ some (r ∷ []))
          rows
      → DistinctRows kind rows
      → Distinct kind list
      → RowsSettled rows list (sync_rows kind store mem now rows list d)
  unfolding sync_rows find_row settled_by
  sync_rows-settles [] list d g ans w u = (list, d, refl, g, u, λ id. refl)
  sync_rows-settles (r ∷ rows) list d g ans w u =
      let (list', d', e, g', u', s) =
        sync_row-settles kind now later view row_view law store mem has_mem all_rows IsGood serves r
          list d g ans.0 u in
      let (list″, d″, e', g″, u″, s') = sync_rows-settles rows list' d' g' ans.1 w.1 u' in
      (
        list″,
        d″,
        rw e e',
        g″,
        u″,
        λ id.
            s' id
            ∙ head_settles r rows id (find_node kind id list) (find_node kind id list') w.0 (s id),
      )
