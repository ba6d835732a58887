-- ===== src/Mirror/Mirrors.antt =====
-- The whole synchronisation.
use ipstat.Base.{ℕ, ◌≡◌, refl, ap, ◌∙◌, Bool, true, Option, none, some, List, Bool-cases, inl, inr}
use ipstat.Base.Memory.{bytes_compare}
use ipstat.Gtree.Write.{same}
use ipstat.Store.{RowStore}
use ipstat.Mirror.{Kind, find_node, expire, sync_table}
use ipstat.Mirror.Find.{through, Distinct}
use ipstat.Mirror.Law.{IsMirror, IsServing, find_row, DistinctRows, settled, settled_by}
use ipstat.Mirror.Rows.{sync_rows-settles}
use ipstat.Mirror.Shows.{shows, ShowsAll}
use ipstat.Mirror.Expire.{survivor, expire-survivor, expire-Distinct}

module _ {N R Query V Db Exec : Type 0} (kind : Kind N R Query) (now later : ℕ) (view : N → V)
    (row_view : R → V) (law : IsMirror kind now later view row_view)
    (store : RowStore Db Query R Exec) (mem : ℕ → Bool × Bool)
    (has_mem : (id : ℕ) → mem id ≡ (true, true)) (all_rows : List R) (IsGood : Db → Type 0)
    (serves : IsServing store kind all_rows IsGood) where
  -- The synchronised list.
  abbrev Mirrored : List N → Option (Bool × List N × Db) → Type 0
  Mirrored list out =
      (list' : List N) × (d' : Db) × (out ≡ some (true, list', d'))
      × IsGood d'
      × Distinct kind list'
      × ((id : ℕ)
          → find_node kind id list'
            ≡ survivor kind later
                (settled_by kind now (find_row kind id all_rows) (find_node kind id list)))

  sync_table-settles :
      (mark : List N → List N) (list : List N) (d : Db)
      → IsGood d
      → DistinctRows kind all_rows
      → Distinct kind (mark list)
      → Mirrored (mark list) (sync_table kind (some store) mem now later mark list d)
  unfolding sync_table
  sync_table-settles mark list d g w u =
      let d₁ = (store.open_session d).1 in
      let g₁ = serves.open_good d g in
      let d₂ = (store.select kind.listing d₁).1 in
      let (list', d₃, e, g₃, u', s) =
        sync_rows-settles kind now later view row_view law store mem has_mem all_rows IsGood serves
          all_rows (mark list) d₂ (serves.list_good d₁ g₁) serves.finds w u in
      (
        expire kind later list' list',
        store.close d₃,
        rw (serves.opens d g, serves.lists d₁ g₁, e) refl,
        serves.close_good d₃ g₃,
        expire-Distinct kind later list' list' u',
        λ id. expire-survivor kind later list' id u' ∙ ap (survivor kind later) (s id),
      )

  settled-shows :
      (row : Option R) (o : Option N)
      → ((r : R) → row ≡ some r → kind.accepts r ≡ true)
      → ((r : R) (n : N)
          → row ≡ some r
          → o ≡ some n
          → same (kind.md5 n) (kind.row_md5 r) ≡ true
          → view n ≡ row_view r)
      → through view (survivor kind later (settled_by kind now row o))
        ≡ shows kind later view row_view row o
  unfolding survivor settled_by settled shows
  settled-shows none o a m = refl
  settled-shows (some r) none a m = rw (a r refl, law.fresh_alive r, law.fresh_view r) refl
  settled-shows (some r) (some n) a m = elim (Bool-cases (same (kind.md5 n) (kind.row_md5 r))) [
    | inl e ↦
        rw
          (
            e,
            law.found_alive n,
            law.kept_view (kind.found now n),
            law.found_view n,
            m r n refl refl e,
          )
          refl
    | inr e ↦
        rw
          (
            e,
            law.renew_alive r n,
            law.kept_view (kind.renew now r (kind.found now n)),
            law.renew_view r (kind.found now n),
          )
          refl
  ]

  -- Where the database serves the rows, with no key twice and each accepted, where there is memory,
  -- where the marked list has no key twice and a node with the fingerprint of its row has the row's
  -- content, the synchronisation succeeds. Then no key is twice in the list; the node under the key of
  -- a row has the row's content; and under any other key there is what there was, unless it expired.
  pub sync_table-Shows :
      (mark : List N → List N) (list : List N) (d : Db)
      → IsGood d
      → DistinctRows kind all_rows
      → Distinct kind (mark list)
      → ((id : ℕ) (r : R) → find_row kind id all_rows ≡ some r → kind.accepts r ≡ true)
      → ((id : ℕ) (r : R) (n : N)
          → find_row kind id all_rows ≡ some r
          → find_node kind id (mark list) ≡ some n
          → same (kind.md5 n) (kind.row_md5 r) ≡ true
          → view n ≡ row_view r)
      → (list' : List N) × (d' : Db) × (sync_table kind (some store) mem now later mark list d
          ≡ some (true, list', d'))
        × IsGood d'
        × ShowsAll kind later view row_view all_rows (mark list) list'
  sync_table-Shows mark list d g w u a m =
      let (list', d', e, g', u', s) = sync_table-settles mark list d g w u in
      (
        list',
        d',
        e,
        g',
        (
          u',
          λ id.
              ap (through view) (s id)
              ∙ settled-shows (find_row kind id all_rows) (find_node kind id (mark list)) (a id)
                  (m id),
        ),
      )
