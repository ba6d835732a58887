-- ===== src/Mirror/Row.antt =====
-- One row of the listing, where the database serves it.
use ipstat.Base.{
  ℕ, ◌≡◌, refl, Bool, true, false, Option, none, some, List, [], ◌∷◌, ◌++◌, ◌==◌, if◌then◌else◌,
  Bool-cases, Option-cases, inl, inr,
}
use ipstat.Base.Memory.{bytes_compare}
use ipstat.Gtree.Write.{same}
use ipstat.Store.{RowStore}
use ipstat.Mirror.{
  Kind, find_node, write_node, append_row, renew_row, fetch, insert_node, update_node, sync_row,
}
use ipstat.Mirror.Find.{Distinct, append-Distinct}
use ipstat.Mirror.Law.{IsMirror, IsServing, settled}
use ipstat.Mirror.Settle.{
  find-found, fresh_settles, refused_settles, known_list, known-Distinct, known_settles,
}

module _ {N R Query V Db Exec : Type 0} (kind : Kind N R Query) (now later : ℕ) (view : N → V)
    (row_view : R → V) (law : IsMirror kind now later view row_view)
    (store : RowStore Db Query R Exec) (mem : ℕ → Bool × Bool)
    (has_mem : (id : ℕ) → mem id ≡ (true, true)) (all_rows : List R) (IsGood : Db → Type 0)
    (serves : IsServing store kind all_rows IsGood) where
  -- The state that reading a key leaves.
  abbrev pub after_fetch : ℕ → Db → Db
  after_fetch id d = store.close (store.select (kind.by_key id) (store.open_session d).1).1

  pub after_fetch-good : (id : ℕ) (d : Db) → IsGood d → IsGood (after_fetch id d)
  after_fetch-good id d g = serves.close_good _ (serves.find_good id _ (serves.open_good d g))

  fetch_served :
      (r : R) (finish : List R → List N → Option (Bool × List N)) (list : List N) (d : Db)
      → IsGood d
      → ((d : Db) → IsGood d → (store.select (kind.by_key (kind.row_key r)) d).0 ≡ some (r ∷ []))
      → (ok : Bool) (list' : List N) → finish (r ∷ []) list ≡ some (ok, list')
      → fetch kind store mem now (kind.row_key r) finish list d
        ≡ some (ok, list', after_fetch (kind.row_key r) d)
  unfolding fetch
  fetch_served r finish list d g ans ok list' e =
      rw (serves.opens d g, ans (store.open_session d).1 (serves.open_good d g), e) refl

  append-yes :
      (r : R) (list : List N)
      → kind.accepts r ≡ true
      → append_row kind (mem (kind.row_key r)).0 (mem (kind.row_key r)).1 now (r ∷ []) list
        ≡ some (true, list ++ (kind.fresh now r ∷ []))
  unfolding append_row
  append-yes r list a = rw (has_mem (kind.row_key r), append_row, a) refl

  append-no :
      (r : R) (list : List N)
      → kind.accepts r ≡ false
      → append_row kind (mem (kind.row_key r)).0 (mem (kind.row_key r)).1 now (r ∷ []) list
        ≡ some (false, list)
  unfolding append_row
  append-no r list a = rw (has_mem (kind.row_key r), append_row, a) refl

  update_served :
      (r : R) (n : N) (list : List N) (d : Db)
      → IsGood d
      → ((d : Db) → IsGood d → (store.select (kind.by_key (kind.row_key r)) d).0 ≡ some (r ∷ []))
      → find_node kind (kind.row_key r) list ≡ some n
      → update_node kind store mem now (kind.row_key r) list d
        ≡ some (
          kind.accepts r,
          write_node kind (kind.row_key r) (kind.renew now r) list,
          after_fetch (kind.row_key r) d,
        )
  unfolding update_node renew_row
  update_served r n list d g ans e =
      let h =
        fetch_served r (renew_row kind now (kind.row_key r)) list d g ans (kind.accepts r)
          (write_node kind (kind.row_key r) (kind.renew now r) list) refl in
      rw (e, update_node, h) refl

  pub sync_row-fresh :
      (r : R) (list : List N) (d : Db)
      → IsGood d
      → ((d : Db) → IsGood d → (store.select (kind.by_key (kind.row_key r)) d).0 ≡ some (r ∷ []))
      → find_node kind (kind.row_key r) list ≡ none
      → sync_row kind store mem now r list d
        ≡ some (
          (if kind.accepts r then list ++ (kind.fresh now r ∷ []) else list),
          after_fetch (kind.row_key r) d,
        )
  unfolding sync_row insert_node
  sync_row-fresh r list d g ans e =
      let h =
        fetch_served r (append_row kind (mem (kind.row_key r)).0 (mem (kind.row_key r)).1 now) list
          d g ans in
      elim (Bool-cases (kind.accepts r)) [
        | inl a ↦
            let k = h true (list ++ (kind.fresh now r ∷ [])) (append-yes r list a) in
            rw (e, sync_row, k, a) refl
        | inr a ↦ let k = h false list (append-no r list a) in rw (e, sync_row, k, a) refl
      ]

  known_renewed :
      (r : R) (n : N) (list : List N) (d : Db)
      → IsGood d
      → ((d : Db) → IsGood d → (store.select (kind.by_key (kind.row_key r)) d).0 ≡ some (r ∷ []))
      → find_node kind (kind.row_key r) list ≡ some n
      → same (kind.md5 n) (kind.row_md5 r) ≡ false
      → sync_row kind store mem now r list d
        ≡ some
            (known_list kind now later view row_view law r n list, after_fetch (kind.row_key r) d)
  unfolding sync_row
  known_renewed r n list d g ans e s =
      let u =
        update_served r (kind.found now n) (write_node kind (kind.row_key r) (kind.found now) list)
          d g ans (find-found kind now later view row_view law r n list e) in
      rw (e, sync_row, s, u) refl

  sync_row-known :
      (r : R) (n : N) (list : List N) (d : Db)
      → IsGood d
      → ((d : Db) → IsGood d → (store.select (kind.by_key (kind.row_key r)) d).0 ≡ some (r ∷ []))
      → find_node kind (kind.row_key r) list ≡ some n
      → (d' : Db) × IsGood d'
        × (sync_row kind store mem now r list d
            ≡ some (known_list kind now later view row_view law r n list, d'))
  unfolding sync_row
  sync_row-known r n list d g ans e = elim (Bool-cases (same (kind.md5 n) (kind.row_md5 r))) [
    | inl s ↦ (d, g, rw (e, sync_row, s) refl)
    | inr s ↦ (
      after_fetch (kind.row_key r) d,
      after_fetch-good (kind.row_key r) d g,
      known_renewed r n list d g ans e s,
    )
  ]

  -- What one row does: it settles what is found under its key.
  abbrev pub RowSettled : R → List N → Option (List N × Db) → Type 0
  RowSettled r list out =
      (list' : List N) × (d' : Db) × (out ≡ some (list', d'))
      × IsGood d'
      × Distinct kind list'
      × ((id : ℕ)
          → find_node kind id list' ≡ (
              if id == kind.row_key r
              then settled kind now r (find_node kind id list)
              else find_node kind id list))

  pub sync_row-settles :
      (r : R) (list : List N) (d : Db)
      → IsGood d
      → ((d : Db) → IsGood d → (store.select (kind.by_key (kind.row_key r)) d).0 ≡ some (r ∷ []))
      → Distinct kind list
      → RowSettled r list (sync_row kind store mem now r list d)
  sync_row-settles r list d g ans u = elim (Option-cases (find_node kind (kind.row_key r) list)) [
    | inl e ↦ elim (Bool-cases (kind.accepts r)) [
      | inl a ↦ (
        list ++ (kind.fresh now r ∷ []),
        after_fetch (kind.row_key r) d,
        rw (sync_row-fresh r list d g ans e, a) refl,
        after_fetch-good (kind.row_key r) d g,
        append-Distinct kind (kind.fresh now r) list (rw (law.fresh_key r) e) u,
        λ id. fresh_settles kind now later view row_view law r list id e a,
      )
      | inr a ↦ (
        list,
        after_fetch (kind.row_key r) d,
        rw (sync_row-fresh r list d g ans e, a) refl,
        after_fetch-good (kind.row_key r) d g,
        u,
        λ id. refused_settles kind now later view row_view law r list id e a,
      )
    ]
    | inr f ↦
        let (d', g', s) = sync_row-known r f.0 list d g ans f.1 in
        (
          known_list kind now later view row_view law r f.0 list,
          d',
          s,
          g',
          known-Distinct kind now later view row_view law r f.0 list u,
          λ id. known_settles kind now later view row_view law r f.0 list id f.1,
        )
  ]
