-- ===== src/LimitList/Sync.antt =====
-- `sync_limits`: the list has the limits of the database afterwards.
use ipstat.Base.{
  ℕ, ◌≡◌, refl, sym, ap, ◌∙◌, Bool, true, Option, none, some, List, [], ◌∷◌, ◌%◌, ◌^◌, arith,
  Bool-cases, Option-cases, inl, inr, ◌>>=◌, bind_assoc, take,
}
use mathlib.Core.Path.{subst}
use ipstat.Base.Memory.{bytes_compare}
use ipstat.Gtree.Write.{same}
use ipstat.Store.{RowStore}
use ipstat.Mirror.{find_node, expire, sync_rows, sync_table}
use ipstat.Mirror.Find.{through, through-none, Distinct}
use ipstat.Mirror.Law.{IsMirror, IsServing, DistinctRows, find_row}
use ipstat.Mirror.Shows.{shows}
use ipstat.Mirror.Expire.{survivor}
use ipstat.Mirror.Mirrors.{sync_table-Shows}
use ipstat.LimitList.{
  NodeGroupLimit, RowLimit, Query, Exec, all_limits, to_u64, limit_node, limit_renewed, limit_kind,
  mark_delete, traverse_mark, sync_node, sync_nodes, sync_traffic, sync_limits,
}

module _ {O : Type 0} where
  -- What a node or a row says: owner, type, limitation and block.
  abbrev pub limit_of : NodeGroupLimit O → O × ℕ × ℕ × ℕ
  limit_of n = (n.owner, n.type, n.limitation, n.onblocked)

  abbrev pub row_limit : RowLimit O → O × ℕ × ℕ × ℕ
  row_limit r = (r.owner, r.type, to_u64 r.limitation, r.onblocked % 2 ^ 8)

  limit_kind-IsMirror : IsMirror limit_kind 0 0 limit_of row_limit
  unfolding limit_kind limit_node limit_renewed
  limit_kind-IsMirror = record {
    fresh_key = λ r. refl;
    renew_key = λ r n. refl;
    found_key = λ n. refl;
    kept_key = λ n. refl;
    fresh_view = λ r. refl;
    renew_view = λ r n. refl;
    found_view = λ n. refl;
    kept_view = λ n. refl;
    fresh_alive = λ r. refl;
    found_alive = λ n. refl;
    renew_alive = λ r n. refl;
  }

  find-mark_delete :
      (id : ℕ) (list : List (NodeGroupLimit O))
      → find_node limit_kind id (mark_delete list)
        ≡ through traverse_mark (find_node limit_kind id list)
  unfolding find_node mark_delete limit_kind
  find-mark_delete id [] = refl
  find-mark_delete id (n ∷ list) = ground (arith, find-mark_delete id list)

  mark_delete-Distinct :
      (list : List (NodeGroupLimit O))
      → Distinct limit_kind list
      → Distinct limit_kind (mark_delete list)
  unfolding mark_delete limit_kind
  mark_delete-Distinct [] u = tt
  mark_delete-Distinct (n ∷ list) u =
      (find-mark_delete n.id list ∙ ap (through traverse_mark) u.0, mark_delete-Distinct list u.1)

  -- The export changes no limit.
  pub find-sync_nodes :
      {Db : Type 0} (store : RowStore Db Query (RowLimit O) Exec) (id : ℕ)
      (list : List (NodeGroupLimit O)) (d : Db)
      → through limit_of (find_node limit_kind id (sync_nodes store list d).0)
        ≡ through limit_of (find_node limit_kind id list)
  unfolding find_node sync_nodes sync_node limit_kind
  find-sync_nodes store id [] d = refl
  find-sync_nodes store id (n ∷ list) d =
      ground (arith, find-sync_nodes store id list (sync_node store n d).1)

  sync_nodes-Distinct :
      {Db : Type 0} (store : RowStore Db Query (RowLimit O) Exec) (list : List (NodeGroupLimit O))
      (d : Db)
      → Distinct limit_kind list
      → Distinct limit_kind (sync_nodes store list d).0
  unfolding sync_nodes sync_node limit_kind
  sync_nodes-Distinct store [] d u = tt
  sync_nodes-Distinct store (n ∷ list) d u =
      let d' = (sync_node store n d).1 in
      let f = find_node limit_kind n.id (sync_nodes store list d').0 in
      (
        through-none limit_of f (find-sync_nodes store n.id list d' ∙ ap (through limit_of) u.0),
        sync_nodes-Distinct store list d' u.1,
      )

  sync_traffic-limits :
      {Db : Type 0} (store : RowStore Db Query (RowLimit O) Exec) (list : List (NodeGroupLimit O))
      (d : Db)
      → Distinct limit_kind list
      → let (ok, list', d') = sync_traffic (some store) list d in
        Distinct limit_kind list'
        × ((id : ℕ)
            → through limit_of (find_node limit_kind id list')
              ≡ through limit_of (find_node limit_kind id list))
  unfolding sync_traffic
  sync_traffic-limits store list d u =
      let d₁ = (store.open_session d).1 in
      elim (Bool-cases (store.open_session d).0) [
        | inl e ↦ rw e (sync_nodes-Distinct store list d₁ u, λ id. find-sync_nodes store id list d₁)
        | inr e ↦ rw e (u, λ id. refl)
      ]

  marked_gone :
      (o : Option (NodeGroupLimit O)) → survivor limit_kind 0 (through traverse_mark o) ≡ none
  unfolding survivor limit_kind
  marked_gone none = refl
  marked_gone (some n) = refl

  -- What is shown where everything is marked.
  marked-shows :
      (id : ℕ) (row : Option (RowLimit O)) (list : List (NodeGroupLimit O))
      → shows limit_kind 0 limit_of row_limit row (find_node limit_kind id (mark_delete list))
        ≡ through row_limit row
  unfolding shows survivor limit_kind
  marked-shows id (some r) list = refl
  marked-shows id none list =
      rw (find-mark_delete id list, marked_gone (find_node limit_kind id list)) refl

  marked_none : (n : NodeGroupLimit O) → some n ≡ none → ⊥
  marked_none n e = cc

  marked_some : (m n : NodeGroupLimit O) → some (traverse_mark m) ≡ some n → traverse_mark m ≡ n
  marked_some m n e = cc

  found-marked :
      (id : ℕ) (n : NodeGroupLimit O) (list : List (NodeGroupLimit O))
      → find_node limit_kind id (mark_delete list) ≡ some n
      → (m : NodeGroupLimit O) × (find_node limit_kind id list ≡ some m) × (traverse_mark m ≡ n)
  found-marked id n list e =
      let f = find-mark_delete id list in
      elim (Option-cases (find_node limit_kind id list)) [
        | inl g ↦ absurd (marked_none n (sym e ∙ f ∙ ap (through traverse_mark) g))
        | inr (m, g) ↦ (m, g, marked_some m n (sym (ap (through traverse_mark) g) ∙ sym f ∙ e))
      ]

  -- `sync_limits` where the listing is answered.
  sync_limits-sync_table :
      {Db : Type 0} (store : RowStore Db Query (RowLimit O) Exec) (mem : ℕ → Bool × Bool)
      (rows : List (RowLimit O)) (list : List (NodeGroupLimit O)) (d : Db)
      → (store.open_session d).0 ≡ true
      → (store.select all_limits (store.open_session d).1).0 ≡ some rows
      → sync_limits mem (some store) list d ≡ (do
        (_, list', d') ← sync_table limit_kind (some store) mem 0 0 mark_delete list d
        let (_, list″, d″) = sync_traffic (some store) list' d'
        some (true, list″, d″))
  unfolding sync_limits sync_table limit_kind
  sync_limits-sync_table store mem rows list d o a =
      let d₂ = (store.select all_limits (store.open_session d).1).1 in
      rw (o, a)
        (sym (
          bind_assoc (sync_rows limit_kind store mem 0 rows (mark_delete list) d₂)
            (λ x. some (true, expire limit_kind 0 x.0 x.0, store.close x.1))
            (λ x. some (
              true,
              (sync_traffic (some store) x.1 x.2).1,
              (sync_traffic (some store) x.1 x.2).2,
            ))))

  -- Where the database serves the rows, with no key twice, where there is memory, no limit is twice
  -- in the list, and a node with the fingerprint of its row says what the row says, `sync_limits` succeeds,
  -- and then the list has the limits of the database, with their owners, types, limitations and blocks,
  -- each once, and no other.
  pub sync_limits-limits :
      {Db : Type 0} (store : RowStore Db Query (RowLimit O) Exec) (mem : ℕ → Bool × Bool)
      (rows : List (RowLimit O)) (IsGood : Db → Type 0) (list : List (NodeGroupLimit O)) (d : Db)
      → ((id : ℕ) → mem id ≡ (true, true))
      → IsServing store limit_kind rows IsGood
      → IsGood d
      → DistinctRows limit_kind rows
      → Distinct limit_kind list
      → ((id : ℕ) (r : RowLimit O) (n : NodeGroupLimit O)
          → find_row limit_kind id rows ≡ some r
          → find_node limit_kind id list ≡ some n
          → same n.md5 (limit_kind.row_md5 r) ≡ true
          → limit_of n ≡ row_limit r)
      → (list' : List (NodeGroupLimit O)) × (d' : Db) × (sync_limits mem (some store) list d
          ≡ some (true, list', d'))
        × Distinct limit_kind list'
        × ((id : ℕ)
            → through limit_of (find_node limit_kind id list')
              ≡ through row_limit (find_row limit_kind id rows))
  unfolding limit_kind
  sync_limits-limits store mem rows IsGood list d h serve g w u m =
      let (l, d', e, g', s) =
        sync_table-Shows limit_kind 0 0 limit_of row_limit limit_kind-IsMirror store mem h rows
          IsGood serve mark_delete list d g w (mark_delete-Distinct list u) (λ id r f. refl)
          (λ id r n f k t.
            let (b, k', q) = found-marked id n list k in
            subst (λ x. same x.md5 (take 32 r.md5) ≡ true → limit_of x ≡ row_limit r) q
              (m id r b f k') t) in
      let t = sync_traffic-limits store l d' s.0 in
      let o = serve.opens d g in
      let a = serve.lists (store.open_session d).1 (serve.open_good d g) in
      (
        (sync_traffic (some store) l d').1,
        (sync_traffic (some store) l d').2,
        sync_limits-sync_table store mem rows list d o a ∙ rw e refl,
        t.0,
        λ id. t.1 id ∙ s.1 id ∙ marked-shows id (find_row limit_kind id rows) list,
      )
