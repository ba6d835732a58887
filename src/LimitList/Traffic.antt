-- ===== src/LimitList/Traffic.antt =====
-- What the group limit plugins count: nothing is lost between memory and database.
use ipstat.Base.{
  ℕ, ◌+◌, ◌%◌, ◌^◌, ◌<◌, ◌≡◌, refl, ap, ◌∙◌, Bool, true, ◌&&◌, none, some, List, [], ◌∷◌, All, ◌==◌,
  ==_iff, if◌then◌else◌, arith, Bool-cases, inl, inr,
}
use ipstat.Store.{RowStore}
use ipstat.Mirror.{find_node}
use ipstat.Mirror.Find.{Distinct, find_under, through, through-none}
use ipstat.LimitList.Sync.{limit_of, find-sync_nodes}
use ipstat.LimitList.{
  NodeGroupLimit, RowLimit, Query, Exec, update_traffic, limit_kind, sync_node, sync_nodes,
  sync_traffic, onactive,
}

-- What the export relies on in the database server: `has` says whether there is a row with the id,
-- `logged` is its TDay. A statement that is refused changes nothing, and one that is accepted adds to the
-- row of its id.
pub record IsLimitLog {O Db : Type 0} (store : RowStore Db Query (RowLimit O) Exec)
    (has : ℕ → Db → Bool) (logged : ℕ → Db → ℕ) : Type 0 where
  pub has-open : (j : ℕ) (d : Db) → has j (store.open_session d).1 ≡ has j d
  pub logged-open : (j : ℕ) (d : Db) → logged j (store.open_session d).1 ≡ logged j d
  pub logged-close : (j : ℕ) (d : Db) → logged j (store.close d) ≡ logged j d
  pub has-update :
      (j traffic day month : ℕ) (on : Bool) (id : ℕ) (d : Db)
      → has j (store.exec (update_traffic traffic day month on id) d).1 ≡ has j d
  pub logged-update :
      (j traffic day month : ℕ) (on : Bool) (id : ℕ) (d : Db)
      → let (ok, d') = store.exec (update_traffic traffic day month on id) d in
        logged j d' ≡ logged j d + (if ok && (j == id) && has j d then day else 0)

-- What memory owes to the row of an id.
abbrev pub owed : {O : Type 0} → ℕ → List (NodeGroupLimit O) → ℕ
owed j list = elim (find_node limit_kind j list) [ none ↦ 0 | some n ↦ n.alpha ]

module _ {O Db : Type 0} (store : RowStore Db Query (RowLimit O) Exec) (has : ℕ → Db → Bool)
    (logged : ℕ → Db → ℕ) (log : IsLimitLog store has logged) where
  -- A node whose sum fits in 32 bits and whose row exists.
  abbrev pub Exports : Db → NodeGroupLimit O → Type 0
  Exports d n = (n.alpha < 2 ^ 32) × (has n.id d ≡ true)

  Exports-exec :
      (list : List (NodeGroupLimit O)) (n : NodeGroupLimit O) (d : Db)
      → All (Exports d) list
      → All (Exports (sync_node store n d).1) list
  unfolding sync_node
  Exports-exec [] n d h = tt
  Exports-exec (m ∷ list) n d h = (
    (h.0.0, log.has-update m.id n.traffic _ _ (onactive n) n.id d ∙ h.0.1),
    Exports-exec list n d h.1,
  )

  Exports-open :
      (list : List (NodeGroupLimit O)) (d : Db)
      → All (Exports d) list
      → All (Exports (store.open_session d).1) list
  Exports-open [] d h = tt
  Exports-open (m ∷ list) d h = ((h.0.0, log.has-open m.id d ∙ h.0.1), Exports-open list d h.1)

  sync_nodes-owed :
      (j : ℕ) (list : List (NodeGroupLimit O)) (d : Db)
      → Distinct limit_kind list
      → All (Exports d) list
      → let (list', d') = sync_nodes store list d in
        logged j d' + owed j list' ≡ logged j d + owed j list
  unfolding sync_nodes sync_node limit_kind find_node
  sync_nodes-owed j [] d u h = refl
  sync_nodes-owed j (n ∷ list) d u h =
      let d' = (sync_node store n d).1 in
      let i = sync_nodes-owed j list d' u.1 (Exports-exec list n d h.1) in
      let x = n.alpha % 2 ^ 32 in
      let l = log.logged-update j n.traffic x x (onactive n) n.id d in
      let rest = (sync_nodes store list d').0 in
      let gone =
        through-none limit_of (find_node limit_kind n.id rest)
          (find-sync_nodes store n.id list d' ∙ ap (through limit_of) u.0) in
      elim (Bool-cases (j == n.id)) [
        | inl b ↦
            let e = (==_iff j n.id).0 b in
            let p = find_under limit_kind j n.id list none b u.0 in
            let q = find_under limit_kind j n.id rest none b gone in
            let r : has j d ≡ true = rw e h.0.1 in ground (arith, i, l, p, q, e, h.0.0, r)
        | inr b ↦ ground (arith, i, l, b)
      ]

  -- Where no limit is twice in the list, each sum fits in 32 bits and each limit has its row, the
  -- export moves sums from memory to the database and loses none: whichever statements are refused, and
  -- whether or not a session opens, what the database has for a limit and what memory owes to it
  -- come to what they came to before.
  pub sync_traffic-owed :
      (j : ℕ) (list : List (NodeGroupLimit O)) (d : Db)
      → Distinct limit_kind list
      → All (Exports d) list
      → let (ok, list', d') = sync_traffic (some store) list d in
        logged j d' + owed j list' ≡ logged j d + owed j list
  unfolding sync_traffic
  sync_traffic-owed j list d u h =
      let d₁ = (store.open_session d).1 in
      let k = sync_nodes-owed j list d₁ u (Exports-open list d h) in
      ground (arith, k, log.logged-open j d, log.logged-close j (sync_nodes store list d₁).1)
