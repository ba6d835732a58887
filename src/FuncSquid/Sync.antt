-- ===== src/FuncSquid/Sync.antt =====
-- `squid_acct`, `squid_sync` and `squid_free` of src/func_squid.c: where each record of squid goes.
use ipstat.Base.{
  ℕ, zero, suc, ◌+◌, ◌≡◌, refl, Bool, true, false, ◌&&◌, not, some, List, [], ◌∷◌, ◌++◌, ◌≢◌, All,
  take, length, if◌then◌else◌, arith, Bool-cases, inl, inr,
}
use ipstat.FuncSquid.{
  SquidNode, SquidState, SquidStore, insert_squid, squid_export, squid_traverse_sync, export_nodes,
  squid_sync, squid_free, no_nodes,
}

-- The address has no quote and no backslash.
abbrev pub IsPlain : List ℕ → Type 0
IsPlain = All (λ c. (c ≢ 39) × (c ≢ 92))

pub IsPlain-take : (n : ℕ) (url : List ℕ) → IsPlain url → IsPlain (take n url)
IsPlain-take zero url w = tt
IsPlain-take (suc n) [] w = tt
IsPlain-take (suc n) (c ∷ url) w = (w.0, IsPlain-take n url w.1)

abbrev pub PlainNodes : List SquidNode → Type 0
PlainNodes = All (λ node. IsPlain node.url)

-- The row of a node: its column URL has 200 characters.
abbrev pub row_of : SquidNode → SquidNode
row_of node = record node { url = take 200 node.url }

-- What src/func_squid.c relies on in the database: `logged` lists the rows of Log_Squid, the newest
-- first. A statement that is refused adds no row, no session adds or drops one, and an insertion of
-- a plain address that is accepted adds its row.
pub record IsSquidLog {Db : Type 0} (store : SquidStore Db) (logged : Db → List SquidNode)
    : Type 0 where
  pub logged-open : (d : Db) → logged (store.open_session d).1 ≡ logged d
  pub logged-close : (d : Db) → logged (store.close d) ≡ logged d
  pub logged-insert :
      (node : SquidNode) (d : Db)
      → IsPlain node.url
      → let (ok, d') = store.exec (insert_squid node) d in
        logged d' ≡ (if ok then row_of node ∷ logged d else logged d)

-- How many rows of a list pass a test, and how many nodes have a row that does.
unfoldable pub count : (SquidNode → Bool) → List SquidNode → ℕ
count p [] = 0
count p (node ∷ nodes) = (if p node then 1 else 0) + count p nodes

abbrev pub count_rows : (SquidNode → Bool) → List SquidNode → ℕ
count_rows p = count (λ node. p (row_of node))

pub count-append :
    (p : SquidNode → Bool) (xs ys : List SquidNode) → count p (xs ++ ys) ≡ count p xs + count p ys
unfolding count
count-append p [] ys = omega arith
count-append p (x ∷ xs) ys = omega (arith, count-append p xs ys)

module _ {Db : Type 0} (store : SquidStore Db) (logged : Db → List SquidNode)
    (log : IsSquidLog store logged) where
  squid_export-logged :
      (mem : Bool) (node : SquidNode) (d : Db)
      → IsPlain node.url
      → let (ok, d') = squid_export store mem node d in
        logged d' ≡ (if ok then row_of node ∷ logged d else logged d)
  unfolding squid_export
  squid_export-logged false node d h = refl
  squid_export-logged true node d h = log.logged-insert node d h

  -- A node is in the log once or given up once.
  abbrev Went : (SquidNode → Bool) → List SquidNode → Db → List SquidNode × Db → Type 0
  Went p nodes d (lost, d') =
      count p (logged d') + count_rows p lost ≡ count p (logged d) + count_rows p nodes

  module _ (p : SquidNode → Bool) where
    squid_traverse_sync-Went :
        (mem : ℕ → Bool) (node : SquidNode) (n : ℕ) (d : Db)
        → IsPlain node.url
        → Went p (node ∷ []) d (squid_traverse_sync store mem node n d)
    unfolding squid_traverse_sync count
    squid_traverse_sync-Went mem node zero d w =
        let h = squid_export-logged (mem 0) node d w in
        elim (Bool-cases (squid_export store (mem 0) node d).0) [
          | inl e ↦ let h = rw e at h in rw (e, h) (omega arith)
          | inr e ↦ let h = rw e at h in rw (e, h) refl
        ]
    squid_traverse_sync-Went mem node (suc n) d w =
        let (ok, d₁) = squid_export store (mem (suc n)) node d in
        let h = squid_export-logged (mem (suc n)) node d w in
        elim (Bool-cases ok) [
          | inl e ↦ let h = rw e at h in rw (e, h) (omega arith)
          | inr e ↦
              let h = rw e at h in
              let went = squid_traverse_sync-Went mem node n d₁ w in
              let went = rw h at went in rw e went
        ]

    export_nodes-Went :
        (mem : ℕ → ℕ → Bool) (nodes lost : List SquidNode) (d : Db)
        → PlainNodes nodes
        → Went p (nodes ++ lost) d (export_nodes store mem nodes lost d)
    unfolding export_nodes count
    export_nodes-Went mem [] lost d w = refl
    export_nodes-Went mem (node ∷ nodes) lost d w =
        let (given_up, d₁) = squid_traverse_sync store (mem (length nodes)) node 3 d in
        let first = squid_traverse_sync-Went (mem (length nodes)) node 3 d w.0 in
        let rest = export_nodes-Went mem nodes (given_up ++ lost) d₁ w.1 in
        omega (
          arith,
          first,
          rest,
          count-append (λ node. p (row_of node)) nodes lost,
          count-append (λ node. p (row_of node)) nodes (given_up ++ lost),
          count-append (λ node. p (row_of node)) given_up lost,
        )

    -- Each record that was in memory is in memory, in the log or given up.
    abbrev pub Kept : SquidState → Db → Bool × SquidState × List SquidNode × Db → Type 0
    Kept s d (ok, s', lost, d') =
        count_rows p s'.ag_squid + count p (logged d') + count_rows p lost
        ≡ count_rows p s.ag_squid + count p (logged d)

    pub squid_sync-Kept :
        (mem : ℕ → ℕ → Bool) (s : SquidState) (d : Db)
        → PlainNodes s.ag_squid
        → Kept s d (squid_sync (some store) mem s d)
    unfolding squid_sync count
    squid_sync-Kept mem s d w =
        let (opened, d₁) = store.open_session d in
        let went = export_nodes-Went mem s.ag_squid [] d₁ w in
        let went = rw (log.logged-open d) at went in
        elim (Bool-cases s.flag_export) [
          | inl f ↦ rw (f, squid_sync) (omega arith)
          | inr f ↦ elim (Bool-cases opened) [
            | inl e ↦
                rw (f, e, squid_sync, log.logged-close _)
                  (omega (arith, went, count-append (λ node. p (row_of node)) s.ag_squid []))
            | inr e ↦ rw (f, e, squid_sync, log.logged-open d) (omega arith)
          ]
        ]

    pub squid_free-Kept :
        (has_server has_sched : Bool) (mem : ℕ → ℕ → Bool) (s : SquidState) (d : Db)
        → PlainNodes s.ag_squid
        → Kept s d (squid_free has_server has_sched (some store) mem s d)
    unfolding squid_free count
    squid_free-Kept has_server has_sched mem s d w =
        let s₁ = record s {
          served = not has_server && s.served;
          scheduled = not has_sched && s.scheduled;
        } in
        let (_, s', lost, _) = squid_sync (some store) mem s₁ d in
        elim (Bool-cases (no_nodes s.ag_squid)) [
          | inl e ↦ rw e (omega arith)
          | inr e ↦ rw e (
              omega (
                arith,
                squid_sync-Kept mem s₁ d w,
                count-append (λ node. p (row_of node)) lost s'.ag_squid,
              ))
        ]

    pub squid_sync-Plain :
        (mem : ℕ → ℕ → Bool) (s : SquidState) (d : Db)
        → PlainNodes s.ag_squid
        → PlainNodes (squid_sync (some store) mem s d).1.ag_squid
    unfolding squid_sync
    squid_sync-Plain mem s d w = elim (Bool-cases s.flag_export) [
      | inl f ↦ rw (f, squid_sync) w
      | inr f ↦ elim (Bool-cases (store.open_session d).0) [
        | inl e ↦ rw (f, e, squid_sync) tt
        | inr e ↦ rw (f, e, squid_sync) w
      ]
    ]

    pub squid_free-Plain :
        (has_server has_sched : Bool) (mem : ℕ → ℕ → Bool) (s : SquidState) (d : Db)
        → PlainNodes s.ag_squid
        → PlainNodes (squid_free has_server has_sched (some store) mem s d).1.ag_squid
    unfolding squid_free
    squid_free-Plain has_server has_sched mem s d w = elim (Bool-cases (no_nodes s.ag_squid)) [
      | inl e ↦ rw e w
      | inr e ↦ rw e tt
    ]
