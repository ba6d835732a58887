-- ===== src/FuncSquid/Drain.antt =====
-- What src/func_squid.c writes when the database accepts every statement.
use ipstat.Base.{
  ℕ, zero, suc, ◌≡◌, refl, ap, ◌∙◌, true, false, some, List, [], ◌∷◌, ◌++◌, ◌≤◌, All, take, arith,
  map,
}
use ipstat.Store.Log.{IsUp}
use ipstat.FuncSquid.{
  SquidNode, SquidData, SquidState, SquidStore, insert_squid, node_of, g_list_prepend, squid_acct,
  squid_export, squid_traverse_sync, export_nodes, squid_sync,
}
use ipstat.FuncSquid.Sync.{IsSquidLog, IsPlain, IsPlain-take, PlainNodes, row_of}

-- The variables after a sequence of calls of `squid_acct`, with memory for each.
unfoldable pub acct_all : List (List ℕ × SquidData) → SquidState → SquidState
acct_all [] s = s
acct_all ((url, squid_data) ∷ calls) s = acct_all calls (squid_acct true true s url squid_data).1

-- One list turned round in front of another.
abbrev onto : List SquidNode → List SquidNode → List SquidNode
onto [] ys = ys
onto (x ∷ xs) ys = onto xs (x ∷ ys)

onto-onto : (xs ys zs : List SquidNode) → onto (onto xs ys) zs ≡ onto ys (xs ++ zs)
onto-onto [] ys zs = refl
onto-onto (x ∷ xs) ys zs = onto-onto xs (x ∷ ys) zs

abbrev nodes_of : List (List ℕ × SquidData) → List SquidNode
nodes_of = map (λ c. node_of c.0 c.1)

-- The rows of a sequence of calls.
abbrev pub rows_of : List (List ℕ × SquidData) → List SquidNode
rows_of [] = []
rows_of ((url, squid_data) ∷ calls) =
    record { id_user = squid_data.id_user; url = take 200 url; traffic = squid_data.len }
    ∷ rows_of calls

take-take : (m n : ℕ) (xs : List ℕ) → m ≤ n → take m (take n xs) ≡ take m xs
take-take zero n xs h = refl
take-take (suc m) zero xs h = absurd (omega arith)
take-take (suc m) (suc n) [] h = refl
take-take (suc m) (suc n) (x ∷ xs) h = ap (λ ys. x ∷ ys) (take-take m n xs (omega arith))

rows_of-nodes_of : (calls : List (List ℕ × SquidData)) → map row_of (nodes_of calls) ≡ rows_of calls
rows_of-nodes_of [] = refl
rows_of-nodes_of ((url, squid_data) ∷ calls) =
    rw (rows_of-nodes_of calls, take-take 200 1023 url (omega arith)) refl

map-onto : (xs ys : List SquidNode) → map row_of (onto xs ys) ≡ onto (map row_of xs) (map row_of ys)
map-onto [] ys = refl
map-onto (x ∷ xs) ys = map-onto xs (x ∷ ys)

onto-Plain : (xs ys : List SquidNode) → PlainNodes xs → PlainNodes ys → PlainNodes (onto xs ys)
onto-Plain [] ys v w = w
onto-Plain (x ∷ xs) ys v w = onto-Plain xs (x ∷ ys) v.1 (v.0, w)

nodes_of-Plain :
    (calls : List (List ℕ × SquidData)) → All (λ c. IsPlain c.0) calls → PlainNodes (nodes_of calls)
nodes_of-Plain [] w = tt
nodes_of-Plain ((url, squid_data) ∷ calls) w = (IsPlain-take 1023 url w.0, nodes_of-Plain calls w.1)

acct_all-prepends :
    (calls : List (List ℕ × SquidData)) (s : SquidState)
    → ((acct_all calls s).ag_squid ≡ onto (nodes_of calls) s.ag_squid)
      × ((acct_all calls s).flag_export ≡ s.flag_export)
unfolding acct_all squid_acct g_list_prepend
acct_all-prepends [] s = (refl, refl)
acct_all-prepends ((url, squid_data) ∷ calls) s =
    acct_all-prepends calls (squid_acct true true s url squid_data).1

module _ {Db : Type 0} (store : SquidStore Db) (up : IsUp store) (logged : Db → List SquidNode)
    (log : IsSquidLog store logged) where
  export_nodes-logged :
      (nodes : List SquidNode) (d : Db)
      → PlainNodes nodes
      → let (lost, d') = export_nodes store (λ _ _. true) nodes [] d in
        (lost ≡ []) × (logged d' ≡ onto (map row_of nodes) (logged d))
  unfolding export_nodes squid_traverse_sync squid_export
  export_nodes-logged [] d w = (refl, refl)
  export_nodes-logged (node ∷ nodes) d w =
      let h = log.logged-insert node d w.0 in
      let h = rw (up.accepts (insert_squid node) d) at h in
      let rest = export_nodes-logged nodes (store.exec (insert_squid node) d).1 w.1 in
      let rest = rw h at rest in rw (up.accepts (insert_squid node) d, export_nodes) rest

  -- If the list is empty, no export is under way, memory suffices, no address has a quote or a
  -- backslash, and the database accepts every
  -- statement, then after any calls of `squid_acct` one `squid_sync` returns TRUE, gives nothing up,
  -- empties the list, and adds to Log_Squid one row for each call, with its user and traffic and
  -- the first 200 characters of its address, which its column holds. The rows are inserted in the reverse order of the calls.
  pub squid_sync-acct_all :
      (calls : List (List ℕ × SquidData)) (s : SquidState) (d : Db)
      → s.ag_squid ≡ []
      → s.flag_export ≡ false
      → All (λ c. IsPlain c.0) calls
      → let (ok, s', lost, d') = squid_sync (some store) (λ _ _. true) (acct_all calls s) d in
        (ok ≡ true)
        × (s'.ag_squid ≡ [])
        × (s'.flag_export ≡ false)
        × (lost ≡ [])
        × (logged d' ≡ rows_of calls ++ logged d)
  unfolding squid_sync
  squid_sync-acct_all calls s d a f w =
      let (q, g) = acct_all-prepends calls s in
      let q = q ∙ ap (onto (nodes_of calls)) a in
      let g = g ∙ f in
      let v = onto-Plain (nodes_of calls) [] (nodes_of-Plain calls w) tt in
      let (l, r) =
        export_nodes-logged (acct_all calls s).ag_squid (store.open_session d).1 (rw q v) in
      let r = rw (q, log.logged-open d) at r in
      rw (g, up.opens d)
        (
          refl,
          refl,
          refl,
          l,
          log.logged-close _
              ∙ (rw q r
                  ∙ ap (λ xs. onto xs (logged d)) (map-onto (nodes_of calls) [])
                  ∙ onto-onto (map row_of (nodes_of calls)) [] (logged d)
                  ∙ ap (λ xs. xs ++ logged d) (rows_of-nodes_of calls)),
        )
