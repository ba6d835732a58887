-- ===== src/UrlPolicy/Autz.antt =====
-- `autz_url_policy` of src/src/ipstat_url_policy.c.
use ipstat.Base.{
  ℕ, ◌≡◌, refl, Bool, true, false, ◌&&◌, Option, none, some, List, [], ◌∷◌, All, take, ◌==◌,
  if◌then◌else◌, arith, Option-cases, inl, inr, ◌≤◌, ◌+◌,
}
use ipstat.Base.Memory.{bytes_compare}
use ipstat.Gtree.Write.{same}
use ipstat.Store.{RowStore}
use ipstat.Mirror.{find_node}
use ipstat.Mirror.Find.{Distinct}
use ipstat.Mirror.Law.{IsServing, DistinctRows, find_row}
use ipstat.Mirror.Shows.{ShowsAll-All}
use ipstat.Mirror.Mirrors.{sync_table-Shows}
use ipstat.UrlPolicy.{
  RegexApi, NodePattern, UrlPolicy, Query, pattern_matches, check_patterns, check_policy,
}
use ipstat.UrlPolicy.Users.{check_user}
use ipstat.UrlPolicy.Patterns.{
  RowPattern, pattern_kind, pattern_kind-IsMirror, compiles, pattern_of, row_pattern,
  sync_pattern_list,
}

module _ {Regex : Type 0} (api : RegexApi Regex) where
  -- `none` is a fault.
  unfoldable pub autz_url_policy : ℕ → List ℕ → UrlPolicy Regex → Option Bool
  autz_url_policy id_user url st = elim (check_user id_user st) [
    | none ↦ some true
    | some p ↦ check_policy api p.0 url p.1 st
  ]

  -- An expression that `regcomp` made.
  abbrev pub Compiled : NodePattern Regex → Type 0
  Compiled n = (reg : Regex) × (n.reg ≡ some reg)

  -- The decision where every expression is compiled.
  unfoldable pub decide : ℕ → List ℕ → ℕ → List (NodePattern Regex) → ℕ
  decide id_policy url def [] = def
  decide id_policy url def (node ∷ list) =
      if (node.id_policy == id_policy)
        && elim node.reg [ none ↦ false | some reg ↦ api.regexec reg url ]
      then node.target
      else decide id_policy url def list

  check_patterns-decide :
      (id_policy : ℕ) (url : List ℕ) (def : ℕ) (list : List (NodePattern Regex))
      → All Compiled list
      → check_patterns api id_policy url def list ≡ some (decide id_policy url def list)
  unfolding check_patterns pattern_matches decide
  check_patterns-decide id_policy url def [] c = refl
  check_patterns-decide id_policy url def (node ∷ list) c =
      ground (arith, check_patterns-decide id_policy url def list c.1, c.0.1)

  autz_url_policy-decide :
      (id_user : ℕ) (url : List ℕ) (st : UrlPolicy Regex)
      → All Compiled st.policy_pattern
      → (b : Bool) × (autz_url_policy id_user url st ≡ some b)
  unfolding autz_url_policy check_policy
  autz_url_policy-decide id_user url st c = elim (Option-cases (check_user id_user st)) [
    | inl e ↦ (true, rw (e, autz_url_policy) refl)
    | inr p ↦ (
      (if decide p.0.0 url p.0.1 st.policy_pattern == 0 then false else true),
      rw (p.1, autz_url_policy, check_patterns-decide p.0.0 url p.0.1 st.policy_pattern c) refl,
    )
  ]

  compiled_row :
      (r : RowPattern) → compiles api r ≡ true → (reg : Regex) × ((row_pattern api r).2 ≡ some reg)
  unfolding compiles
  compiled_row r e = elim (Option-cases (api.regcomp (take 99 r.pattern))) [
    | inl f ↦ absurd (ground arith)
    | inr f ↦ f
  ]

  -- Where the database serves rows whose patterns all compile, with no key twice, where there is
  -- memory, the deletion follows soon enough, the list has no key twice and compiled expressions only,
  -- and a node with the fingerprint of its row has the row's content, the synchronisation of the
  -- patterns succeeds, and after it every request is decided without a fault.
  pub sync_pattern_list-Decides :
      {Db Exec : Type 0} (store : RowStore Db Query RowPattern Exec) (mem : ℕ → Bool × Bool)
      (now later : ℕ) (rows : List RowPattern) (IsGood : Db → Type 0) (st : UrlPolicy Regex)
      (d : Db)
      → ((id : ℕ) → mem id ≡ (true, true))
      → later ≤ now + 90
      → IsServing store (pattern_kind api) rows IsGood
      → IsGood d
      → DistinctRows (pattern_kind api) rows
      → Distinct (pattern_kind api) st.policy_pattern
      → ((id : ℕ) (r : RowPattern)
          → find_row (pattern_kind api) id rows ≡ some r
          → compiles api r ≡ true)
      → ((id : ℕ) (r : RowPattern) (n : NodePattern Regex)
          → find_row (pattern_kind api) id rows ≡ some r
          → find_node (pattern_kind api) id st.policy_pattern ≡ some n
          → same n.md5 ((pattern_kind api).row_md5 r) ≡ true
          → pattern_of api n ≡ row_pattern api r)
      → All Compiled st.policy_pattern
      → (st' : UrlPolicy Regex) × (d' : Db) × (sync_pattern_list api mem now (some store) later st d
          ≡ some (true, st', d'))
        × ((id_user : ℕ) (url : List ℕ) → (b : Bool) × (autz_url_policy id_user url st' ≡ some b))
  unfolding sync_pattern_list pattern_kind compiles
  sync_pattern_list-Decides store mem now later rows IsGood st d h t serve g w u a m c =
      let k = pattern_kind api in
      let law = pattern_kind-IsMirror api now later t in
      let (list', d', e, g', s) =
        sync_table-Shows k now later (pattern_of api) (row_pattern api) law store mem h rows IsGood
          serve (λ list. list) st.policy_pattern d g w u a m in
      let c' =
        ShowsAll-All k later (pattern_of api) (row_pattern api)
          (λ v. (reg : Regex) × (v.2 ≡ some reg)) rows st.policy_pattern list' s
          (λ id r f. compiled_row r (a id r f)) c in
      let st' = record st { policy_pattern = list' } in
      (st', d', rw e refl, λ id_user url. autz_url_policy-decide id_user url st' c')
