-- ===== src/CoreUsers/Reload.antt =====
-- `rules_mysql_load` and `rules_sync` of src/core_users.c: when rules are to be loaded again.
use ipstat.Base.{
  ℕ, ◌-◌, ◌≡◌, ◌≢◌, refl, ap, ◌∙◌, Bool, true, false, not, ◌&&◌, ◌||◌, none, some, List, [], ◌∷◌,
  ◌++◌, ◌==◌, ==_iff, ltb, All, take, if◌then◌else◌, arith, Bool-cases, Option-cases, inl, inr,
}
use ipstat.Base.Memory.{bytes_compare}
use mathlib.Core.List.{append-nil, append_assoc}
use ipstat.Gtree.Write.{same}
use ipstat.CoreUsers.Data.{NodeRule, NodeUser}
use ipstat.CoreUsers.Load.{
  RowRule, UserDb, rules_find, touch_rule, compare_row, compare_rows, any_old, rule_of,
  rules_insert, insert_rows, rules_init, rules_sync, rules_mysql_load,
}

-- The rules of rows, as they are loaded.
unfoldable pub rules_of : List RowRule → List NodeRule
rules_of [] = []
rules_of (row ∷ rows) = rule_of row ∷ rules_of rows

-- No rule has the row's identifier, or the first that has it has another fingerprint.
abbrev pub differs : RowRule → List NodeRule → Bool
differs row rules = elim (rules_find row.id rules) [
  | none ↦ true
  | some r ↦ not (same r.md5 (take 32 row.md5))
]

unfoldable pub any_differs : List RowRule → List NodeRule → Bool
any_differs [] rules = false
any_differs (row ∷ rows) rules = differs row rules || any_differs rows rules

-- A row has the identifier.
unfoldable pub is_listed : ℕ → List RowRule → Bool
is_listed key [] = false
is_listed key (row ∷ rows) = (row.id == key) || is_listed key rows

-- A rule has no row, and none was seen for more than 90 seconds.
unfoldable pub any_vanished : ℕ → List RowRule → List NodeRule → Bool
any_vanished now rows [] = false
any_vanished now rows (r ∷ rules) =
    (ltb 90 (now - r.time_live) && not (is_listed r.id rows)) || any_vanished now rows rules

-- No identifier twice.
abbrev Lacks : ℕ → List NodeRule → Type 0
Lacks key = All (λ (r : NodeRule). r.id ≢ key)

abbrev pub DistinctRules : List NodeRule → Type 0
DistinctRules [] = Unit
DistinctRules (r ∷ rules) = Lacks r.id rules × DistinctRules rules

differs-touch_rule :
    (now key : ℕ) (row : RowRule) (rules : List NodeRule)
    → differs row (touch_rule now key rules) ≡ differs row rules
unfolding rules_find touch_rule
differs-touch_rule now key row [] = refl
differs-touch_rule now key row (r ∷ rules) = ground (arith, differs-touch_rule now key row rules)

any_differs-touch_rule :
    (now key : ℕ) (rows : List RowRule) (rules : List NodeRule)
    → any_differs rows (touch_rule now key rules) ≡ any_differs rows rules
unfolding any_differs
any_differs-touch_rule now key [] rules = refl
any_differs-touch_rule now key (row ∷ rows) rules =
    rw (differs-touch_rule now key row rules, any_differs-touch_rule now key rows rules) refl

Lacks-touch_rule :
    (now key j : ℕ) (rules : List NodeRule) → Lacks j rules → Lacks j (touch_rule now key rules)
unfolding touch_rule
Lacks-touch_rule now key j [] h = tt
Lacks-touch_rule now key j (r ∷ rules) h = elim (Bool-cases (r.id == key)) [
  | inl e ↦ rw e h
  | inr e ↦ rw e (h.0, Lacks-touch_rule now key j rules h.1)
]

touch_rule-Distinct :
    (now key : ℕ) (rules : List NodeRule)
    → DistinctRules rules
    → DistinctRules (touch_rule now key rules)
unfolding touch_rule
touch_rule-Distinct now key [] h = tt
touch_rule-Distinct now key (r ∷ rules) h = elim (Bool-cases (r.id == key)) [
  | inl e ↦ rw e h
  | inr e ↦ rw e (Lacks-touch_rule now key r.id rules h.0, touch_rule-Distinct now key rules h.1)
]

any_vanished-Lacks :
    (now : ℕ) (row : RowRule) (rows : List RowRule) (rules : List NodeRule)
    → Lacks row.id rules
    → any_vanished now (row ∷ rows) rules ≡ any_vanished now rows rules
unfolding any_vanished is_listed
any_vanished-Lacks now row rows [] h = refl
any_vanished-Lacks now row rows (r ∷ rules) h =
    ground (arith, any_vanished-Lacks now row rows rules h.1, h.0)

any_vanished-touch_rule :
    (now : ℕ) (row : RowRule) (rows : List RowRule) (rules : List NodeRule)
    → DistinctRules rules
    → any_vanished now rows (touch_rule now row.id rules) ≡ any_vanished now (row ∷ rows) rules
unfolding any_vanished touch_rule is_listed
any_vanished-touch_rule now row rows [] h = refl
any_vanished-touch_rule now row rows (r ∷ rules) h = elim (Bool-cases (r.id == row.id)) [
  | inl e ↦
      let q = (==_iff r.id row.id).0 e in
      let l = h.0 in
      let l = rw q at l in
      let k = any_vanished-Lacks now row rows rules l in
      let f : (row.id == r.id) ≡ true = ground (arith, q) in
      let z : ltb 90 (now - now) ≡ false = ground arith in rw (e, f, z, k) ground arith
  | inr e ↦
      let k = any_vanished-touch_rule now row rows rules h.1 in
      let f : (row.id == r.id) ≡ false = ground (arith, e) in rw (e, f, k) refl
]

any_old-any_vanished :
    (now : ℕ) (rules : List NodeRule) → any_old now rules ≡ any_vanished now [] rules
unfolding any_old any_vanished is_listed
any_old-any_vanished now [] = refl
any_old-any_vanished now (r ∷ rules) = ground (arith, any_old-any_vanished now rules)

stays_true :
    (now : ℕ) (rows : List RowRule) (rules : List NodeRule)
    → (compare_rows now rows (true, rules)).0 ≡ true
unfolding compare_rows compare_row
stays_true now [] rules = refl
stays_true now (row ∷ rows) rules = elim (Option-cases (rules_find row.id rules)) [
  | inl e ↦ rw (e, compare_rows, compare_row) (stays_true now rows rules)
  | inr (r, e) ↦ elim (Bool-cases (same r.md5 (take 32 row.md5))) [
    | inl f ↦
        rw (e, f, compare_rows, compare_row) (stays_true now rows (touch_rule now row.id rules))
    | inr f ↦ rw (e, f, compare_rows, compare_row) (stays_true now rows rules)
  ]
]

-- One row.
compared :
    (now : ℕ) (row : RowRule) (rules : List NodeRule)
    → compare_row now row (false, rules)
      ≡ (if differs row rules then (true, rules) else (false, touch_rule now row.id rules))
unfolding compare_row
compared now row rules = elim (Option-cases (rules_find row.id rules)) [
  | inl e ↦ rw (e, compare_row, differs) refl
  | inr (r, e) ↦ elim (Bool-cases (same r.md5 (take 32 row.md5))) [
    | inl f ↦ rw (e, f, compare_row, differs) refl
    | inr f ↦ rw (e, f, compare_row, differs) refl
  ]
]

-- The loop of `rules_sync`, and the walk after it.
compare_rows-flag :
    (now : ℕ) (rows : List RowRule) (rules : List NodeRule)
    → DistinctRules rules
    → let (flag, rules') = compare_rows now rows (false, rules) in
      (if flag then true else any_old now rules')
      ≡ (any_differs rows rules || any_vanished now rows rules)
unfolding compare_rows any_differs
compare_rows-flag now [] rules h = any_old-any_vanished now rules
compare_rows-flag now (row ∷ rows) rules h = elim (Bool-cases (differs row rules)) [
  | inl e ↦
      let c = compared now row rules in
      let c = rw e at c in rw (c, compare_rows, stays_true now rows rules, e) refl
  | inr e ↦
      let c = compared now row rules in
      let c = rw e at c in
      let touched = touch_rule now row.id rules in
      let i = compare_rows-flag now rows touched (touch_rule-Distinct now row.id rules h) in
      rw (c, compare_rows, e)
        (i
          ∙ rw
              (
                any_differs-touch_rule now row.id rows rules,
                any_vanished-touch_rule now row rows rules h,
              )
              refl)
]

insert_rows-rules_of :
    (mem : ℕ → Bool × Bool) (rows : List RowRule) (u : NodeUser)
    → ((id : ℕ) → mem id ≡ (true, true))
    → insert_rows mem rows u ≡ record u { id_rules = u.id_rules ++ rules_of rows }
unfolding insert_rows rules_insert rules_of
insert_rows-rules_of mem [] u h = rw (append-nil u.id_rules) refl
insert_rows-rules_of mem (row ∷ rows) u h =
    let i =
      insert_rows-rules_of mem rows (record u { id_rules = u.id_rules ++ (rule_of row ∷ []) }) h in
    rw (h row.id) (
      i
      ∙ ap (λ l. record u { id_rules = l })
          (append_assoc u.id_rules (rule_of row ∷ []) (rules_of rows)))

-- The database answers the loading with some rows and `rules_sync` with others: the two queries
-- are not the same, and order their rows each in its way.
pub record Answers {Db : Type 0} (db : UserDb Db) (id : ℕ) (rows listed : List RowRule)
    : Type 0 where
  pub opens : (d : Db) → (db.store.open_session d).0 ≡ true
  pub loads : (d : Db) → (db.load_rules id d).0 ≡ some rows
  pub lists : (d : Db) → (db.list_rules id d).0 ≡ some listed

module _ {Db : Type 0} (db : UserDb Db) (rows listed : List RowRule) where
  loaded :
      (mem : ℕ → Bool × Bool) (u : NodeUser) (d : Db)
      → ((id : ℕ) → mem id ≡ (true, true))
      → Answers db u.id rows listed
      → u.id_rules ≡ []
      → (d' : Db) × (rules_mysql_load db mem u d
          ≡ (true, record u { id_rules = rules_of rows }, d'))
  unfolding rules_mysql_load rules_init
  loaded mem u d h a z =
      let i =
        insert_rows-rules_of mem rows u h
        ∙ ap (λ l. record u { id_rules = l ++ rules_of rows }) z in
      let d₁ = (db.store.open_session d).1 in
      (db.store.close (db.load_rules u.id d₁).1, rw (z, a.opens d, a.loads d₁, i) refl)

  asked_again :
      (now : ℕ) (u : NodeUser) (d : Db)
      → Answers db u.id rows listed
      → DistinctRules (rules_of rows)
      → (rules_sync db now (record u { id_rules = rules_of rows }) d).0
        ≡ (any_differs listed (rules_of rows) || any_vanished now listed (rules_of rows))
  unfolding rules_sync
  asked_again now u d a w =
      let d₁ = (db.store.open_session d).1 in
      rw (a.opens d, a.lists d₁) (compare_rows-flag now listed (rules_of rows) w)

-- Where the loading of the rules of a user without rules is answered with rows of which no
-- identifier is twice, and there is memory, it succeeds with a rule for each row, in their order. A
-- later `rules_sync`, answered with rows in whatever order, asks for another loading exactly if one
-- of these has no rule or a rule with another fingerprint, or a rule has none of these and 90
-- seconds have passed on the clock.
pub rules_sync-rules_mysql_load :
    {Db : Type 0} (db : UserDb Db) (mem : ℕ → Bool × Bool) (now : ℕ) (rows listed : List RowRule)
    (u : NodeUser) (d e : Db)
    → ((id : ℕ) → mem id ≡ (true, true))
    → Answers db u.id rows listed
    → DistinctRules (rules_of rows)
    → u.id_rules ≡ []
    → let (ok, u', d') = rules_mysql_load db mem u d in
      let (flag, u″, e') = rules_sync db now u' e in
      (ok ≡ true)
      × (u'.id_rules ≡ rules_of rows)
      × (flag ≡ (any_differs listed (rules_of rows) || any_vanished now listed (rules_of rows)))
rules_sync-rules_mysql_load db mem now rows listed u d e h a w z =
    let (d', l) = loaded db rows listed mem u d h a z in
    rw l (refl, refl, asked_again db rows listed now u e a w)
