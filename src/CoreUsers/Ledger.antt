-- ===== src/CoreUsers/Ledger.antt =====
-- `users_sync_traffic` of src/core_users.c moves traffic from memory to the database and loses none.
use ipstat.Base.{
  ℕ, ◌+◌, ◌/◌, ◌≡◌, refl, ◌∙◌, Bool, true, false, ◌&&◌, ◌||◌, Option, none, some, List, [], ◌∷◌,
  ◌==◌, ==_iff, ◌≢◌, ap, if◌then◌else◌, arith, Bool-cases, Option-cases, inl, inr, Returns, Ensures,
}
use ipstat.CoreUsers.Data.{NodeRule}
use ipstat.CoreUsers.Rules.{outside_sum}
use ipstat.CoreUsers.Export.{
  CoreQuery, RowPrice, CoreExec, rule_price, export_user, export_rule, set_autocommit,
  start_transaction, commit, rollback, charge_balance, CoreStore, undo, finish, charge, pay,
  rules_mysql_export,
}

-- What the database holds for one identifier: the traffic of the user, the traffic of the rule, and
-- what the open transaction adds to the rule; and whether a row of Users and one of Rules, of a type
-- of traffic that has a price, have the identifier.
pub record Held : Type 0 where
  pub user : ℕ
  pub rule : ℕ
  pub pending : ℕ
  pub user_row : Bool
  pub rule_row : Bool

-- An update of a row that is not there changes nothing.
abbrev pub effect : ℕ → CoreExec → Held → Held
effect j (export_user id traffic) h = record h {
  user = h.user + (if (j == id) && h.user_row then traffic else 0);
}
effect j (export_rule id traffic) h = record h {
  pending = h.pending + (if (j == id) && h.rule_row then traffic else 0);
}
effect j start_transaction h = record h { rule = h.rule + h.pending; pending = 0 }
effect j commit h = record h { rule = h.rule + h.pending; pending = 0 }
effect j rollback h = record h { pending = 0 }
effect j _ h = h

abbrev pub is_rollback : CoreExec → Bool
is_rollback rollback = true
is_rollback _ = false

-- The query yields a row with a price.
abbrev pub Priced : List RowPrice → Type 0
Priced [] = ⊥
Priced (row ∷ rows) = row.price ≢ none

-- What the file relies on in the database server: a statement that is accepted has its effect, one
-- that is refused has none, a rollback is made also when the server cannot answer, neither a
-- query nor the opening or closing of a session changes a table, and the query for a rule that has
-- its row and a price, where it is answered, yields them.
pub record IsLedger {Db : Type 0} (store : CoreStore Db) (view : ℕ → Db → Held) : Type 0 where
  pub view-open : (j : ℕ) (d : Db) → view j (store.open_session d).1 ≡ view j d
  pub view-close : (j : ℕ) (d : Db) → view j (store.close d) ≡ view j d
  pub view-select : (j : ℕ) (q : CoreQuery) (d : Db) → view j (store.select q d).1 ≡ view j d
  pub view-exec :
      (j : ℕ) (e : CoreExec) (d : Db)
      → let (ok, d') = store.exec e d in
        view j d' ≡ (if ok || is_rollback e then effect j e (view j d) else view j d)
  pub priced :
      (id : ℕ) (d : Db)
      → (view id d).rule_row ≡ true
      → Ensures Priced (store.select (rule_price id) d).0

module _ {Db : Type 0} (store : CoreStore Db) (view : ℕ → Db → Held)
    (led : IsLedger store view) where
  -- No transaction is open.
  abbrev pub Settled : Db → Type 0
  Settled d = (j : ℕ) → (view j d).pending ≡ 0

  -- The same rows are there.
  abbrev pub SameRows : ℕ → Db → Db → Type 0
  SameRows j d d' =
      ((view j d').user_row ≡ (view j d).user_row) × ((view j d').rule_row ≡ (view j d).rule_row)

  -- The traffic of the users is untouched, the rule has the traffic on success, and no transaction
  -- is open.
  abbrev pub Moved : ℕ → ℕ → Db → Bool × Db → Type 0
  Moved id traffic d (ok, d') =
      (j : ℕ)
      → ((view j d').user ≡ (view j d).user)
        × ((view j d').rule ≡ (view j d).rule + (if ok && (j == id) then traffic else 0))
        × ((view j d').pending ≡ 0)
        × SameRows j d d'

  -- Within the transaction, which has added so much to the rule.
  abbrev Within : ℕ → ℕ → Db → Db → Type 0
  Within id traffic d d₁ =
      (j : ℕ)
      → ((view j d₁).user ≡ (view j d).user)
        × ((view j d₁).rule ≡ (view j d).rule)
        × ((view j d₁).pending ≡ (if j == id then traffic else 0))
        × SameRows j d d₁

  pub ran :
      (j : ℕ) (e : CoreExec) (d : Db)
      → (store.exec e d).0 ≡ true
      → view j (store.exec e d).1 ≡ effect j e (view j d)
  ran j e d h = led.view-exec j e d ∙ rw h refl

  pub refused :
      (j : ℕ) (e : CoreExec) (d : Db)
      → (store.exec e d).0 ≡ false
      → is_rollback e ≡ false
      → view j (store.exec e d).1 ≡ view j d
  refused j e d h r = led.view-exec j e d ∙ rw (h, r) refl

  rolled : (j : ℕ) (d : Db) → view j (store.exec rollback d).1 ≡ effect j rollback (view j d)
  rolled j d =
      led.view-exec j rollback d
      ∙ elim (Bool-cases (store.exec rollback d).0) [ inl e ↦ rw e refl | inr e ↦ rw e refl ]

  undone :
      (id traffic : ℕ) (d d₁ : Db)
      → ((j : ℕ)
          → ((view j d₁).user ≡ (view j d).user)
            × ((view j d₁).rule ≡ (view j d).rule)
            × SameRows j d d₁)
      → Moved id traffic d (undo store d₁)
  unfolding undo
  undone id traffic d d₁ h j =
      rw (rolled j d₁) (omega (arith, (h j).0), omega (arith, (h j).1), refl, (h j).2)

  finished :
      (id traffic : ℕ) (d d₁ : Db) → Within id traffic d d₁ → Moved id traffic d (finish store d₁)
  unfolding finish
  finished id traffic d d₁ h = elim (Bool-cases (store.exec commit d₁).0) [
    | inl e ↦
        rw (e, finish)
          (λ j. rw (ran j commit d₁ e) ((h j).0, ground (arith, (h j).1, (h j).2), refl, (h j).3))
    | inr e ↦
        rw (e, finish)
          (undone id traffic d (store.exec commit d₁).1
            (λ j. rw (refused j commit d₁ e refl) ((h j).0, (h j).1, (h j).3)))
  ]

  charged :
      (id traffic price : ℕ) (row : RowPrice) (d d₁ : Db)
      → Within id traffic d d₁
      → Moved id traffic d (charge store row price traffic d₁)
  unfolding charge
  charged id traffic price row d d₁ h =
      let e = charge_balance row.id_user (traffic / 1024) price in
      elim (Bool-cases (store.exec e d₁).0) [
        | inl k ↦
            rw (k, charge)
              (finished id traffic d (store.exec e d₁).1 (λ j. rw (ran j e d₁ k) (h j)))
        | inr k ↦
            rw (k, charge)
              (undone id traffic d (store.exec e d₁).1
                (λ j. rw (refused j e d₁ k refl) ((h j).0, (h j).1, (h j).3)))
      ]

  paid :
      (id traffic : ℕ) (answer : Option (List RowPrice)) (d d₁ : Db)
      → Within id traffic d d₁
      → Ensures Priced answer
      → Returns (Moved id traffic d) (pay store traffic answer d₁)
  unfolding pay
  paid id traffic none d d₁ h p = undone id traffic d d₁ (λ j. ((h j).0, (h j).1, (h j).3))
  paid id traffic (some []) d d₁ h p = absurd p
  paid id traffic (some (row ∷ rows)) d d₁ h p = elim (Option-cases row.price) [
    | inl e ↦ absurd (p e)
    | inr (price, e) ↦ rw e (charged id traffic price row d d₁ h)
  ]

  -- Nothing has happened yet.
  abbrev Before : Db → Db → Type 0
  Before d d₁ =
      (j : ℕ)
      → ((view j d₁).user ≡ (view j d).user)
        × ((view j d₁).rule ≡ (view j d).rule)
        × ((view j d₁).pending ≡ 0)
        × SameRows j d d₁

  prepared : (d : Db) → Settled d → Before d (store.exec set_autocommit d).1
  prepared d s j = elim (Bool-cases (store.exec set_autocommit d).0) [
    | inl e ↦ rw (ran j set_autocommit d e) (refl, refl, s j, (refl, refl))
    | inr e ↦ rw (refused j set_autocommit d e refl) (refl, refl, s j, (refl, refl))
  ]

  started : (d d₁ : Db) → Before d d₁ → Before d (store.exec start_transaction d₁).1
  started d d₁ b j = elim (Bool-cases (store.exec start_transaction d₁).0) [
    | inl e ↦
        rw (ran j start_transaction d₁ e) ((b j).0, omega (arith, (b j).1, (b j).2), refl, (b j).3)
    | inr e ↦ rw (refused j start_transaction d₁ e refl) (b j)
  ]

  given_up : (id traffic : ℕ) (d d₁ : Db) → Before d d₁ → Moved id traffic d (undo store d₁)
  given_up id traffic d d₁ b = undone id traffic d d₁ (λ j. ((b j).0, (b j).1, (b j).3))

  -- The row of the rule stands where its identifier does.
  pub stands :
      (id j : ℕ) (d : Db)
      → (view id d).rule_row ≡ true
      → ((j == id) && (view j d).rule_row) ≡ (j == id)
  stands id j d h = elim (Bool-cases (j == id)) [
    | inl e ↦
        let q : (view j d).rule_row ≡ true =
          ap (λ k. (view k d).rule_row) ((==_iff j id).0 e) ∙ h in
        rw (e, q) refl
    | inr e ↦ rw e refl
  ]

  -- The update of the rule within the transaction, and what follows it.
  posted :
      (r : NodeRule) (traffic : ℕ) (d d₂ : Db)
      → Before d d₂
      → (view r.id d).rule_row ≡ true
      → (store.exec (export_rule r.id traffic) d₂).0 ≡ true
      → Within r.id traffic d (store.exec (export_rule r.id traffic) d₂).1
  posted r traffic d d₂ b h e j =
      let k = stands r.id j d₂ ((b r.id).3.1 ∙ h) in
      rw (ran j (export_rule r.id traffic) d₂ e)
        ((b j).0, (b j).1, rw k (omega (arith, (b j).2)), (b j).3)

  unposted :
      (r : NodeRule) (traffic : ℕ) (d d₂ : Db)
      → Before d d₂
      → (store.exec (export_rule r.id traffic) d₂).0 ≡ false
      → Before d (store.exec (export_rule r.id traffic) d₂).1
  unposted r traffic d d₂ b e j = rw (refused j (export_rule r.id traffic) d₂ e refl) (b j)

  asked :
      (r : NodeRule) (traffic : ℕ) (d d₃ : Db)
      → Within r.id traffic d d₃
      → (view r.id d).rule_row ≡ true
      → let (answer, d₄) = store.select (rule_price r.id) d₃ in
        Returns (Moved r.id traffic d) (pay store traffic answer d₄)
  asked r traffic d d₃ w h =
      paid r.id traffic (store.select (rule_price r.id) d₃).0 d
        (store.select (rule_price r.id) d₃).1
        (λ j. rw (led.view-select j (rule_price r.id) d₃) (w j))
        (led.priced r.id d₃ ((w r.id).3.1 ∙ h))

  pub export_moved :
      (r : NodeRule) (traffic : ℕ) (d : Db)
      → Settled d
      → (view r.id d).rule_row ≡ true
      → Returns (Moved r.id traffic d) (rules_mysql_export store r traffic d)
  unfolding rules_mysql_export
  export_moved r traffic d s h =
      let (a, d₁) = store.exec set_autocommit d in
      let (b, d₂) = store.exec start_transaction d₁ in
      let (c, d₃) = store.exec (export_rule r.id traffic) d₂ in
      let p = prepared d s in
      let q = started d d₁ p in
      elim (Bool-cases a) [
        | inr e ↦ rw (e, rules_mysql_export) (given_up r.id traffic d d₁ p)
        | inl e ↦ elim (Bool-cases b) [
          | inr f ↦ rw (e, rules_mysql_export) (rw f (given_up r.id traffic d d₂ q))
          | inl f ↦ elim (Bool-cases c) [
            | inr g ↦
                rw (e, rules_mysql_export)
                  (rw f (rw g (given_up r.id traffic d d₃ (unposted r traffic d d₂ q g))))
            | inl g ↦
                let w = posted r traffic d d₂ q h g in
                elim (Bool-cases (outside_sum r)) [
                  | inl k ↦
                      rw (e, rules_mysql_export) (rw f (rw g (rw k (finished r.id traffic d d₃ w))))
                  | inr k ↦
                      rw (e, rules_mysql_export) (rw f (rw g (rw k (asked r traffic d d₃ w h))))
                ]
          ]
        ]
      ]

  -- Where no transaction is open, and the rule has its row and its type of traffic a price,
  -- `rules_mysql_export` follows no null pointer. It either adds the traffic to the rule in the
  -- database and says TRUE, or leaves all sums there as they were and says FALSE; it leaves no
  -- transaction open, and the rows that were there.
  pub rules_mysql_export_atomic :
      (r : NodeRule) (traffic : ℕ) (d : Db)
      → Settled d
      → (view r.id d).rule_row ≡ true
      → Returns (Moved r.id traffic d) (rules_mysql_export store r traffic d)
  rules_mysql_export_atomic r traffic d s h = export_moved r traffic d s h
