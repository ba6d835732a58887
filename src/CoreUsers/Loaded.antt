-- ===== src/CoreUsers/Loaded.antt =====
-- A loaded table of users of src/core_users.c, and the calls that keep it.
use ipstat.Base.{
  ℕ, ◌-◌, ◌≡◌, refl, sym, ap, ◌∙◌, true, false, none, some, List, [], ◌∷◌, ltb, length, arith, Bool,
  Option, ◌==◌, if◌then◌else◌, Ensures, Returns, Returns-bind, Bool-cases, Option-cases, inl, inr,
}
use mathlib.Core.Path.{subst}
use ipstat.Base.Memory.{bytes_compare}
use ipstat.CoreUsers.Data.{NodeRule, NodeUser, Core}
use ipstat.CoreUsers.Table.{is_null, users_of, find_id, write_user, users_insert, users_delete}
use ipstat.CoreUsers.Distinct.{Distinct, IsTable, users_delete-IsTable}
use ipstat.CoreUsers.Export.{
  CoreStore, RowPrice, rule_price, export_rule, set_autocommit, start_transaction, pay,
  rules_mysql_export, export_rules, users_mysql_export, rules_sync_traffic, export_user_sums,
  export_users, users_sync_traffic,
}
use ipstat.CoreUsers.Rules.{outside_sum}
use ipstat.CoreUsers.Ledger.{Priced}
use ipstat.CoreUsers.Sync.{put_user, delete_old}

-- Loaded, with distinct identifiers and the right count.
abbrev pub IsLoaded : Core → Type 0
IsLoaded c = IsTable c × (is_null c ≡ false)

write_user-absent :
    (j : ℕ) (v : NodeUser) (us : List NodeUser)
    → find_id j us ≡ none
    → find_id j (write_user v us) ≡ none
unfolding write_user
write_user-absent j v [] e = refl
write_user-absent j v (u ∷ us) e = ground (arith, write_user-absent j v us)

write_user-Distinct : (v : NodeUser) (us : List NodeUser) → Distinct us → Distinct (write_user v us)
unfolding write_user
write_user-Distinct v [] h = tt
write_user-Distinct v (u ∷ us) h =
    ground (arith, write_user-Distinct v us h.1, write_user-absent u.id v us h.0)

length-write_user : (v : NodeUser) (us : List NodeUser) → length (write_user v us) ≡ length us
unfolding write_user
length-write_user v [] = refl
length-write_user v (u ∷ us) = ground (arith, length-write_user v us)

list_of :
    (c : Core) (us : List NodeUser)
    → c.st_users ≡ some us
    → IsLoaded c
    → Distinct us × (c.cur_users ≡ length us)
list_of c us e h =
    let q : users_of c ≡ us = rw e refl in
    (subst Distinct q h.0.distinct, h.0.counted ∙ ap length q)

-- Another list with as many users and no identifier twice.
with_list :
    (c : Core) (us us' : List NodeUser)
    → c.st_users ≡ some us
    → IsLoaded c
    → Distinct us'
    → length us' ≡ length us
    → IsLoaded (record c { st_users = some us' })
with_list c us us' e h d l = (record { distinct = d; counted = (list_of c us e h).1 ∙ sym l }, refl)

no_list : (c : Core) → c.st_users ≡ none → IsLoaded c → ⊥
no_list c e h = ground arith

pub put_user-IsLoaded : (v : NodeUser) (c : Core) → IsLoaded c → IsLoaded (put_user v c)
put_user-IsLoaded v c h = elim (Option-cases c.st_users) [
  | inl e ↦ absurd (no_list c e h)
  | inr (us, e) ↦
      let (d, n) = list_of c us e h in
      rw e
        (with_list c us (write_user v us) e h (write_user-Distinct v us d) (length-write_user v us))
]

users_delete-loaded :
    (cell_mem : Bool) (now key : ℕ) (c : Core)
    → is_null c ≡ false
    → is_null (users_delete cell_mem now c key).0 ≡ false
unfolding users_delete
users_delete-loaded cell_mem now key c h = ground arith

pub users_insert-loaded :
    (c : Core) (v : NodeUser) → is_null c ≡ false → is_null (users_insert true true c v).0 ≡ false
unfolding users_insert
users_insert-loaded c v h = ground arith

pub delete_old-IsLoaded :
    (mem_clean : ℕ → Bool) (now : ℕ) (visit : List NodeUser) (c : Core)
    → IsLoaded c
    → IsLoaded (delete_old mem_clean now visit c)
unfolding delete_old
delete_old-IsLoaded mem_clean now [] c h = h
delete_old-IsLoaded mem_clean now (u ∷ visit) c h = elim (Bool-cases (ltb 90 (now - u.time_live))) [
  | inl e ↦
      let m = mem_clean u.id in
      rw e (
        delete_old-IsLoaded mem_clean now visit (users_delete m now c u.id).0
          ((users_delete-IsTable m now u.id c 0 h.0).0, users_delete-loaded m now u.id c h.1))
  | inr e ↦ rw e (delete_old-IsLoaded mem_clean now visit c h)
]

-- The same users, one by one.
abbrev SameIds : List NodeUser → List NodeUser → Type 0
SameIds [] [] = Unit
SameIds (u ∷ us) (v ∷ vs) = (v.id ≡ u.id) × SameIds us vs
SameIds _ _ = ⊥

SameIds-absent :
    (j : ℕ) (us vs : List NodeUser) → SameIds us vs → find_id j us ≡ none → find_id j vs ≡ none
SameIds-absent j [] [] s e = refl
SameIds-absent j [] (v ∷ vs) s e = absurd s
SameIds-absent j (u ∷ us) [] s e = absurd s
SameIds-absent j (u ∷ us) (v ∷ vs) s e = ground (arith, SameIds-absent j us vs s.1, s.0)

SameIds-Distinct : (us vs : List NodeUser) → SameIds us vs → Distinct us → Distinct vs
SameIds-Distinct [] [] s h = tt
SameIds-Distinct [] (v ∷ vs) s h = absurd s
SameIds-Distinct (u ∷ us) [] s h = absurd s
SameIds-Distinct (u ∷ us) (v ∷ vs) s h =
    (rw s.0 (SameIds-absent u.id us vs s.1 h.0), SameIds-Distinct us vs s.1 h.1)

SameIds-length : (us vs : List NodeUser) → SameIds us vs → length vs ≡ length us
SameIds-length [] [] s = refl
SameIds-length [] (v ∷ vs) s = absurd s
SameIds-length (u ∷ us) [] s = absurd s
SameIds-length (u ∷ us) (v ∷ vs) s = omega (arith, SameIds-length us vs s.1)

-- Where each answer to the query for a price has a row with a price, the exports follow no null
-- pointer.
module _ {Db : Type 0} (store : CoreStore Db)
    (prices : (id : ℕ) (d : Db) → Ensures Priced (store.select (rule_price id) d).0) where
  paid :
      (traffic : ℕ) (answer : Option (List RowPrice)) (d : Db)
      → Ensures Priced answer
      → Returns (λ _. Unit) (pay store traffic answer d)
  unfolding pay
  paid traffic none d p = tt
  paid traffic (some []) d p = absurd p
  paid traffic (some (row ∷ rows)) d p = elim (Option-cases row.price) [
    | inl e ↦ absurd (p e)
    | inr (price, e) ↦ rw e tt
  ]

  exported :
      (r : NodeRule) (traffic : ℕ) (d : Db)
      → Returns (λ _. Unit) (rules_mysql_export store r traffic d)
  unfolding rules_mysql_export
  exported r traffic d =
      let (a, d₁) = store.exec set_autocommit d in
      let (b, d₂) = store.exec start_transaction d₁ in
      let (c, d₃) = store.exec (export_rule r.id traffic) d₂ in
      let p =
        paid traffic (store.select (rule_price r.id) d₃).0 (store.select (rule_price r.id) d₃).1
          (prices r.id d₃) in
      elim (Bool-cases a) [
        | inr e ↦ rw (e, rules_mysql_export) tt
        | inl e ↦ elim (Bool-cases b) [
          | inr f ↦ rw (e, rules_mysql_export) (rw f tt)
          | inl f ↦ elim (Bool-cases c) [
            | inr g ↦ rw (e, rules_mysql_export) (rw f (rw g tt))
            | inl g ↦ elim (Bool-cases (outside_sum r)) [
              | inl k ↦ rw (e, rules_mysql_export) (rw f (rw g (rw k tt)))
              | inr k ↦ rw (e, rules_mysql_export) (rw f (rw g (rw k p)))
            ]
          ]
        ]
      ]

  one_exported :
      (r : NodeRule) (d : Db)
      → Returns
          (λ _. Unit)
          (if r.traffic == 0 then some (true, d) else rules_mysql_export store r r.traffic d)
  one_exported r d = elim (Bool-cases (r.traffic == 0)) [
    | inl e ↦ rw e tt
    | inr e ↦ rw e (exported r r.traffic d)
  ]

  all_exported : (rs : List NodeRule) (d : Db) → Returns (λ _. Unit) (export_rules store rs d)
  unfolding export_rules
  all_exported [] d = tt
  all_exported (r ∷ rs) d =
      Returns-bind (λ _. Unit) (λ _. Unit) _ _ (one_exported r d)
        (λ x _. Returns-bind (λ _. Unit) (λ _. Unit) _ _ (all_exported rs x.1) (λ _ _. tt))

  pub rules_sync_traffic-id :
      (u : NodeUser) (d : Db)
      → Returns (λ (ok, u', d'). u'.id ≡ u.id) (rules_sync_traffic store u d)
  unfolding rules_sync_traffic
  rules_sync_traffic-id u d = elim (Bool-cases (store.open_session d).0) [
    | inr e ↦ rw (e, rules_sync_traffic) refl
    | inl e ↦
        rw (e, rules_sync_traffic)
          (Returns-bind (λ _. Unit) (λ (ok, u', d'). u'.id ≡ u.id) _ _
            (all_exported u.id_rules (store.open_session d).1) (λ _ _. refl))
  ]

  export_user_sums-id :
      (u : NodeUser) (d : Db) → Returns (λ (u', d'). u'.id ≡ u.id) (export_user_sums store u d)
  unfolding export_user_sums
  export_user_sums-id u d = elim (Bool-cases (u.traffic == 0)) [
    | inl e ↦ rw (e, export_user_sums) refl
    | inr e ↦ elim (Bool-cases (users_mysql_export store u.id u.traffic d).0) [
      | inr f ↦ rw (e, f, export_user_sums) refl
      | inl f ↦
          rw (e, f, export_user_sums)
            (Returns-bind {A = Bool × NodeUser × Db} (λ (ok, u', d'). u'.id ≡ u.id)
              (λ (u', d'). u'.id ≡ u.id) _ _
              (rules_sync_traffic-id (record u { traffic = u.traffic - u.traffic })
                (users_mysql_export store u.id u.traffic d).1)
              (λ _ h. h))
    ]
  ]

  export_users-SameIds :
      (us : List NodeUser) (d : Db)
      → Returns (λ (us', d'). SameIds us us') (export_users store us d)
  unfolding export_users
  export_users-SameIds [] d = tt
  export_users-SameIds (u ∷ us) d =
      Returns-bind {A = NodeUser × Db} (λ (u', d'). u'.id ≡ u.id)
        (λ (us', d'). SameIds (u ∷ us) us') _ _ (export_user_sums-id u d)
        (λ x h.
          Returns-bind (λ (us', d'). SameIds us us') (λ (us', d'). SameIds (u ∷ us) us')
            (export_users store us x.1) (λ (us', d₂). some (x.0 ∷ us', d₂))
            (export_users-SameIds us x.1) (λ y k. (h, k)))

  pub users_sync_traffic-IsLoaded :
      (c : Core) (d : Db)
      → IsLoaded c
      → Returns (λ (ok, c', d'). IsLoaded c') (users_sync_traffic store c d)
  unfolding users_sync_traffic
  users_sync_traffic-IsLoaded c d h = elim (Option-cases c.st_users) [
    | inl e ↦ absurd (no_list c e h)
    | inr (us, e) ↦
        let d₁ = (store.open_session d).1 in
        let (u, n) = list_of c us e h in
        elim (Bool-cases (store.open_session d).0) [
          | inr o ↦ rw (h.1, o) h
          | inl o ↦
              rw (e, o)
                (Returns-bind (λ (us', d'). SameIds us us') (λ (ok, c', d'). IsLoaded c')
                  (export_users store us d₁) _ (export_users-SameIds us d₁)
                  (λ x s.
                    with_list c us x.0 e h (SameIds-Distinct us x.0 s u) (SameIds-length us x.0 s)))
        ]
  ]
