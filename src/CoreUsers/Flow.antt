-- ===== src/CoreUsers/Flow.antt =====
-- `users_sync_traffic` of src/core_users.c: the sums in memory and in the database together.
use ipstat.Base.{
  ℕ, ◌+◌, ◌-◌, ◌^◌, ◌<◌, ◌≡◌, refl, sym, ap, ◌∙◌, Bool, true, ◌&&◌, some, List, [], ◌∷◌, ◌==◌,
  if◌then◌else◌, arith, All, Bool-cases, inl, inr, ==_iff, Returns, Returns-bind, Returns-imp,
  ◌>>=◌,
}
use ipstat.Base.Int.{add32}
use ipstat.CoreUsers.Data.{NodeRule, NodeUser, Core}
use ipstat.CoreUsers.Table.{is_null, users_of}
use ipstat.CoreUsers.Export.{
  CoreStore, export_user, save_timestamp, users_mysql_export, rules_mysql_export, export_rules,
  rules_sync_traffic, export_user_sums, export_users, users_sync_traffic,
}
use ipstat.CoreUsers.Ledger.{Held, IsLedger, Settled, SameRows, Moved, ran, refused, export_moved}

-- The traffic in memory of the rule and of the user with an identifier.
abbrev pub rule_sum : ℕ → List NodeRule → ℕ
rule_sum j [] = 0
rule_sum j (r ∷ rs) = (if j == r.id then r.traffic else 0) + rule_sum j rs

abbrev pub user_sum : ℕ → List NodeUser → ℕ
user_sum j [] = 0
user_sum j (u ∷ us) = (if j == u.id then u.traffic else 0) + user_sum j us

abbrev pub rules_sum : ℕ → List NodeUser → ℕ
rules_sum j [] = 0
rules_sum j (u ∷ us) = rule_sum j u.id_rules + rules_sum j us

-- The sums fit their type.
abbrev pub NarrowRules : List NodeRule → Type 0
NarrowRules = All (λ r. r.traffic < 2 ^ 32)

abbrev pub NarrowUsers : List NodeUser → Type 0
NarrowUsers = All (λ u. (u.traffic < 2 ^ 32) × NarrowRules u.id_rules)

module _ {Db : Type 0} (store : CoreStore Db) (view : ℕ → Db → Held)
    (led : IsLedger store view) where
  -- Each user and each rule in memory has its row, and the rule's type of traffic a price.
  abbrev pub RulesStand : List NodeRule → Db → Type 0
  RulesStand rs d = All (λ r. (view r.id d).rule_row ≡ true) rs

  abbrev pub UsersStand : List NodeUser → Db → Type 0
  UsersStand us d = All (λ u. ((view u.id d).user_row ≡ true) × RulesStand u.id_rules d) us

  abbrev Rows : Db → Db → Type 0
  Rows d d' = (j : ℕ) → SameRows store view led j d d'

  RulesStand-Rows :
      (rs : List NodeRule) (d d' : Db) → Rows d d' → RulesStand rs d → RulesStand rs d'
  RulesStand-Rows [] d d' w h = tt
  RulesStand-Rows (r ∷ rs) d d' w h = ((w r.id).1 ∙ h.0, RulesStand-Rows rs d d' w h.1)

  UsersStand-Rows :
      (us : List NodeUser) (d d' : Db) → Rows d d' → UsersStand us d → UsersStand us d'
  UsersStand-Rows [] d d' w h = tt
  UsersStand-Rows (u ∷ us) d d' w h =
      (((w u.id).0 ∙ h.0.0, RulesStand-Rows u.id_rules d d' w h.0.1), UsersStand-Rows us d d' w h.1)

  then_Rows : (d d₁ d₂ : Db) → Rows d d₁ → Rows d₁ d₂ → Rows d d₂
  then_Rows d d₁ d₂ v w j = ((w j).0 ∙ (v j).0, (w j).1 ∙ (v j).1)

  -- One rule: what the export did not take stays in memory.
  abbrev Shifted : NodeRule → Db → ℕ → Db → Type 0
  Shifted r d left d' =
      Settled store view led d'
      × (left < 2 ^ 32)
      × Rows d d'
      × ((j : ℕ)
          → ((view j d').user ≡ (view j d).user)
            × ((if j == r.id then left else 0) + (view j d').rule
                ≡ (if j == r.id then r.traffic else 0) + (view j d).rule))

  abbrev left : NodeRule → Bool → ℕ
  left r ok = if ok then r.traffic - r.traffic else add32 (r.traffic - r.traffic) r.traffic

  shifted :
      (r : NodeRule) (d : Db)
      → Settled store view led d
      → r.traffic < 2 ^ 32
      → (view r.id d).rule_row ≡ true
      → Returns
          (λ (ok, d₁). Shifted r d (left r ok) d₁)
          (if r.traffic == 0 then some (true, d) else rules_mysql_export store r r.traffic d)
  shifted r d s b h = elim (Bool-cases (r.traffic == 0)) [
    | inl e ↦
        rw e
          (s, omega arith, λ j. (refl, refl), λ j. (refl, ground (arith, (==_iff r.traffic 0).0 e)))
    | inr e ↦ rw e (
        Returns-imp (Moved store view led r.id r.traffic d) (λ (ok, d₁). Shifted r d (left r ok) d₁)
          _
          (λ (ok, d₁) m.
            (λ j. (m j).2, ground arith, λ j. (m j).3, λ j. ((m j).0, ground (arith, (m j).1))))
          (export_moved store view led r r.traffic d s h))
  ]

  abbrev RulesKept : List NodeRule → Db → List NodeRule × Db → Type 0
  RulesKept rs d (rs', d') =
      Settled store view led d'
      × NarrowRules rs'
      × Rows d d'
      × ((j : ℕ)
          → ((view j d').user ≡ (view j d).user)
            × (rule_sum j rs' + (view j d').rule ≡ rule_sum j rs + (view j d).rule))

  export_rules-kept :
      (rs : List NodeRule) (d : Db)
      → Settled store view led d
      → NarrowRules rs
      → RulesStand rs d
      → Returns (RulesKept rs d) (export_rules store rs d)
  unfolding export_rules
  export_rules-kept [] d s n h = (s, tt, λ j. (refl, refl), λ j. (refl, refl))
  export_rules-kept (r ∷ rs) d s n h =
      Returns-bind (λ (ok, d₁). Shifted r d (left r ok) d₁) (RulesKept (r ∷ rs) d)
        (if r.traffic == 0 then some (true, d) else rules_mysql_export store r r.traffic d)
        (λ (ok, d₁). export_rules store rs d₁ >>= λ (rs', d₂).
          some (record r { traffic = left r ok } ∷ rs', d₂))
        (shifted r d s n.0 h.0)
        λ (ok, d₁) (s₁, b, v, p).
          Returns-bind (RulesKept rs d₁) (RulesKept (r ∷ rs) d) (export_rules store rs d₁)
            (λ (rs', d₂). some (record r { traffic = left r ok } ∷ rs', d₂))
            (export_rules-kept rs d₁ s₁ n.1 (RulesStand-Rows rs d d₁ v h.1))
            λ (rs', d₂) (s₂, n₂, w, q). (
              s₂,
              (b, n₂),
              then_Rows d d₁ d₂ v w,
              λ j. ((q j).0 ∙ (p j).0, omega (arith, (p j).1, (q j).1)),
            )

  -- One user and its rules.
  abbrev UserKept : NodeUser → Db → NodeUser × Db → Type 0
  UserKept u d (u', d') =
      Settled store view led d'
      × (u'.traffic < 2 ^ 32)
      × NarrowRules u'.id_rules
      × Rows d d'
      × ((j : ℕ)
          → ((if j == u'.id then u'.traffic else 0) + (view j d').user
              ≡ (if j == u.id then u.traffic else 0) + (view j d).user)
            × (rule_sum j u'.id_rules + (view j d').rule ≡ rule_sum j u.id_rules + (view j d).rule))

  opened_Rows : (d : Db) → Rows d (store.open_session d).1
  opened_Rows d j = rw (led.view-open j d) (refl, refl)

  rules_synced :
      (u : NodeUser) (d : Db)
      → Settled store view led d
      → u.traffic < 2 ^ 32
      → NarrowRules u.id_rules
      → RulesStand u.id_rules d
      → Returns (λ (ok, u', d'). UserKept u d (u', d')) (rules_sync_traffic store u d)
  unfolding rules_sync_traffic
  rules_synced u d s b n h =
      let d₁ = (store.open_session d).1 in
      let s₁ : Settled store view led d₁ = λ j. rw (led.view-open j d) (s j) in
      elim (Bool-cases (store.open_session d).0) [
        | inr e ↦
            rw (e, rules_sync_traffic)
              (s₁, b, n, opened_Rows d, λ j. rw (led.view-open j d) (refl, refl))
        | inl e ↦
            rw (e, rules_sync_traffic)
              (Returns-bind (RulesKept u.id_rules d₁) (λ (ok, u', d'). UserKept u d (u', d')) _ _
                (export_rules-kept u.id_rules d₁ s₁ n
                  (RulesStand-Rows u.id_rules d d₁ (opened_Rows d) h))
                λ (rules, d₂) (s₂, n₂, w, q). (
                  λ j. rw (led.view-close j d₂) (s₂ j),
                  b,
                  n₂,
                  λ j. rw (led.view-close j d₂) (then_Rows d d₁ d₂ (opened_Rows d) w j),
                  λ j.
                      rw (led.view-close j d₂, sym (led.view-open j d))
                        (ap (λ n. (if j == u.id then u.traffic else 0) + n) (q j).0, (q j).1),
                ))
      ]

  transfer :
      (mine : Bool) (t left after before middle : ℕ)
      → left + after ≡ (if mine then t - t else 0) + middle
      → middle ≡ before + (if mine then t else 0)
      → left + after ≡ (if mine then t else 0) + before
  transfer mine t left after before middle p q = ground arith

  -- The row of the user stands where its identifier does.
  stands_user :
      (id j : ℕ) (d : Db)
      → (view id d).user_row ≡ true
      → ((j == id) && (view j d).user_row) ≡ (j == id)
  stands_user id j d h = elim (Bool-cases (j == id)) [
    | inl e ↦
        let q : (view j d).user_row ≡ true =
          ap (λ k. (view k d).user_row) ((==_iff j id).0 e) ∙ h in
        rw (e, q) refl
    | inr e ↦ rw e refl
  ]

  export_user_sums-kept :
      (u : NodeUser) (d : Db)
      → Settled store view led d
      → u.traffic < 2 ^ 32
      → NarrowRules u.id_rules
      → (view u.id d).user_row ≡ true
      → RulesStand u.id_rules d
      → Returns (UserKept u d) (export_user_sums store u d)
  unfolding export_user_sums users_mysql_export
  export_user_sums-kept u d s b n k h =
      let x = export_user u.id u.traffic in
      let d₁ = (store.exec x d).1 in
      elim (Bool-cases (u.traffic == 0)) [
        | inl e ↦ rw (e, export_user_sums) (s, b, n, λ j. (refl, refl), λ j. (refl, refl))
        | inr e ↦ elim (Bool-cases (store.exec x d).0) [
          | inr f ↦
              let still = λ (j : ℕ). refused store view led j x d f refl in
              rw (e, export_user_sums)
                (rw f (
                  λ j. rw (still j) (s j),
                  ground arith,
                  n,
                  λ j. rw (still j) (refl, refl),
                  λ j. rw (still j) (ground arith, refl),
                ))
          | inl f ↦
              let went = λ (j : ℕ). ran store view led j x d f in
              let v : Rows d d₁ = λ j. rw (went j) (refl, refl) in
              let paid : (j : ℕ)
                  → (view j d₁).user ≡ (view j d).user + (if j == u.id then u.traffic else 0) =
                λ j.
                  ap (λ w. w.user) (went j)
                  ∙ ap (λ c. (view j d).user + (if c then u.traffic else 0))
                      (stands_user u.id j d k) in
              rw (e, export_user_sums)
                (rw f (
                  Returns-bind
                    (λ (ok, u', d').
                      UserKept (record u { traffic = u.traffic - u.traffic }) d₁ (u', d'))
                    (UserKept u d)
                    (rules_sync_traffic store (record u { traffic = u.traffic - u.traffic }) d₁)
                    (λ (ok, u', d₂). some (u', d₂))
                    (rules_synced (record u { traffic = u.traffic - u.traffic }) d₁
                      (λ j. rw (went j) (s j)) (omega arith) n
                      (RulesStand-Rows u.id_rules d d₁ v h))
                    λ (ok, u', d₂) (s₂, b₂, n₂, w, q). (
                      s₂,
                      b₂,
                      n₂,
                      then_Rows d d₁ d₂ v w,
                      λ j. (
                        transfer (j == u.id) u.traffic _ _ _ _ (q j).0 (paid j),
                        (q j).1 ∙ ap (λ h. rule_sum j u.id_rules + h.rule) (went j),
                      ),
                    )))
        ]
      ]

  abbrev pub UsersKept : List NodeUser → Db → List NodeUser → Db → Type 0
  UsersKept us d us' d' =
      Settled store view led d'
      × NarrowUsers us'
      × ((j : ℕ)
          → (user_sum j us' + (view j d').user ≡ user_sum j us + (view j d).user)
            × (rules_sum j us' + (view j d').rule ≡ rules_sum j us + (view j d).rule))

  export_users-kept :
      (us : List NodeUser) (d : Db)
      → Settled store view led d
      → NarrowUsers us
      → UsersStand us d
      → Returns (λ (us', d'). UsersKept us d us' d') (export_users store us d)
  unfolding export_users
  export_users-kept [] d s n h = (s, tt, λ j. (refl, refl))
  export_users-kept (u ∷ us) d s n h =
      Returns-bind (UserKept u d) (λ (us', d'). UsersKept (u ∷ us) d us' d')
        (export_user_sums store u d)
        (λ (u', d₁). export_users store us d₁ >>= λ (us', d₂). some (u' ∷ us', d₂))
        (export_user_sums-kept u d s n.0.0 n.0.1 h.0.0 h.0.1)
        λ (u', d₁) (s₁, b, m, v, p).
          Returns-bind (λ (us', d'). UsersKept us d₁ us' d')
            (λ (us', d'). UsersKept (u ∷ us) d us' d') (export_users store us d₁)
            (λ (us', d₂). some (u' ∷ us', d₂))
            (export_users-kept us d₁ s₁ n.1 (UsersStand-Rows us d d₁ v h.1))
            λ (us', d₂) (s₂, n₂, q). (
              s₂,
              ((b, m), n₂),
              λ j. (omega (arith, (p j).0, (q j).0), omega (arith, (p j).1, (q j).1)),
            )

  stamped : (j : ℕ) (d : Db) → view j (store.exec save_timestamp d).1 ≡ view j d
  stamped j d = elim (Bool-cases (store.exec save_timestamp d).0) [
    | inl e ↦ ran store view led j save_timestamp d e
    | inr e ↦ refused store view led j save_timestamp d e refl
  ]

  -- Where all sums fit 32 bits, no transaction is open, each user and rule in memory has its row, and
  -- each rule's type of traffic a price, `users_sync_traffic`, whatever statements the database
  -- refuses, follows no null pointer, and loses and invents no traffic: for
  -- each identifier, the sums of the users in memory and the traffic of the user in the database
  -- together stay what they were, and so do those of the rules. The sums still fit 32 bits, and no
  -- transaction is left open.
  pub users_sync_traffic-UsersKept :
      (c : Core) (d : Db)
      → Settled store view led d
      → NarrowUsers (users_of c)
      → UsersStand (users_of c) d
      → Returns
          (λ (ok, c', d'). UsersKept (users_of c) d (users_of c') d')
          (users_sync_traffic store c d)
  unfolding users_sync_traffic
  users_sync_traffic-UsersKept c d s n h =
      let d₁ = (store.open_session d).1 in
      let s₁ : Settled store view led d₁ = λ j. rw (led.view-open j d) (s j) in
      elim (Bool-cases (is_null c)) [
        | inl e ↦ rw (e, users_sync_traffic) (s, n, λ j. (refl, refl))
        | inr e ↦ elim (Bool-cases (store.open_session d).0) [
          | inr f ↦
              rw (e, users_sync_traffic) (rw f (s₁, n, λ j. rw (led.view-open j d) (refl, refl)))
          | inl f ↦
              rw (e, users_sync_traffic)
                (rw f (
                  Returns-bind (λ (us', d'). UsersKept (users_of c) d₁ us' d')
                    (λ (ok, c', d'). UsersKept (users_of c) d (users_of c') d')
                    (export_users store (users_of c) d₁)
                    (λ (us, d₂). some (
                      true,
                      record c { st_users = some us },
                      store.close (store.exec save_timestamp d₂).1,
                    ))
                    (export_users-kept (users_of c) d₁ s₁ n
                      (UsersStand-Rows (users_of c) d d₁ (opened_Rows d) h))
                    λ (us, d₂) (s₂, n₂, q).
                      let d₃ = (store.exec save_timestamp d₂).1 in
                      let ends : (j : ℕ) → view j (store.close d₃) ≡ view j d₂ =
                        λ j. led.view-close j d₃ ∙ stamped j d₂ in
                      (
                        λ j. rw (ends j) (s₂ j),
                        n₂,
                        λ j. rw (ends j, sym (led.view-open j d)) (q j),
                      )))
        ]
      ]
