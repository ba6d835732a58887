-- ===== src/CoreUsers/SyncTable.antt =====
-- `users_sync` of src/core_users.c keeps the table of users.
use ipstat.Base.{
  ℕ, ◌≤◌, ◌≡◌, sym, Bool, true, false, Option, none, some, List, [], ◌∷◌, ◌==◌, length, arith,
  Bool-cases, Option-cases, inl, inr, Ensures, Returns, Returns-bind,
}
use mathlib.Core.Path.{subst}
use ipstat.Base.Memory.{bytes_compare}
use ipstat.CoreUsers.Data.{NodeUser, Core}
use ipstat.CoreUsers.Table.{users_of, users_find, users_insert}
use ipstat.CoreUsers.Distinct.{users_insert-IsTable}
use ipstat.CoreUsers.Export.{rule_price}
use ipstat.CoreUsers.Ledger.{Priced}
use ipstat.CoreUsers.Load.{RowUser, UserDb, rules_mysql_load, rules_mysql_unload}
use ipstat.CoreUsers.Sync.{
  put_user, user_of, users_mysql_delete, load_inserted, insert_users, users_mysql_insert,
  users_mysql_update, user_changed, update_changed, revive, sync_user, sync_users, delete_export,
  users_sync,
}
use ipstat.CoreUsers.Loaded.{
  IsLoaded, put_user-IsLoaded, users_insert-loaded, delete_old-IsLoaded,
  users_sync_traffic-IsLoaded, rules_sync_traffic-id,
}

module _ {Db : Type 0} (db : UserDb Db) (mem mem_rule : ℕ → Bool × Bool) (mem_clean : ℕ → Bool)
    (now : ℕ) (has_mem : (id : ℕ) → mem id ≡ (true, true))
    (single : (id : ℕ) (d : Db) → Ensures (λ rows. length rows ≤ 1) (db.one_user id d).0)
    (prices : (id : ℕ) (d : Db) → Ensures Priced (db.store.select (rule_price id) d).0) where
  user_of-IsLoaded :
      (s_id : ℕ) (row : RowUser) (c : Core)
      → IsLoaded c
      → users_find c s_id ≡ none
      → IsLoaded (users_insert true true c (user_of now s_id row)).0
  unfolding user_of
  user_of-IsLoaded s_id row c h n =
      let v = user_of now s_id row in
      ((users_insert-IsTable c v h.0 h.1 n).0, users_insert-loaded c v h.1)

  load_inserted-IsLoaded :
      (found : Option NodeUser) (c : Core) (d : Db)
      → IsLoaded c
      → IsLoaded (load_inserted db mem mem_rule mem_clean now found c d).0
  unfolding load_inserted
  load_inserted-IsLoaded none c d h = h
  load_inserted-IsLoaded (some u) c d h = put_user-IsLoaded (rules_mysql_load db mem_rule u d).1 c h

  insert_users-IsLoaded :
      (s_id : ℕ) (rows : List RowUser) (c : Core) (d : Db)
      → length rows ≤ 1
      → IsLoaded c
      → users_find c s_id ≡ none
      → IsLoaded (insert_users db mem mem_rule mem_clean now s_id rows c d).0
  unfolding insert_users
  insert_users-IsLoaded s_id [] c d l h n = h
  insert_users-IsLoaded s_id (row ∷ []) c d l h n = elim (Bool-cases (row.addr == 0)) [
    | inl e ↦ rw e h
    | inr e ↦
        let v = user_of now s_id row in
        let i =
          subst (λ (m : Bool × Bool). IsLoaded (users_insert m.0 m.1 c v).0) (sym (has_mem s_id))
            (user_of-IsLoaded s_id row c h n) in
        rw e (load_inserted-IsLoaded (users_insert (mem s_id).0 (mem s_id).1 c v).1 _ d i)
  ]
  insert_users-IsLoaded s_id (row ∷ r ∷ rows) c d l h n = absurd (omega (arith, l))

  users_mysql_insert-IsLoaded :
      (s_id : ℕ) (c : Core) (d : Db)
      → IsLoaded c
      → users_find c s_id ≡ none
      → IsLoaded (users_mysql_insert db mem mem_rule mem_clean now s_id c d).1
  unfolding users_mysql_insert
  users_mysql_insert-IsLoaded s_id c d h n =
      let d₁ = (db.store.open_session d).1 in
      let k = single s_id d₁ in
      elim (Bool-cases (db.store.open_session d).0) [
        | inl o ↦ elim (Option-cases (db.one_user s_id d₁).0) [
          | inl e ↦ rw (h.1, o, e) h
          | inr (rows, e) ↦
              let l = rw e at k in
              rw (h.1, o, e) (insert_users-IsLoaded s_id rows c (db.one_user s_id d₁).1 l h n)
        ]
        | inr o ↦ rw (h.1, o) h
      ]

  unload-Returns : (u : NodeUser) (d : Db) → Returns (λ _. Unit) (rules_mysql_unload db u d)
  unfolding rules_mysql_unload
  unload-Returns u d =
      Returns-bind {A = Bool × NodeUser × Db} (λ (ok, u', d'). u'.id ≡ u.id) (λ _. Unit) _ _
        (rules_sync_traffic-id db.store prices u d) (λ _ _. tt)

  users_mysql_update-IsLoaded :
      (s_id : ℕ) (c : Core) (d : Db)
      → IsLoaded c
      → Returns
          (λ (ok, c', d'). IsLoaded c')
          (users_mysql_update db mem mem_rule mem_clean now s_id c d)
  unfolding users_mysql_update
  users_mysql_update-IsLoaded s_id c d h = elim (Option-cases (users_find c s_id)) [
    | inl e ↦ rw (h.1, e, users_mysql_update) h
    | inr (u, e) ↦
        let d₁ = (db.store.open_session d).1 in
        elim (Bool-cases (db.store.open_session d).0) [
          | inr o ↦ rw (h.1, e, users_mysql_update, o) h
          | inl o ↦
              rw (h.1, e, users_mysql_update, o)
                (Returns-bind {A = Bool × NodeUser × Db} (λ _. Unit) (λ (ok, c', d'). IsLoaded c')
                  (rules_mysql_unload db u d₁) _ (unload-Returns u d₁)
                  (λ x _. elim (Option-cases (db.one_user s_id x.2).0) [
                    | inl f ↦ rw f (put_user-IsLoaded x.1 c h)
                    | inr (rows, f) ↦ rw f (put_user-IsLoaded _ c h)
                  ]))
        ]
  ]

  update_changed-IsLoaded :
      (changed : Bool) (s_id : ℕ) (c : Core) (d : Db)
      → IsLoaded c
      → Returns
          (λ (c', d'). IsLoaded c')
          (update_changed db mem mem_rule mem_clean now changed s_id c d)
  unfolding update_changed
  update_changed-IsLoaded true s_id c d h =
      Returns-bind {A = Bool × Core × Db} (λ (ok, c', d'). IsLoaded c') (λ (c', d'). IsLoaded c') _
        _ (users_mysql_update-IsLoaded s_id c d h) (λ _ k. k)
  update_changed-IsLoaded false s_id c d h = h

  revive-IsLoaded :
      (s_id : ℕ) (c : Core) → IsLoaded c → IsLoaded (revive db mem mem_rule mem_clean now s_id c)
  unfolding revive
  revive-IsLoaded s_id c h = elim (Option-cases (users_find c s_id)) [
    | inl e ↦ rw (e, revive) h
    | inr (v, e) ↦ rw (e, revive) (put_user-IsLoaded (record v { time_live = now }) c h)
  ]

  sync_user-IsLoaded :
      (row : RowUser) (c : Core) (d : Db)
      → IsLoaded c
      → Returns (λ (c', d'). IsLoaded c') (sync_user db mem mem_rule mem_clean now row c d)
  unfolding sync_user
  sync_user-IsLoaded row c d h = elim (Option-cases (users_find c row.id)) [
    | inl e ↦ rw (e, sync_user) (users_mysql_insert-IsLoaded row.id c d h e)
    | inr (u, e) ↦
        let (changed, u₁, d₁) = user_changed db mem mem_rule mem_clean now row u d in
        rw (e, sync_user)
          (Returns-bind {A = Core × Db} (λ (c', d'). IsLoaded c') (λ (c', d'). IsLoaded c') _ _
            (update_changed-IsLoaded changed row.id (put_user u₁ c) d₁ (put_user-IsLoaded u₁ c h))
            (λ x k. revive-IsLoaded row.id x.0 k))
  ]

  sync_users-IsLoaded :
      (rows : List RowUser) (c : Core) (d : Db)
      → IsLoaded c
      → Returns (λ (c', d'). IsLoaded c') (sync_users db mem mem_rule mem_clean now rows c d)
  unfolding sync_users
  sync_users-IsLoaded [] c d h = h
  sync_users-IsLoaded (row ∷ rows) c d h =
      Returns-bind {A = Core × Db} (λ (c', d'). IsLoaded c') (λ (c', d'). IsLoaded c') _ _
        (sync_user-IsLoaded row c d h) (λ x k. sync_users-IsLoaded rows x.0 x.1 k)

  delete_export-IsLoaded :
      (c : Core) (d : Db)
      → IsLoaded c
      → Returns (λ (ok, c', d'). IsLoaded c') (delete_export db mem mem_rule mem_clean now c d)
  unfolding delete_export users_mysql_delete
  delete_export-IsLoaded c d h =
      Returns-bind {A = Bool × Core × Db} (λ (ok, c', d'). IsLoaded c')
        (λ (ok, c', d'). IsLoaded c') _ _
        (users_sync_traffic-IsLoaded db.store prices (users_mysql_delete mem_clean now c).1 d
          (rw h.1 (delete_old-IsLoaded mem_clean now (users_of c) c h)))
        (λ _ k. k)

  -- Where there is memory for the nodes of users, a query for one user has one row at most, and an
  -- answer to the query for a price has a row with a price,
  -- `users_sync` follows no null pointer and keeps the table, whatever the database answers and refuses: the list of users is there, no
  -- identifier is twice in it, and its count is right.
  pub users_sync-IsLoaded :
      (c : Core) (d : Db)
      → IsLoaded c
      → Returns (λ (ok, c', d'). IsLoaded c') (users_sync db mem mem_rule mem_clean now c d)
  unfolding users_sync
  users_sync-IsLoaded c d h =
      let d₁ = (db.store.open_session d).1 in
      let (answer, d₂) = db.list_users d₁ in
      elim (Bool-cases (db.store.open_session d).0) [
        | inl o ↦ elim (Option-cases (db.list_users d₁).0) [
          | inl e ↦ rw (h.1, o, e) h
          | inr (rows, e) ↦
              rw (h.1, o, e)
                (Returns-bind {A = Core × Db} (λ (c', d'). IsLoaded c')
                  (λ (ok, c', d'). IsLoaded c') _ _ (sync_users-IsLoaded rows c d₂ h)
                  (λ x k. delete_export-IsLoaded x.0 (db.store.close x.1) k))
        ]
        | inr o ↦ rw (h.1, o) (delete_export-IsLoaded c d₁ h)
      ]
