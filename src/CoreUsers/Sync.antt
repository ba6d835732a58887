-- ===== src/CoreUsers/Sync.antt =====
-- The users and the database, in src/core_users.c: `users_sync` and the functions that read Users.
-- `none` is a fault of the export.
use ipstat.Base.{
  ℕ, ◌-◌, ◌%◌, ◌^◌, Bool, true, false, not, Option, none, some, List, [], ◌∷◌, ◌==◌, ltb, take,
  if◌then◌else◌, ◌>>=◌,
}
use ipstat.Base.Memory.{bytes_compare}
use ipstat.Gtree.Write.{same}
use ipstat.CoreUsers.Data.{NodeUser, Core}
use ipstat.CoreUsers.Table.{is_null, users_of, users_find, write_user, users_insert, users_delete}
use ipstat.CoreUsers.Export.{users_sync_traffic}
use ipstat.CoreUsers.Load.{RowUser, UserDb, rules_sync, rules_mysql_load, rules_mysql_unload}

-- A write through a pointer to the node.
abbrev pub put_user : NodeUser → Core → Core
put_user u c = elim c.st_users [
  | none ↦ c
  | some us ↦ record c { st_users = some (write_user u us) }
]

-- The node that `users_mysql_insert` makes of a row.
unfoldable pub user_of : ℕ → ℕ → RowUser → NodeUser
user_of now s_id row = record {
  id = s_id;
  id_group = row.id_group;
  addr = row.addr;
  mac = take 18 row.mac;
  traffic = 0;
  id_rules = [];
  md5 = take 32 row.md5;
  status = row.status % 2 ^ 8;
  time_live = now;
}

-- The loop of `users_mysql_update` over the rows of the user.
unfoldable pub renew_user : ℕ → List RowUser → NodeUser → NodeUser
renew_user s_id [] u = u
renew_user s_id (row ∷ rows) u = renew_user s_id rows (
    if row.addr == 0 then u else record u {
      id = s_id;
      addr = row.addr;
      status = row.status % 2 ^ 8;
      id_group = row.id_group;
      md5 = take 32 row.md5;
      mac = take 18 row.mac;
    })

-- The walk of `users_mysql_delete`. `mem_clean` says whether there is memory for a user's cell of
-- `clean_list`.
unfoldable pub delete_old : (ℕ → Bool) → ℕ → List NodeUser → Core → Core
delete_old mem_clean now [] c = c
delete_old mem_clean now (u ∷ visit) c =
    delete_old mem_clean now visit
      (if ltb 90 (now - u.time_live) then (users_delete (mem_clean u.id) now c u.id).0 else c)

unfoldable pub users_mysql_delete : (ℕ → Bool) → ℕ → Core → Bool × Core
users_mysql_delete mem_clean now c =
    if is_null c then (false, c) else (true, delete_old mem_clean now (users_of c) c)

-- Whether there is memory for a user's node and cell, and for those of a rule.
module _ {Db : Type 0} (db : UserDb Db) (mem mem_rule : ℕ → Bool × Bool) (mem_clean : ℕ → Bool)
    (now : ℕ) where
  -- The rules of a user that was inserted.
  unfoldable pub load_inserted : Option NodeUser → Core → Db → Core × Db
  load_inserted none c d = (c, d)
  load_inserted (some u) c d =
      let (_, u', d') = rules_mysql_load db mem_rule u d in (put_user u' c, d')

  -- The loop of `users_mysql_insert`.
  unfoldable pub insert_users : ℕ → List RowUser → Core → Db → Core × Db
  insert_users s_id [] c d = (c, d)
  insert_users s_id (row ∷ rows) c d =
      let (node_mem, cell_mem) = mem s_id in
      let (c', found) = users_insert node_mem cell_mem c (user_of now s_id row) in
      let (c″, d″) = load_inserted found c' d in
      if row.addr == 0 then insert_users s_id rows c d else insert_users s_id rows c″ d″

  unfoldable pub users_mysql_insert : ℕ → Core → Db → Bool × Core × Db
  users_mysql_insert s_id c d =
      let (opened, d₁) = db.store.open_session d in
      let (answer, d₂) = db.one_user s_id d₁ in
      if is_null c then (false, c, d) else if not opened then (true, c, d₁) else elim answer [
        | none ↦ (false, c, db.store.close d₂)
        | some rows ↦ let (c', d₃) = insert_users s_id rows c d₂ in (true, c', db.store.close d₃)
      ]

  unfoldable pub users_mysql_update : ℕ → Core → Db → Option (Bool × Core × Db)
  users_mysql_update s_id c d = if is_null c then some (false, c, d) else elim (users_find c s_id) [
    | none ↦ some (true, c, d)
    | some u ↦
        let (opened, d₁) = db.store.open_session d in
        if not opened then some (true, c, d₁) else (do
          (_, u₁, d₂) ← rules_mysql_unload db u d₁
          let (answer, d₃) = db.one_user s_id d₂
          some (elim answer [
            | none ↦ (false, put_user u₁ c, db.store.close d₃)
            | some rows ↦
                let (_, u₂, d₄) = rules_mysql_load db mem_rule (renew_user s_id rows u₁) d₃ in
                (true, put_user u₂ c, db.store.close d₄)
          ]))
  ]

  -- Whether the row or the rules of a user have changed.
  unfoldable pub user_changed : RowUser → NodeUser → Db → Bool × NodeUser × Db
  user_changed row u d =
      if same u.md5 (take 32 row.md5) then rules_sync db now u d else (true, u, d)

  unfoldable pub update_changed : Bool → ℕ → Core → Db → Option (Core × Db)
  update_changed changed s_id c d =
      if not changed
      then some (c, d)
      else (do (_, c', d') ← users_mysql_update s_id c d; some (c', d'))

  -- `node->time_live = time(NULL)`
  unfoldable pub revive : ℕ → Core → Core
  revive s_id c = elim (users_find c s_id) [
    | none ↦ c
    | some v ↦ put_user (record v { time_live = now }) c
  ]

  -- One row in the loop of `users_sync`.
  unfoldable pub sync_user : RowUser → Core → Db → Option (Core × Db)
  sync_user row c d = elim (users_find c row.id) [
    | none ↦ let (_, c', d') = users_mysql_insert row.id c d in some (c', d')
    | some u ↦
        let (changed, u₁, d₁) = user_changed row u d in
        (do
          (c₂, d₂) ← update_changed changed row.id (put_user u₁ c) d₁
          some (revive row.id c₂, d₂))
  ]

  unfoldable pub sync_users : List RowUser → Core → Db → Option (Core × Db)
  sync_users [] c d = some (c, d)
  sync_users (row ∷ rows) c d = do (c', d') ← sync_user row c d; sync_users rows c' d'

  -- The end of `users_sync`: the old users are deleted and the sums exported.
  unfoldable pub delete_export : Core → Db → Option (Bool × Core × Db)
  delete_export c d = do
    (_, c', d') ← users_sync_traffic db.store (users_mysql_delete mem_clean now c).1 d
    some (true, c', d')

  -- Where no session opens, the end is reached all the same.
  unfoldable pub users_sync : Core → Db → Option (Bool × Core × Db)
  users_sync c d =
      let (opened, d₁) = db.store.open_session d in
      let (answer, d₂) = db.list_users d₁ in
      if is_null c
      then some (false, c, d)
      else if not opened
      then delete_export c d₁
      else elim answer [
        | none ↦ some (false, c, db.store.close d₂)
        | some rows ↦ do (c', d₃) ← sync_users rows c d₂; delete_export c' (db.store.close d₃)
      ]

  -- `core_scheduler`, the job.
  unfoldable pub core_scheduler : Core → Db → Option (Bool × Core × Db)
  core_scheduler c d = do (_, c', d') ← users_sync c d; some (true, c', d')
