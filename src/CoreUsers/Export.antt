-- ===== src/CoreUsers/Export.antt =====
-- `users_sync_traffic` and `rules_sync_traffic` of src/core_users.c: the sums of the users and of
-- their rules go to the database. `none` is a fault: a null pointer is read.
use ipstat.Base.{
  ℕ, ◌-◌, ◌/◌, Bool, true, false, not, Option, none, some, List, [], ◌∷◌, ◌==◌, if◌then◌else◌,
  ◌>>=◌,
}
use ipstat.Base.Int.{add32}
use ipstat.CoreUsers.Data.{NodeRule, NodeUser, Core}
use ipstat.CoreUsers.Table.{is_null, users_of}
use ipstat.CoreUsers.Rules.{outside_sum}
use ipstat.Store.{RowStore}

-- The statements that the file builds. The query reads the user of a rule and its price.
pub data CoreQuery : Type 0 where
  rule_price : ℕ → CoreQuery

-- The price is NULL where the rule's type of traffic is missing. It stands for the `float` that
-- `atof` reads: the code only hands it on.
pub record RowPrice : Type 0 where
  pub id_user : ℕ
  pub price : Option ℕ

pub data CoreExec : Type 0 where
  export_user export_rule : ℕ → ℕ → CoreExec
  set_autocommit start_transaction commit rollback : CoreExec
  charge_balance : (id_user tr_kb price : ℕ) → CoreExec
  save_timestamp : CoreExec

abbrev pub CoreStore : Type 0 → Type 0
CoreStore Db = RowStore Db CoreQuery RowPrice CoreExec

module _ {Db : Type 0} (store : CoreStore Db) where
  unfoldable pub users_mysql_export : ℕ → ℕ → Db → Bool × Db
  users_mysql_export id_sql traffic d = store.exec (export_user id_sql traffic) d

  -- The label `error` of `rules_mysql_export`.
  unfoldable pub undo : Db → Bool × Db
  undo d = (false, (store.exec rollback d).1)

  unfoldable pub finish : Db → Bool × Db
  unfolding undo
  finish d = let (ok, d₁) = store.exec commit d in if ok then (true, d₁) else undo d₁

  unfoldable pub charge : RowPrice → ℕ → ℕ → Db → Bool × Db
  unfolding undo finish
  charge row price traffic d =
      let (ok, d₁) = store.exec (charge_balance row.id_user (traffic / 1024) price) d in
      if ok then finish d₁ else undo d₁

  -- The user pays. `atol` and `atof` read a null pointer where there is no row or no price.
  unfoldable pub pay : ℕ → Option (List RowPrice) → Db → Option (Bool × Db)
  unfolding undo charge
  pay traffic none d = some (undo d)
  pay traffic (some []) d = none
  pay traffic (some (row ∷ rows)) d = do price ← row.price; some (charge row price traffic d)

  -- A rule that stands outside the sum is not paid for.
  unfoldable pub rules_mysql_export : NodeRule → ℕ → Db → Option (Bool × Db)
  unfolding undo finish pay
  rules_mysql_export r traffic d =
      let (a, d₁) = store.exec set_autocommit d in
      let (b, d₂) = store.exec start_transaction d₁ in
      let (c, d₃) = store.exec (export_rule r.id traffic) d₂ in
      if not a
      then some (undo d₁)
      else if not b
      then some (undo d₂)
      else if not c
      then some (undo d₃)
      else if outside_sum r
      then some (finish d₃)
      else let (answer, d₄) = store.select (rule_price r.id) d₃ in pay traffic answer d₄

  -- The rules, with what could not be exported put back.
  unfoldable pub export_rules : List NodeRule → Db → Option (List NodeRule × Db)
  export_rules [] d = some ([], d)
  export_rules (r ∷ rs) d = do
    (ok, d₁) ← (if r.traffic == 0 then some (true, d) else rules_mysql_export r r.traffic d)
    let rest = r.traffic - r.traffic
    (rs', d₂) ← export_rules rs d₁
    some (record r { traffic = if ok then rest else add32 rest r.traffic } ∷ rs', d₂)

  unfoldable pub rules_sync_traffic : NodeUser → Db → Option (Bool × NodeUser × Db)
  rules_sync_traffic u d =
      let (opened, d₁) = store.open_session d in
      if not opened then some (false, u, d₁) else (do
        (rules, d₂) ← export_rules u.id_rules d₁
        some (true, record u { id_rules = rules }, store.close d₂))

  -- One turn of the loop of `users_sync_traffic`.
  unfoldable pub export_user_sums : NodeUser → Db → Option (NodeUser × Db)
  export_user_sums u d =
      let (ok, d₁) = users_mysql_export u.id u.traffic d in
      let rest = u.traffic - u.traffic in
      if u.traffic == 0
      then some (u, d)
      else if not ok
      then some (record u { traffic = add32 rest u.traffic }, d₁)
      else (do (_, u', d₂) ← rules_sync_traffic (record u { traffic = rest }) d₁; some (u', d₂))

  unfoldable pub export_users : List NodeUser → Db → Option (List NodeUser × Db)
  export_users [] d = some ([], d)
  export_users (u ∷ us) d = do
    (u', d₁) ← export_user_sums u d
    (us', d₂) ← export_users us d₁
    some (u' ∷ us', d₂)

  unfoldable pub users_sync_traffic : Core → Db → Option (Bool × Core × Db)
  users_sync_traffic c d =
      let (opened, d₁) = store.open_session d in
      if is_null c then some (false, c, d) else if not opened then some (false, c, d₁) else (do
        (us, d₂) ← export_users (users_of c) d₁
        some (true, record c { st_users = some us }, store.close (store.exec save_timestamp d₂).1))
