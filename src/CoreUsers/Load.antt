-- ===== src/CoreUsers/Load.antt =====
-- The rules of a user and the database, in src/core_users.c: `rules_sync`, `rules_mysql_load`,
-- `rules_mysql_unload` and what they call. `none` is a fault of the export.
use ipstat.Base.{
  ℕ, ◌-◌, ◌%◌, ◌^◌, Bool, true, false, not, ◌||◌, Option, none, some, List, [], ◌∷◌, ◌++◌, ◌==◌,
  ltb, take, if◌then◌else◌, ◌>>=◌,
}
use ipstat.Base.Memory.{bytes_compare}
use ipstat.Gtree.Write.{same}
use ipstat.CoreUsers.Data.{NodeRule, NodeUser, service_traffic, service_squid}
use ipstat.CoreUsers.Export.{CoreStore, rules_sync_traffic}

-- A row of Users; `addr` is what `hostbyip` makes of the column, 0 where it is no address.
pub record RowUser : Type 0 where
  pub id : ℕ
  pub addr : ℕ
  pub mac : List ℕ
  pub status : ℕ
  pub id_group : ℕ
  pub md5 : List ℕ

-- A row of Rules with its type of traffic.
pub record RowRule : Type 0 where
  pub id : ℕ
  pub direct : ℕ
  pub proto : ℕ
  pub net : ℕ
  pub mask : ℕ
  pub ports : ℕ
  pub action : ℕ
  pub status : ℕ
  pub id_type : ℕ
  pub id_group : ℕ
  pub md5 : List ℕ

-- The database: the calls that export, and the queries that read rows, `none` where one is refused.
pub record UserDb (Db : Type 0) : Type 0 where
  pub store : CoreStore Db
  pub list_users : Db → Option (List RowUser) × Db
  pub one_user : ℕ → Db → Option (List RowUser) × Db
  pub list_rules : ℕ → Db → Option (List RowRule) × Db
  pub load_rules : ℕ → Db → Option (List RowRule) × Db

-- `g_list_find_custom` with the comparison of identifiers.
unfoldable pub rules_find : ℕ → List NodeRule → Option NodeRule
rules_find key [] = none
rules_find key (r ∷ rules) = if r.id == key then some r else rules_find key rules

-- `node_rule->time_live = …`
unfoldable pub touch_rule : ℕ → ℕ → List NodeRule → List NodeRule
touch_rule now key [] = []
touch_rule now key (r ∷ rules) =
    if r.id == key then record r { time_live = now } ∷ rules else r ∷ touch_rule now key rules

-- One row in the loop of `rules_sync`, and the loop.
unfoldable pub compare_row : ℕ → RowRule → Bool × List NodeRule → Bool × List NodeRule
compare_row now row (flag, rules) = elim (rules_find row.id rules) [
  | none ↦ (true, rules)
  | some r ↦
      if same r.md5 (take 32 row.md5) then (flag, touch_rule now row.id rules) else (true, rules)
]

unfoldable pub compare_rows : ℕ → List RowRule → Bool × List NodeRule → Bool × List NodeRule
compare_rows now [] s = s
compare_rows now (row ∷ rows) s = compare_rows now rows (compare_row now row s)

-- Whether a rule has outlived its row.
unfoldable pub any_old : ℕ → List NodeRule → Bool
any_old now [] = false
any_old now (r ∷ rules) = ltb 90 (now - r.time_live) || any_old now rules

-- A rule of a row. The price is left out.
unfoldable pub rule_of : RowRule → NodeRule
rule_of row = record {
  id = row.id;
  id_type = row.id_type;
  id_group = row.id_group;
  service = if row.proto % 2 ^ 8 == 254 then service_squid else service_traffic;
  direct = row.direct % 2 ^ 8;
  proto = row.proto % 2 ^ 8;
  net = row.net;
  mask = row.mask % 2 ^ 8;
  ports = row.ports;
  action = row.action % 2 ^ 8;
  status = row.status % 2 ^ 8;
  traffic = 0;
  md5 = take 32 row.md5;
  time_live = 0;
}

-- `rules_insert`: whether there is memory for the node and for the list's cell.
unfoldable pub rules_insert : Bool × Bool → NodeUser → NodeRule → Bool × NodeUser
rules_insert (node_mem, cell_mem) u r =
    if node_mem
    then (true, record u { id_rules = (if cell_mem then u.id_rules ++ (r ∷ []) else []) })
    else (false, u)

unfoldable pub insert_rows : (ℕ → Bool × Bool) → List RowRule → NodeUser → NodeUser
insert_rows mem [] u = u
insert_rows mem (row ∷ rows) u = insert_rows mem rows (rules_insert (mem row.id) u (rule_of row)).1

unfoldable pub rules_init : NodeUser → Bool
rules_init u = elim u.id_rules [ [] ↦ true | r ∷ rules ↦ false ]

unfoldable pub rules_clean : NodeUser → Bool × NodeUser
rules_clean u = (true, record u { id_rules = [] })

module _ {Db : Type 0} (db : UserDb Db) where
  -- Whether the rules are to be loaded again.
  unfoldable pub rules_sync : ℕ → NodeUser → Db → Bool × NodeUser × Db
  rules_sync now u d =
      let (opened, d₁) = db.store.open_session d in
      let (answer, d₂) = db.list_rules u.id d₁ in
      if not opened then (false, u, d₁) else elim answer [
        | none ↦ (false, u, db.store.close d₂)
        | some rows ↦
            let (flag, rules) = compare_rows now rows (false, u.id_rules) in
            (
              (if flag then true else any_old now rules),
              record u { id_rules = rules },
              db.store.close d₂,
            )
      ]

  unfoldable pub rules_mysql_load : (ℕ → Bool × Bool) → NodeUser → Db → Bool × NodeUser × Db
  rules_mysql_load mem u d =
      let (opened, d₁) = db.store.open_session d in
      let (answer, d₂) = db.load_rules u.id d₁ in
      if not (rules_init u)
      then (false, u, d)
      else (if not opened then (true, u, d₁) else elim answer [
        | none ↦ (false, u, db.store.close d₂)
        | some rows ↦ (true, insert_rows mem rows u, db.store.close d₂)
      ])

  unfoldable pub rules_mysql_unload : NodeUser → Db → Option (Bool × NodeUser × Db)
  rules_mysql_unload u d = do
    (ok, u', d') ← rules_sync_traffic db.store u d
    some (if ok then (true, (rules_clean u').1, d') else (false, u', d'))
