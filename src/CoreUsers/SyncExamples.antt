-- ===== src/CoreUsers/SyncExamples.antt =====
-- Tests of the synchronisation of users and rules in src/core_users.c.
use ipstat.Base.{
  ℕ, ◌≤◌, ◌≡◌, refl, Bool, true, false, some, List, [], ◌∷◌, ◌==◌, length, if◌then◌else◌, arith,
  Ensures, Returns, ◌||◌,
}
use ipstat.Base.Memory.{bytes_compare, memcmp}
use ipstat.CoreUsers.Data.{NodeUser, Core}
use ipstat.CoreUsers.Export.{
  RowPrice, rule_price, CoreStore, rules_sync_traffic, rules_mysql_export, export_rules,
}
use ipstat.CoreUsers.Load.{
  RowUser, RowRule, UserDb, rule_of, rules_find, rules_sync, rules_mysql_load, rules_mysql_unload,
  rules_clean,
}
use ipstat.CoreUsers.Sync.{users_sync}
use ipstat.CoreUsers.Loaded.{IsLoaded}
use ipstat.CoreUsers.SyncTable.{users_sync-IsLoaded}
use ipstat.CoreUsers.Reload.{
  rules_of, any_differs, any_vanished, is_listed, DistinctRules, Answers,
  rules_sync-rules_mysql_load,
}
use ipstat.CoreUsers.Ledger.{Priced}

abbrev row_7 : RowUser
row_7 = record { id = 7; addr = 167; mac = []; status = 1; id_group = 2; md5 = 97 ∷ [] }

abbrev row_9 : RowUser
row_9 = record { id = 9; addr = 169; mac = []; status = 1; id_group = 2; md5 = 98 ∷ [] }

abbrev rule_row : ℕ → RowRule
rule_row id = record {
  id = id;
  direct = 3;
  proto = 254;
  net = 0;
  mask = 0;
  ports = 0;
  action = 0;
  status = 1;
  id_type = 5;
  id_group = 6;
  md5 = 99 ∷ [];
}

abbrev rule_rows : List RowRule
rule_rows = rule_row 1 ∷ rule_row 2 ∷ []

abbrev priced_row : RowPrice
priced_row = record { id_user = 7; price = some 2 }

-- The state says whether statements are accepted.
abbrev a_store : CoreStore Bool
a_store = record {
  open_session = λ d. (true, d);
  select = λ q d. (some (priced_row ∷ []), d);
  exec = λ e d. (d, d);
  close = λ d. d;
}

abbrev users_like : ℕ → List RowUser
users_like id = if id == 7 then row_7 ∷ [] else if id == 9 then row_9 ∷ [] else []

abbrev a_db : UserDb Bool
a_db = record {
  store = a_store;
  list_users = λ d. (some (row_7 ∷ row_9 ∷ []), d);
  one_user = λ id d. (some (users_like id), d);
  list_rules = λ id d. (some (rule_row 2 ∷ rule_row 1 ∷ []), d);
  load_rules = λ id d. (some rule_rows, d);
}

abbrev old_user : ℕ → NodeUser
old_user id = record {
  id = id;
  id_group = 1;
  addr = 160;
  mac = [];
  traffic = 0;
  id_rules = [];
  md5 = [];
  status = 0;
  time_live = 100;
}

-- User 7 has changed, user 8 is gone, user 9 is new.
abbrev before : Core
before = record {
  st_users = some (old_user 7 ∷ old_user 8 ∷ []);
  clean_list = [];
  cur_users = 2;
  extern_auth = [];
  extern_autz = [];
  extern_acct = [];
}

before-IsLoaded : IsLoaded before
before-IsLoaded = (record { distinct = (refl, (refl, tt)); counted = refl }, refl)

one_row : (id : ℕ) (d : Bool) → Ensures (λ rows. length rows ≤ 1) (a_db.one_user id d).0
one_row id d = ground arith

priced : (id : ℕ) (d : Bool) → Ensures Priced (a_store.select (rule_price id) d).0
priced id d e = cc

users_sync-IsLoaded_example :
    Returns
      (λ (ok, c', d'). IsLoaded c')
      (users_sync a_db (λ id. (true, true)) (λ id. (true, true)) (λ id. true) 1000 before true)
users_sync-IsLoaded_example =
    users_sync-IsLoaded a_db (λ id. (true, true)) (λ id. (true, true)) (λ id. true) 1000
      (λ id. refl) one_row priced before true before-IsLoaded

a_db-Answers : Answers a_db 7 rule_rows (rule_row 2 ∷ rule_row 1 ∷ [])
a_db-Answers = record { opens = λ d. refl; loads = λ d. refl; lists = λ d. refl }

rule_rows-Distinct : DistinctRules (rules_of rule_rows)
unfolding rules_of rule_of
rule_rows-Distinct = ((λ e. omega (arith, e), tt), (tt, tt))

rules_sync-rules_mysql_load_example :
    let (ok, u', d') = rules_mysql_load a_db (λ id. (true, true)) (old_user 7) true in
    let (flag, u″, e') = rules_sync a_db 1000 u' true in
    (ok ≡ true)
    × (u'.id_rules ≡ rules_of rule_rows)
    × (flag ≡ (
        any_differs (rule_row 2 ∷ rule_row 1 ∷ []) (rules_of rule_rows)
        || any_vanished 1000 (rule_row 2 ∷ rule_row 1 ∷ []) (rules_of rule_rows)))
rules_sync-rules_mysql_load_example =
    rules_sync-rules_mysql_load a_db (λ id. (true, true)) 1000 rule_rows
      (rule_row 2 ∷ rule_row 1 ∷ []) (old_user 7) true true (λ id. refl) a_db-Answers
      rule_rows-Distinct refl

-- The other order is no reason to load again, a row that is gone is one.
same_again :
    ((any_differs (rule_row 2 ∷ rule_row 1 ∷ []) (rules_of rule_rows)
        || any_vanished 1000 (rule_row 2 ∷ rule_row 1 ∷ []) (rules_of rule_rows))
      ≡ false)
    × (any_vanished 1000 (rule_row 2 ∷ []) (rules_of rule_rows) ≡ true)
unfolding any_differs any_vanished is_listed rules_of rule_of rules_find bytes_compare memcmp
same_again = (refl, refl)

-- A rule with traffic that the database refuses: it is gone all the same.
abbrev unsaved : NodeUser
unsaved = record (old_user 7) {
  id_rules =
      record {
        id = 1;
        id_type = 1;
        id_group = 1;
        service = 1;
        direct = 3;
        proto = 255;
        net = 0;
        mask = 0;
        ports = 0;
        action = 0;
        status = 1;
        traffic = 5000;
        md5 = [];
        time_live = 0;
      }
      ∷ [];
}

unload_forgets : rules_mysql_unload a_db unsaved false ≡ some (true, old_user 7, false)
unfolding rules_mysql_unload rules_sync_traffic rules_clean export_rules rules_mysql_export
unload_forgets = refl
