-- ===== src/CoreUsers/Examples.antt =====
-- Runs of src/core_users.c on a small table: two users, the first with two rules.

use ipstat.Base.{
  ℕ, ◌*◌, ◌≡◌, refl, ◌↔◌, ◌⊎◌, ◌||◌, Bool, true, false, none, some, List, [], ◌∷◌, ◌++◌, arith,
  Returns, Ensures, All, if◌then◌else◌, ◌==◌,
}
use ipstat.Inet.{PacketInfo}
use ipstat.CoreUsers.Data.{NodeRule, NodeUser, Core, traffic, PacketData, Hooks}
use ipstat.CoreUsers.Table.{users_of, users_find, addr_find, users_insert, users_delete}
use ipstat.CoreUsers.Authn.{is_some, users_auth}
use ipstat.CoreUsers.Rules.{rule_matches}
use ipstat.CoreUsers.Authz.{users_autz}
use ipstat.CoreUsers.Acct.{users_acct}
use ipstat.CoreUsers.Export.{
  CoreStore, CoreQuery, RowPrice, rule_price, users_sync_traffic, rules_mysql_export, pay,
}
use ipstat.CoreUsers.Ledger.{
  Held, Moved, Priced, effect, is_rollback, IsLedger, rules_mysql_export_atomic,
}
use ipstat.CoreUsers.Hooks.{
  register_auth, register_autz, register_acct, unregister_auth, unregister_autz, unregister_acct,
  hooks_undone,
}
use ipstat.CoreUsers.Flow.{UsersKept, users_sync_traffic-UsersKept}
use ipstat.CoreUsers.Covers.{IsRule, Covers, rule_matches-Covers}
use ipstat.CoreUsers.Decide.{Permits, Governed, users_autz-Permits}
use ipstat.CoreUsers.Charge.{WasCharged, users_acct-WasCharged}
use ipstat.CoreUsers.Attribute.{Ascribes, users_auth-Ascribes}
use ipstat.CoreUsers.Distinct.{IsTable, users_insert-IsTable, users_delete-IsTable}

abbrev rule : ℕ → ℕ → ℕ → ℕ → NodeRule
rule id net mask action = record {
  id = id;
  id_type = 10 * id;
  id_group = 1;
  service = 1;
  direct = 3;
  proto = 255;
  net = net;
  mask = mask;
  ports = 0;
  action = action;
  status = 1;
  traffic = 0;
  md5 = [];
  time_live = 0;
}

abbrev user : ℕ → ℕ → List NodeRule → NodeUser
user id addr rules = record {
  id = id;
  id_group = 1;
  addr = addr;
  mac = [];
  traffic = 0;
  id_rules = rules;
  md5 = [];
  status = 1;
  time_live = 0;
}

-- The first rule covers 10.0.0.0/8 and goes on to the second, which covers everything.
abbrev first : NodeUser
first = user 7 0x0100_000a (rule 1 10 8 1 ∷ rule 2 0 0 0 ∷ [])

abbrev second : NodeUser
second = user 8 0x0200_000a []

abbrev core : Core
core = record {
  st_users = some (first ∷ second ∷ []);
  clean_list = [];
  cur_users = 2;
  extern_auth = [];
  extern_autz = [];
  extern_acct = 1 ∷ [];
}

-- From the first user to 10.0.0.9.
abbrev packet : PacketInfo
packet = record {
  mac = [];
  proto = 6;
  src = 0x0100_000a;
  dest = 0x0900_000a;
  src_port = 1025;
  dest_port = 80;
}

abbrev answer : PacketData
answer = record {
  service = 1;
  direct = 2;
  id_user = 7;
  id_group_user = 1;
  id_traffic_group = 0;
  id_traffic_type = 0;
  not_sum = 0;
  len = 1500;
}

-- A plugin that refuses everything.
abbrev refusing : Hooks
refusing h q ret = (false, ret)

rules-IsRule : All IsRule first.id_rules
rules-IsRule = omega arith

governed : Governed (users_of core)
governed = omega arith

core-IsTable : IsTable core
core-IsTable = ground arith

first_found : users_find core 7 ≡ some first
unfolding users_find
first_found = refl

rule_matches-Covers_example :
    Returns
      (λ b. (b ≡ true) ↔ Covers 2 packet (rule 1 10 8 1))
      (rule_matches 2 packet (rule 1 10 8 1))
rule_matches-Covers_example = rule_matches-Covers 2 packet (rule 1 10 8 1) (omega arith)

users_autz-Permits_example :
    Returns
      (λ (ok, ret). (ok ≡ true) ↔ Permits refusing core packet true answer)
      (users_autz refusing core (traffic packet) true answer)
users_autz-Permits_example = users_autz-Permits refusing core packet true answer governed refl

users_acct-WasCharged_example :
    Returns
      (λ (c', ok, ret). WasCharged core packet answer first c')
      (users_acct refusing core (traffic packet) true answer)
users_acct-WasCharged_example =
    users_acct-WasCharged refusing core packet true answer first refl first_found rules-IsRule
      (omega arith)

users_auth-Ascribes_example :
    Returns
      (λ (ok, ret).
        ((ok ≡ true) × ((d' : PacketData) × (ret ≡ some d') × Ascribes core packet d'))
        ⊎ ((ok ≡ false)
            × (is_some (addr_find core packet.src) ≡ is_some (addr_find core packet.dest))))
      (users_auth refusing core (traffic packet) false (some answer))
users_auth-Ascribes_example = users_auth-Ascribes refusing core packet answer refl

users_insert-IsTable_example :
    IsTable (users_insert true true core (user 9 5 [])).0
    × ((users_insert true true core (user 9 5 [])).1 ≡ some (user 9 5 []))
    × (users_of (users_insert true true core (user 9 5 [])).0 ≡ users_of core ++ (user 9 5 [] ∷ []))
unfolding users_find
users_insert-IsTable_example = users_insert-IsTable core (user 9 5 []) core-IsTable refl refl

users_delete-IsTable_example :
    let (c', found) = users_delete true 100 core 7 in
    IsTable c'
    × (users_find c' 8 ≡ (if 7 == 8 then none else users_find core 8))
    × (c'.clean_list ≡ elim (users_find core 7) [
      | none ↦ core.clean_list
      | some u ↦ if true then core.clean_list ++ (record u { time_live = 100 } ∷ []) else []
    ])
    × (found ≡ elim (users_find core 7) [ none ↦ false | some u ↦ true ])
users_delete-IsTable_example = users_delete-IsTable true 100 7 core 8 core-IsTable

-- Without memory for its cell, the whole `clean_list` is lost.
clean_list_lost : (users_delete false 100 (users_delete true 100 core 7).0 8).0.clean_list ≡ []
unfolding users_delete
clean_list_lost = refl

-- A database that refuses statements by a list.
record Ledger : Type 0 where
  refusals : List Bool
  table : ℕ → Held

abbrev accepts : List Bool → Bool
accepts [] = true
accepts (b ∷ bs) = b

abbrev later : List Bool → List Bool
later [] = []
later (b ∷ bs) = bs

-- The price of a rule that has its row.
abbrev price_of : CoreQuery → Ledger → List RowPrice
price_of (rule_price id) d =
    if (d.table id).rule_row then record { id_user = 7; price = some 2 } ∷ [] else []

abbrev ledger_store : CoreStore Ledger
ledger_store = record {
  open_session = λ d. (true, d);
  select = λ q d. (some (price_of q d), d);
  exec = λ e d. (
    accepts d.refusals,
    record {
      refusals = later d.refusals;
      table =
          λ j. if accepts d.refusals || is_rollback e then effect j e (d.table j) else d.table j;
    },
  );
  close = λ d. d;
}

ledger_store-Priced :
    (id : ℕ) (d : Ledger)
    → (d.table id).rule_row ≡ true
    → Ensures Priced (ledger_store.select (rule_price id) d).0
ledger_store-Priced id d h = rw h (λ e. cc)

ledger_store-IsLedger : IsLedger ledger_store (λ j d. d.table j)
ledger_store-IsLedger = record {
  view-open = λ j d. refl;
  view-close = λ j d. refl;
  view-select = λ j q d. refl;
  view-exec = λ j e d. refl;
  priced = ledger_store-Priced;
}

-- The commit of the first rule is refused.
abbrev ledger : Ledger
ledger = record {
  refusals = true ∷ true ∷ true ∷ true ∷ true ∷ false ∷ [];
  table =
      λ j. record { user = 100 * j; rule = 10 * j; pending = 0; user_row = true; rule_row = true };
}

abbrev busy : Core
busy = record core {
  st_users = some (
      record first { traffic = 700; id_rules = record (rule 7 0 0 0) { traffic = 300 } ∷ [] }
      ∷ second
      ∷ []);
}

users_sync_traffic-UsersKept_example :
    Returns
      (λ (ok, c', d').
        UsersKept ledger_store _ ledger_store-IsLedger (users_of busy) ledger (users_of c') d')
      (users_sync_traffic ledger_store busy ledger)
users_sync_traffic-UsersKept_example =
    users_sync_traffic-UsersKept ledger_store _ ledger_store-IsLedger busy ledger (λ j. refl)
      (omega arith) (((refl, (refl, tt)), ((refl, tt), tt)))

rules_mysql_export_atomic_example :
    Returns
      (Moved ledger_store _ ledger_store-IsLedger 7 300 ledger)
      (rules_mysql_export ledger_store (rule 7 0 0 0) 300 ledger)
rules_mysql_export_atomic_example =
    rules_mysql_export_atomic ledger_store _ ledger_store-IsLedger (rule 7 0 0 0) 300 ledger
      (λ j. refl) refl

-- The export of a rule whose row is gone follows a null pointer.
row_gone :
    rules_mysql_export ledger_store (rule 7 0 0 0) 300 (record ledger {
      table = λ j. record { user = 0; rule = 0; pending = 0; user_row = true; rule_row = false };
    })
    ≡ none
unfolding rules_mysql_export pay
row_gone = refl

hooks_undone_example :
    let (_, c₁) = register_auth true core 11 in
    let (_, c₂) = register_autz true c₁ 12 in
    let (_, c₃) = register_acct true c₂ 13 in
    let (_, c₄) = unregister_auth c₃ 11 in
    let (_, c₅) = unregister_autz c₄ 12 in unregister_acct c₅ 13 ≡ (true, core)
hooks_undone_example = hooks_undone core 11 12 13 tt tt (ground arith)
