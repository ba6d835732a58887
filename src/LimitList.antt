-- ===== src/LimitList.antt =====
-- The functions that src/ipstat_system_group_limit and src/ipstat_system_users_group_limit both have.
-- The first limits the traffic of a user in a group of traffic, the second that of a group of users;
-- `owner` is `id_user` and `id_group` in the one, `id_group` in the other.
pub mod Sync
pub mod Traffic
pub mod Spend
pub mod Examples
use ipstat.Base.{
  ℕ, ◌+◌, ◌-◌, ◌%◌, ◌^◌, Bool, true, false, not, ◌||◌, Option, none, some, List, [], ◌∷◌, map, ◌==◌,
  leb, if◌then◌else◌, take, ◌>>=◌,
}
use ipstat.Base.Int.{ℤ, pos, negsuc}
use ipstat.CoreUsers.Data.{PacketData, service_traffic, service_squid}
use ipstat.Store.{RowStore}
use ipstat.Mirror.{Kind, find_node, insert_node, update_node, delete_node, sync_rows, expire}
use ipstat.Tasks.{Statement}

pub record NodeGroupLimit (O : Type 0) : Type 0 where
  pub id : ℕ
  pub owner : O
  pub type : ℕ
  pub limitation : ℕ
  pub traffic : ℕ
  pub alpha : ℕ
  pub onblocked : ℕ
  pub status : Bool
  pub md5 : List ℕ

-- The columns of a row.
pub record RowLimit (O : Type 0) : Type 0 where
  pub id : ℕ
  pub owner : O
  pub type : ℕ
  pub limitation : ℤ
  pub traffic : ℕ
  pub onblocked : ℕ
  pub md5 : List ℕ

-- The `SELECT` statements, and those that change the table.
pub data Query : Type 0 where
  all_limits : Query
  one_limit : ℕ → Query

-- `update_traffic` has Traffic, what is added to TDay and to TMonth, onActive and id.
pub data Exec : Type 0 where
  update_traffic : ℕ → ℕ → ℕ → Bool → ℕ → Exec
  task : Statement → Exec

-- `-1` in the unsigned fields.
abbrev pub no_limit : ℕ
no_limit = 2 ^ 64 - 1

-- `atoll` into an unsigned field of 64 bits.
abbrev pub to_u64 : ℤ → ℕ
to_u64 (pos n) = n % 2 ^ 64
to_u64 (negsuc n) = 2 ^ 64 - 1 - n % 2 ^ 64

abbrev pub add64 : ℕ → ℕ → ℕ
add64 a b = (a + b) % 2 ^ 64

module _ {O : Type 0} where
  unfoldable pub limit_node : RowLimit O → NodeGroupLimit O
  limit_node r = record {
    id = r.id;
    owner = r.owner;
    type = r.type;
    limitation = to_u64 r.limitation;
    traffic = r.traffic % 2 ^ 64;
    alpha = 0;
    onblocked = r.onblocked % 2 ^ 8;
    status = false;
    md5 = take 32 r.md5;
  }

  -- An update keeps the sums and the mark.
  unfoldable pub limit_renewed : RowLimit O → NodeGroupLimit O → NodeGroupLimit O
  limit_renewed r n = record n {
    id = r.id;
    owner = r.owner;
    type = r.type;
    limitation = to_u64 r.limitation;
    onblocked = r.onblocked % 2 ^ 8;
    md5 = take 32 r.md5;
  }

  unfoldable pub limit_kind : Kind (NodeGroupLimit O) (RowLimit O) Query
  limit_kind = record {
    key = λ n. n.id;
    md5 = λ n. n.md5;
    row_key = λ r. r.id;
    row_md5 = λ r. take 32 r.md5;
    accepts = λ r. true;
    fresh = λ now r. limit_node r;
    renew = λ now r n. limit_renewed r n;
    found = λ now n. record n { status = false };
    kept = λ now n. n;
    is_dead = λ later n. n.status;
    listing = all_limits;
    by_key = one_limit;
  }

  -- The tests that `my_autz` and `sync_traffic` make.
  unfoldable pub onactive : NodeGroupLimit O → Bool
  onactive n =
      if n.onblocked == 0
      then (if n.limitation == no_limit
          then true
          else if leb n.limitation n.traffic
          then false
          else true)
      else false

  abbrev pub traverse_mark : NodeGroupLimit O → NodeGroupLimit O
  traverse_mark n = record n { status = true }

  unfoldable pub mark_delete : List (NodeGroupLimit O) → List (NodeGroupLimit O)
  mark_delete [] = []
  mark_delete (n ∷ list) = traverse_mark n ∷ mark_delete list

  abbrev pub traverse_check : ℕ → NodeGroupLimit O → NodeGroupLimit O
  traverse_check type n = if n.type == type then record n { traffic = 0 } else n

  -- `g_list_foreach` with `traverse_check`.
  unfoldable pub check_all : ℕ → List (NodeGroupLimit O) → List (NodeGroupLimit O)
  check_all type [] = []
  check_all type (n ∷ list) = traverse_check type n ∷ check_all type list

  -- `g_list_find_custom` with the comparison of owners, and a write through its result.
  unfoldable pub find_owner : (O → Bool) → List (NodeGroupLimit O) → Option (NodeGroupLimit O)
  find_owner mine [] = none
  find_owner mine (n ∷ list) = if mine n.owner then some n else find_owner mine list

  -- `traffic` and `alpha` are added to.
  unfoldable pub charge_owner : (O → Bool) → ℕ → List (NodeGroupLimit O) → List (NodeGroupLimit O)
  charge_owner mine len [] = []
  charge_owner mine len (n ∷ list) =
      if mine n.owner
      then record n { traffic = add64 n.traffic len; alpha = add64 n.alpha len } ∷ list
      else n ∷ charge_owner mine len list

  -- `my_autz` and `my_acct` but for the key that they search.
  unfoldable pub autz_owner : (O → Bool) → ℕ → List (NodeGroupLimit O) → Bool
  autz_owner mine service list =
      if (service == service_traffic) || (service == service_squid)
      then elim (find_owner mine list) [ none ↦ true | some n ↦ onactive n ]
      else false

  unfoldable pub acct_owner :
      (O → Bool) → ℕ → PacketData → List (NodeGroupLimit O) → Bool × List (NodeGroupLimit O)
  acct_owner mine service ret list =
      if (service == service_traffic) || (service == service_squid)
      then (true, (if ret.not_sum == 0 then charge_owner mine ret.len list else list))
      else (false, list)

  module _ {Db : Type 0} where
    -- One turn of the loop of `sync_traffic`: where the statement is refused, `alpha` gets back what it
    -- had. The conversion of `alpha` to `int` keeps its last 32 bits.
    unfoldable pub sync_node :
        RowStore Db Query (RowLimit O) Exec → NodeGroupLimit O → Db → NodeGroupLimit O × Db
    sync_node store n d =
        let sum = n.alpha % 2 ^ 32 in
        let (ok, d') = store.exec (update_traffic n.traffic sum sum (onactive n) n.id) d in
        (record n { alpha = (if ok then 0 else add64 0 n.alpha) }, d')

    unfoldable pub sync_nodes :
        RowStore Db Query (RowLimit O) Exec
        → List (NodeGroupLimit O)
        → Db
        → List (NodeGroupLimit O) × Db
    sync_nodes store [] d = ([], d)
    sync_nodes store (n ∷ list) d =
        let (n', d') = sync_node store n d in
        let (list', d″) = sync_nodes store list d' in (n' ∷ list', d″)

    unfoldable pub sync_traffic :
        Option (RowStore Db Query (RowLimit O) Exec)
        → List (NodeGroupLimit O)
        → Db
        → Bool × List (NodeGroupLimit O) × Db
    sync_traffic none list d = (false, list, d)
    sync_traffic (some store) list d =
        let (opened, d₁) = store.open_session d in
        let (list', d₂) = sync_nodes store list d₁ in
        if opened then (true, list', store.close d₂) else (true, list, d₁)

    unfoldable pub sync_limits :
        (mem : ℕ → Bool × Bool)
        → Option (RowStore Db Query (RowLimit O) Exec)
        → List (NodeGroupLimit O)
        → Db
        → Option (Bool × List (NodeGroupLimit O) × Db)
    sync_limits mem none list d = some (false, list, d)
    sync_limits mem (some store) list d =
        let (opened, d₁) = store.open_session d in
        let (answer, d₂) = store.select all_limits d₁ in
        if not opened then some (true, list, d₁) else elim answer [
          | none ↦ some (false, list, store.close d₂)
          | some rows ↦ do
            (list', d₃) ← sync_rows limit_kind store mem 0 rows (mark_delete list) d₂
            let (_, list″, d₄) =
                sync_traffic (some store) (expire limit_kind 0 list' list') (store.close d₃)
            some (true, list″, d₄)
        ]
