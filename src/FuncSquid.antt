-- ===== src/FuncSquid.antt =====
-- src/func_squid.c: the records of squid, kept in a list in memory, newest first, and the export of
-- the list into the table Log_Squid. A text is the list of its bytes, without the closing zero. Each
-- stretch of code under `SQUID_LOCK` is one step, since no return leaves the lock taken.
mod Sync
mod Trace
mod Drain
mod Examples
use ipstat.Base.{
  ℕ, zero, suc, Bool, true, false, ◌||◌, ◌&&◌, not, ◌++◌, Option, none, some, List, [], ◌∷◌, length,
  take, if◌then◌else◌,
}
use ipstat.Base.Int.{add32}
use ipstat.Store.{StoreApi}

pub record SquidNode : Type 0 where
  pub id_user : ℕ
  pub url : List ℕ
  pub traffic : ℕ

-- The fields of a `SQUID_DATA_INFO` that the file reads.
pub record SquidData : Type 0 where
  pub id_user : ℕ
  pub len : ℕ

-- The variables of the file, and whether `squid_job` stands in the server and `squid_sync` in the
-- scheduler.
pub record SquidState : Type 0 where
  pub ag_squid : List SquidNode
  pub flag_export : Bool
  pub total_acct_query : ℕ
  pub served : Bool
  pub scheduled : Bool

-- The statement that `squid_export` builds by `sprintf`: its two numbers, and the address as it
-- stands between the quotes. What the server makes of an address with a quote or a backslash is the
-- server's.
pub data SquidExec : Type 0 where
  insert_squid : SquidNode → SquidExec

abbrev pub SquidStore : Type 0 → Type 0
SquidStore Db = StoreApi Db (Unit {0}) SquidExec

-- `has_server` and `has_sched` say whether `t_api` has the two.
unfoldable pub squid_init : (has_server has_sched : Bool) → SquidState → SquidState
squid_init has_server has_sched s = record s {
  ag_squid = [];
  served = has_server || s.served;
  scheduled = has_sched || s.scheduled;
}

abbrev pub node_of : List ℕ → SquidData → SquidNode
node_of url squid_data = record {
  id_user = squid_data.id_user;
  url = take 1023 url;
  traffic = squid_data.len;
}

-- `g_list_prepend`, which returns a null list where there is no memory for the cell.
unfoldable pub g_list_prepend : {A : Type 0} → Bool → List A → A → List A
g_list_prepend false xs x = []
g_list_prepend true xs x = x ∷ xs

-- `mem_node` and `mem_cell` say whether there is memory for the node and for the cell of the list.
unfoldable pub squid_acct :
    (mem_node mem_cell : Bool) → SquidState → List ℕ → SquidData → Bool × SquidState
squid_acct false mem_cell s url squid_data = (false, s)
squid_acct true mem_cell s url squid_data = (
  true,
  record s {
    ag_squid = g_list_prepend mem_cell s.ag_squid (node_of url squid_data);
    total_acct_query = add32 s.total_acct_query 1;
  },
)

abbrev pub no_nodes : {A : Type 0} → List A → Bool
no_nodes [] = true
no_nodes (x ∷ xs) = false

module _ {Db : Type 0} where
  -- `mem` says whether there is memory for the text of the statement.
  unfoldable pub squid_export : SquidStore Db → Bool → SquidNode → Db → Bool × Db
  squid_export store false node d = (false, d)
  squid_export store true node d = store.exec (insert_squid node) d

  -- The loop at `l_start`: the node if it is given up, with the line in the log file, and the
  -- database. `mem` is asked with the number of tries that are left.
  unfoldable pub squid_traverse_sync :
      SquidStore Db → (ℕ → Bool) → SquidNode → ℕ → Db → List SquidNode × Db
  squid_traverse_sync store mem node zero d =
      let (ok, d₁) = squid_export store (mem 0) node d in if ok then ([], d₁) else (node ∷ [], d₁)
  squid_traverse_sync store mem node (suc n_repeat) d =
      let (ok, d₁) = squid_export store (mem (suc n_repeat)) node d in
      let again = squid_traverse_sync store mem node n_repeat d₁ in if ok then ([], d₁) else again

  -- `g_list_foreach` with `squid_traverse_sync`: the nodes that are given up, the last one first.
  unfoldable pub export_nodes :
      SquidStore Db → (ℕ → ℕ → Bool) → List SquidNode → List SquidNode → Db → List SquidNode × Db
  unfolding squid_traverse_sync
  export_nodes store mem [] lost d = (lost, d)
  export_nodes store mem (node ∷ nodes) lost d =
      let (given_up, d₁) = squid_traverse_sync store (mem (length nodes)) node 3 d in
      export_nodes store mem nodes (given_up ++ lost) d₁

  -- What it returns, the variables, the nodes it gave up and the database.
  unfoldable pub squid_sync :
      Option (SquidStore Db)
      → (ℕ → ℕ → Bool)
      → SquidState
      → Db
      → Bool × SquidState × List SquidNode × Db
  squid_sync none mem s d = (false, s, [], d)
  squid_sync (some store) mem s d =
      let (opened, d₁) = store.open_session d in
      let (lost, d₂) = export_nodes store mem s.ag_squid [] d₁ in
      if s.flag_export
      then (false, s, [], d)
      else if not opened
      then (true, s, [], d₁)
      else (true, record s { ag_squid = []; flag_export = false }, lost, store.close d₂)

  -- The nodes that the last synchronisation leaves in memory are freed.
  unfoldable pub squid_free :
      (has_server has_sched : Bool)
      → Option (SquidStore Db)
      → (ℕ → ℕ → Bool)
      → SquidState
      → Db
      → Bool × SquidState × List SquidNode × Db
  squid_free has_server has_sched api mem s d =
      let s₁ = record s {
        served = not has_server && s.served;
        scheduled = not has_sched && s.scheduled;
      } in
      let (_, s', lost, d') = squid_sync api mem s₁ d in
      if no_nodes s.ag_squid
      then (false, s, [], d)
      else (true, record s' { ag_squid = [] }, lost ++ s'.ag_squid, d')
