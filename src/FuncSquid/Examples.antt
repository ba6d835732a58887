-- ===== src/FuncSquid/Examples.antt =====
-- Tests of src/func_squid.c on a database of one table, which refuses statements by a list.
use ipstat.Base.{
  ℕ, ◌≡◌, refl, Bool, true, false, ◌==◌, some, List, [], ◌∷◌, ◌++◌, All, arith, if◌then◌else◌,
}
use ipstat.Store.Log.{IsUp}
use ipstat.FuncSquid.{
  SquidNode, SquidData, SquidState, SquidExec, insert_squid, SquidStore, node_of, squid_init,
  g_list_prepend, squid_acct, squid_export, squid_traverse_sync, export_nodes, squid_sync,
  squid_free,
}
use ipstat.FuncSquid.Sync.{IsSquidLog, IsPlain, row_of}
use ipstat.FuncSquid.Trace.{start, accounted, synced, Accounted, Reaches-Accounted}
use ipstat.FuncSquid.Drain.{acct_all, rows_of, squid_sync-acct_all}

-- The rows of Log_Squid, the newest first, and whether the coming statements are refused.
pub record SquidDb : Type 0 where
  pub refusals : List Bool
  pub rows : List SquidNode

abbrev insert_row : SquidExec → SquidDb → SquidDb
insert_row (insert_squid node) d = record d { rows = row_of node ∷ d.rows }

abbrev execute : List Bool → SquidExec → SquidDb → Bool × SquidDb
execute [] e d = (true, insert_row e d)
execute (false ∷ bs) e d = (true, insert_row e (record d { refusals = bs }))
execute (true ∷ bs) e d = (false, record d { refusals = bs })

abbrev picky : SquidStore SquidDb
picky = record {
  open_session = λ d. (true, d);
  query = λ q d. (some 0, d);
  exec = λ e d. execute d.refusals e d;
  close = λ d. d;
}

inserted :
    (bs : List Bool) (node : SquidNode) (d : SquidDb)
    → let (ok, d') = execute bs (insert_squid node) d in
      d'.rows ≡ (if ok then row_of node ∷ d.rows else d.rows)
inserted [] node d = refl
inserted (false ∷ bs) node d = refl
inserted (true ∷ bs) node d = refl

picky-IsSquidLog : IsSquidLog picky (λ d. d.rows)
picky-IsSquidLog = record {
  logged-open = λ d. refl;
  logged-close = λ d. refl;
  logged-insert = λ node d w. inserted d.refusals node d;
}

-- The same, but nothing is refused.
abbrev willing : SquidStore SquidDb
willing = record picky { exec = λ e d. (true, insert_row e d) }

insert_row-rows :
    (node : SquidNode) (d : SquidDb)
    → (insert_row (insert_squid node) d).rows ≡ row_of node ∷ d.rows
insert_row-rows node d = refl

willing-IsSquidLog : IsSquidLog willing (λ d. d.rows)
willing-IsSquidLog = record {
  logged-open = λ d. refl;
  logged-close = λ d. refl;
  logged-insert = λ node d w. insert_row-rows node d;
}

willing-IsUp : IsUp willing
willing-IsUp = record { opens = λ d. refl; answers = λ q d e. cc; accepts = λ e d. refl }

abbrev unused : SquidState
unused = record {
  ag_squid = [];
  flag_export = false;
  total_acct_query = 0;
  served = false;
  scheduled = false;
}

abbrev empty : SquidDb
empty = record { refusals = []; rows = [] }

abbrev page_one : List ℕ
page_one = 97 ∷ (98 ∷ [])

abbrev page_two : List ℕ
page_two = 99 ∷ []

abbrev by_user : ℕ → ℕ → SquidData
by_user id len = record { id_user = id; len = len }

abbrev calls : List (List ℕ × SquidData)
calls = (page_one, by_user 7 100) ∷ ((page_two, by_user 8 200) ∷ [])

abbrev node_one : SquidNode
node_one = node_of page_one (by_user 7 100)

abbrev node_two : SquidNode
node_two = node_of page_two (by_user 8 200)

abbrev begun : SquidState
begun = record unused { served = true; scheduled = true }

abbrev with_nodes : List SquidNode → ℕ → SquidState
with_nodes nodes n = record begun { ag_squid = nodes; total_acct_query = n }

page_one-Plain : IsPlain page_one
page_one-Plain = omega arith

page_two-Plain : IsPlain page_two
page_two-Plain = omega arith

calls-Plain : All (λ c. IsPlain c.0) calls
calls-Plain = (page_one-Plain, (page_two-Plain, tt))

squid_sync-acct_all_example :
    let (ok, s', lost, d') = squid_sync (some willing) (λ _ _. true) (acct_all calls begun) empty in
    (ok ≡ true)
    × (s'.ag_squid ≡ [])
    × (s'.flag_export ≡ false)
    × (lost ≡ [])
    × (d'.rows ≡ rows_of calls ++ [])
squid_sync-acct_all_example =
    squid_sync-acct_all willing willing-IsUp (λ d. d.rows) willing-IsSquidLog calls begun empty refl
      refl calls-Plain

-- Four refusals: the newer record is given up, the older one is logged.
abbrev stubborn : SquidDb
stubborn = record { refusals = true ∷ (true ∷ (true ∷ (true ∷ []))); rows = [] }

-- Three refusals: nothing is given up.
abbrev slow : SquidDb
slow = record { refusals = true ∷ (true ∷ (true ∷ [])); rows = [] }

first_call :
    squid_acct true true begun page_one (by_user 7 100) ≡ (true, with_nodes (node_one ∷ []) 1)
unfolding squid_acct g_list_prepend
first_call = refl

second_call :
    squid_acct true true (with_nodes (node_one ∷ []) 1) page_two (by_user 8 200)
    ≡ (true, with_nodes (node_two ∷ (node_one ∷ [])) 2)
unfolding squid_acct g_list_prepend
second_call = refl

gives_up :
    squid_sync (some picky) (λ _ _. true) (with_nodes (node_two ∷ (node_one ∷ [])) 2) stubborn
    ≡ (true, with_nodes [] 2, node_two ∷ [], record { refusals = []; rows = node_one ∷ [] })
unfolding squid_sync export_nodes squid_traverse_sync squid_export
gives_up = refl

tries_again :
    squid_sync (some picky) (λ _ _. true) (with_nodes (node_two ∷ (node_one ∷ [])) 2) slow
    ≡ (true, with_nodes [] 2, [], record { refusals = []; rows = node_one ∷ (node_two ∷ []) })
unfolding squid_sync export_nodes squid_traverse_sync squid_export
tries_again = refl

-- `squid_acct` returns TRUE and loses the list where there is no memory for its cell.
cell_missing_test :
    squid_acct true false (with_nodes (node_one ∷ []) 1) page_two (by_user 8 200)
    ≡ (true, with_nodes [] 2)
unfolding squid_acct g_list_prepend
cell_missing_test = refl

-- With an empty list `squid_free` leaves both jobs registered.
free_empty_test :
    squid_free true true (some picky) (λ _ _. true) begun empty ≡ (false, begun, [], empty)
unfolding squid_free squid_sync export_nodes
free_empty_test = refl

-- An export that is under way keeps the last synchronisation off, and the records are freed.
free_busy_test :
    squid_free true true
      (some picky)
      (λ _ _. true)
      (record (with_nodes (node_one ∷ []) 1) { flag_export = true })
      empty
    ≡ (true, record unused { flag_export = true; total_acct_query = 1 }, node_one ∷ [], empty)
unfolding squid_free squid_sync export_nodes squid_traverse_sync squid_export
free_busy_test = refl

from_start : squid_init true true unused ≡ begun
unfolding squid_init
from_start = refl

Reaches-Accounted_example :
    Accounted picky unused stubborn
      (λ d. d.rows)
      picky-IsSquidLog
      (λ node. node.id_user == 8)
      (node_two ∷ (node_one ∷ []))
      (node_two ∷ [])
      (with_nodes [] 2)
      (record { refusals = []; rows = node_one ∷ [] })
unfolding squid_init
Reaches-Accounted_example =
    Reaches-Accounted picky unused stubborn (λ d. d.rows) picky-IsSquidLog
      (λ node. node.id_user == 8)
      (synced (λ _ _. true) true
        (accounted page_two (by_user 8 200) page_two-Plain
          (accounted page_one (by_user 7 100) page_one-Plain (start true true) first_call)
          second_call)
        gives_up)
