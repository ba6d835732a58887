-- ===== src/LimitList/Examples.antt =====
-- Tests of the functions that the two group limit plugins share.
use ipstat.Base.{
  ℕ, ◌+◌, ◌≡◌, refl, Bool, true, false, some, List, [], ◌∷◌, ◌==◌, if◌then◌else◌, arith,
}
use ipstat.Base.Int.{pos}
use ipstat.Base.Memory.{bytes_compare, memcmp}
use ipstat.Gtree.Write.{same}
use ipstat.Store.{RowStore}
use ipstat.Mirror.{find_node}
use ipstat.Mirror.Find.{through, Distinct}
use ipstat.Mirror.Law.{IsServing, DistinctRows, find_row}
use ipstat.LimitList.{
  NodeGroupLimit, RowLimit, Query, one_limit, Exec, update_traffic, limit_kind, sync_traffic,
  sync_limits, sync_nodes, sync_node,
}
use ipstat.LimitList.Sync.{limit_of, row_limit, sync_limits-limits}
use ipstat.LimitList.Traffic.{IsLimitLog, owed, sync_traffic-owed}

abbrev row_1 : RowLimit ℕ
row_1 = record {
  id = 1;
  owner = 4;
  type = 1;
  limitation = pos 1000;
  traffic = 0;
  onblocked = 0;
  md5 = 97 ∷ [];
}

abbrev rows_of : Query → List (RowLimit ℕ)
rows_of (one_limit id) = if id == 1 then row_1 ∷ [] else []
rows_of _ = row_1 ∷ []

-- The state is TDay of the row.
abbrev execute : Exec → ℕ → Bool × ℕ
execute (update_traffic traffic day month on id) d = (true, (if id == 1 then d + day else d))
execute _ d = (true, d)

abbrev one_store : RowStore ℕ Query (RowLimit ℕ) Exec
one_store = record {
  open_session = λ d. (true, d);
  select = λ q d. (some (rows_of q), d);
  exec = λ e d. execute e d;
  close = λ d. d;
}

one_store-IsServing : IsServing one_store limit_kind (row_1 ∷ []) (λ d. Unit)
unfolding limit_kind
one_store-IsServing = record {
  opens = λ d g. refl;
  open_good = λ d g. tt;
  lists = λ d g. refl;
  list_good = λ d g. tt;
  finds = (λ d g. refl, tt);
  find_good = λ id d g. tt;
  close_good = λ d g. tt;
}

abbrev has_row : ℕ → ℕ → Bool
has_row j d = j == 1

abbrev t_day : ℕ → ℕ → ℕ
t_day j d = if j == 1 then d else 0

one_store-IsLimitLog : IsLimitLog one_store has_row t_day
one_store-IsLimitLog = record {
  has-open = λ j d. refl;
  logged-open = λ j d. refl;
  logged-close = λ j d. refl;
  has-update = λ j t day month on id d. refl;
  logged-update = λ j t day month on id d. ground arith;
}

-- A limit that has counted 300 bytes since the last export, with another limitation than its row.
abbrev old_1 : NodeGroupLimit ℕ
old_1 = record {
  id = 1;
  owner = 4;
  type = 1;
  limitation = 500;
  traffic = 400;
  alpha = 300;
  onblocked = 0;
  status = false;
  md5 = 99 ∷ [];
}

-- One that the database no longer has.
abbrev old_2 : NodeGroupLimit ℕ
old_2 = record {
  id = 2;
  owner = 5;
  type = 1;
  limitation = 500;
  traffic = 400;
  alpha = 300;
  onblocked = 0;
  status = false;
  md5 = 99 ∷ [];
}

old-Distinct : Distinct limit_kind (old_1 ∷ old_2 ∷ [])
unfolding limit_kind find_node
old-Distinct = (refl, (refl, tt))

first-Distinct : Distinct limit_kind (old_1 ∷ [])
unfolding find_node
first-Distinct = (refl, tt)

rows-Distinct : DistinctRows limit_kind (row_1 ∷ [])
unfolding find_row
rows-Distinct = (refl, tt)

old-fingerprints :
    (id : ℕ) (r : RowLimit ℕ) (n : NodeGroupLimit ℕ)
    → find_row limit_kind id (row_1 ∷ []) ≡ some r
    → find_node limit_kind id (old_1 ∷ old_2 ∷ []) ≡ some n
    → same n.md5 (limit_kind.row_md5 r) ≡ true
    → limit_of n ≡ row_limit r
unfolding limit_kind find_row find_node bytes_compare memcmp
old-fingerprints id r n f k t = ground arith

sync_limits-limits_example :
    (list' : List (NodeGroupLimit ℕ)) × (d' : ℕ) × (sync_limits
        (λ id. (true, true))
        (some one_store)
        (old_1 ∷ old_2 ∷ [])
        0
      ≡ some (true, list', d'))
    × Distinct limit_kind list'
    × ((id : ℕ)
        → through limit_of (find_node limit_kind id list')
          ≡ through row_limit (find_row limit_kind id (row_1 ∷ [])))
sync_limits-limits_example =
    sync_limits-limits one_store (λ id. (true, true)) (row_1 ∷ []) (λ d. Unit) (old_1 ∷ old_2 ∷ [])
      0 (λ id. refl) one_store-IsServing tt rows-Distinct old-Distinct old-fingerprints

-- The 300 bytes go to the database.
exported : (sync_traffic (some one_store) (old_1 ∷ []) 20).2 ≡ 320
unfolding sync_traffic sync_nodes sync_node
exported = refl

sync_traffic-owed_example :
    let (ok, list', d') = sync_traffic (some one_store) (old_1 ∷ []) 20 in
    t_day 1 d' + owed 1 list' ≡ t_day 1 20 + owed 1 (old_1 ∷ [])
sync_traffic-owed_example =
    sync_traffic-owed one_store has_row t_day one_store-IsLimitLog 1 (old_1 ∷ []) 20 first-Distinct
      ((omega arith, refl), tt)
