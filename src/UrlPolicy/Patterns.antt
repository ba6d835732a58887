-- ===== src/UrlPolicy/Patterns.antt =====
-- The list of patterns of src/src/ipstat_url_policy.c.
use ipstat.Base.{
  ℕ, Bool, true, false, Option, none, some, List, [], ◌>>=◌, take, ◌%◌, ◌^◌, ◌+◌, ◌≤◌, refl, arith,
}
use ipstat.Mirror.{Kind, find_node, insert_node, update_node, delete_node, sync_table}
use ipstat.Mirror.Init.{init_table}
use ipstat.PolicyList.{expired}
use ipstat.Mirror.Law.{IsMirror}
use ipstat.Store.{RowStore}
use ipstat.UrlPolicy.{
  UrlPolicy, RegexApi, NodePattern, Query, first_patterns, all_patterns, one_pattern,
}

-- The columns of a row.
pub record RowPattern : Type 0 where
  pub id : ℕ
  pub id_policy : ℕ
  pub pattern : List ℕ
  pub target : ℕ
  pub md5 : List ℕ

module _ {Regex : Type 0} (api : RegexApi Regex) where
  -- The assignments that an insertion and an update share; the target is a `guint8`, the pattern is
  -- cut to 99 characters.
  unfoldable pub pattern_node : ℕ → RowPattern → NodePattern Regex
  pattern_node now r = record {
    id = r.id;
    id_policy = r.id_policy;
    pattern = take 99 r.pattern;
    reg = api.regcomp (take 99 r.pattern);
    target = r.target % 2 ^ 8;
    md5 = take 32 r.md5;
    time_live = now;
  }

  unfoldable pub compiles : RowPattern → Bool
  compiles r = elim (api.regcomp (take 99 r.pattern)) [ none ↦ false | some reg ↦ true ]

  unfoldable pub pattern_kind : Kind (NodePattern Regex) RowPattern Query
  pattern_kind = record {
    key = λ n. n.id;
    md5 = λ n. n.md5;
    row_key = λ r. r.id;
    row_md5 = λ r. take 32 r.md5;
    accepts = λ r. compiles r;
    fresh = λ now r. pattern_node now r;
    renew = λ now r n. pattern_node now r;
    found = λ now n. n;
    kept = λ now n. record n { time_live = now };
    is_dead = λ later n. expired later n.time_live;
    listing = all_patterns;
    by_key = one_pattern;
  }

  unfoldable pub pattern_find : ℕ → UrlPolicy Regex → Option (NodePattern Regex)
  pattern_find id st = find_node pattern_kind id st.policy_pattern

  unfoldable pub delete_policy_pattern : ℕ → UrlPolicy Regex → Bool × UrlPolicy Regex
  delete_policy_pattern id st = elim (find_node pattern_kind id st.policy_pattern) [
    | none ↦ (false, st)
    | some n ↦ (true, record st { policy_pattern = delete_node pattern_kind id st.policy_pattern })
  ]

  unfoldable pub free_pattern_list : UrlPolicy Regex → Bool × UrlPolicy Regex
  free_pattern_list st = (true, record st { policy_pattern = [] })

  module _ {Db Exec : Type 0} (mem : ℕ → Bool × Bool) (now : ℕ) where
    -- Insertion and update run where `sync_pattern_list` has found the store.
    unfoldable pub insert_policy_pattern :
        RowStore Db Query RowPattern Exec
        → ℕ
        → UrlPolicy Regex
        → Db
        → Option (Bool × UrlPolicy Regex × Db)
    insert_policy_pattern store id st d = do
      (ok, list, d') ← insert_node pattern_kind store mem now id st.policy_pattern d
      some (ok, record st { policy_pattern = list }, d')

    unfoldable pub update_policy_pattern :
        RowStore Db Query RowPattern Exec
        → ℕ
        → UrlPolicy Regex
        → Db
        → Option (Bool × UrlPolicy Regex × Db)
    update_policy_pattern store id st d = do
      (ok, list, d') ← update_node pattern_kind store mem now id st.policy_pattern d
      some (ok, record st { policy_pattern = list }, d')

    unfoldable pub init_pattern_list :
        Option (RowStore Db Query RowPattern Exec)
        → UrlPolicy Regex
        → Db
        → Bool × UrlPolicy Regex × Db
    init_pattern_list store st d =
        let (ok, list, d') =
          init_table pattern_kind first_patterns store mem now st.policy_pattern d in
        (ok, record st { policy_pattern = list }, d')

    -- The walk at the end runs `later`.
    unfoldable pub sync_pattern_list :
        Option (RowStore Db Query RowPattern Exec)
        → ℕ
        → UrlPolicy Regex
        → Db
        → Option (Bool × UrlPolicy Regex × Db)
    sync_pattern_list store later st d = do
      (ok, list, d') ←
          sync_table pattern_kind store mem now later (λ list. list) st.policy_pattern d
      some (ok, record st { policy_pattern = list }, d')

  -- What a node or a row says: policy, pattern, expression and target.
  abbrev pub pattern_of : NodePattern Regex → ℕ × List ℕ × Option Regex × ℕ
  pattern_of n = (n.id_policy, n.pattern, n.reg, n.target)

  abbrev pub row_pattern : RowPattern → ℕ × List ℕ × Option Regex × ℕ
  row_pattern r =
      (r.id_policy, take 99 r.pattern, api.regcomp (take 99 r.pattern), r.target % 2 ^ 8)

  pub pattern_kind-IsMirror :
      (now later : ℕ) → later ≤ now + 90 → IsMirror pattern_kind now later pattern_of row_pattern
  unfolding pattern_kind pattern_node
  pattern_kind-IsMirror now later h = record {
    fresh_key = λ r. refl;
    renew_key = λ r n. refl;
    found_key = λ n. refl;
    kept_key = λ n. refl;
    fresh_view = λ r. refl;
    renew_view = λ r n. refl;
    found_view = λ n. refl;
    kept_view = λ n. refl;
    fresh_alive = λ r. ground arith;
    found_alive = λ n. ground arith;
    renew_alive = λ r n. ground arith;
  }
