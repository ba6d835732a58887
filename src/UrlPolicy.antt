-- ===== src/UrlPolicy.antt =====
-- src/src/ipstat_url_policy.c: a user has a policy, and a policy has patterns of addresses that it
-- permits or refuses.
pub mod Users
pub mod Patterns
pub mod Autz
pub mod Examples
use ipstat.Base.{
  ℕ, Bool, true, false, ◌&&◌, Option, none, some, List, [], ◌∷◌, ◌==◌, if◌then◌else◌, ◌>>=◌,
}
use ipstat.PolicyList.{NodePolicy}

-- The C library's regular expressions: `regcomp` with the three flags of the source, `none` where it
-- fails, and whether `regexec` returns 0.
pub record RegexApi (Regex : Type 0) : Type 0 where
  pub regcomp : List ℕ → Option Regex
  pub regexec : Regex → List ℕ → Bool

-- `reg` is `none` where `regcomp` failed and left it undefined.
pub record NodePattern (Regex : Type 0) : Type 0 where
  pub id : ℕ
  pub id_policy : ℕ
  pub pattern : List ℕ
  pub reg : Option Regex
  pub target : ℕ
  pub md5 : List ℕ
  pub time_live : ℕ

pub record UrlPolicy (Regex : Type 0) : Type 0 where
  pub policy_pattern : List (NodePattern Regex)
  pub policy_users : List NodePolicy

-- The `SELECT` statements.
pub data Query : Type 0 where
  first_users all_users : Query
  one_user : ℕ → Query
  first_patterns all_patterns : Query
  one_pattern : ℕ → Query

module _ {Regex : Type 0} (api : RegexApi Regex) where
  -- The test in the loop of `check_policy`; `none` is a fault: the expression is undefined.
  unfoldable pub pattern_matches : ℕ → List ℕ → NodePattern Regex → Option Bool
  pattern_matches id_policy url node =
      if node.id_policy == id_policy
      then (do reg ← node.reg; some (api.regexec reg url))
      else some false

  -- The loop: the first pattern that matches decides, else the default.
  unfoldable pub check_patterns : ℕ → List ℕ → ℕ → List (NodePattern Regex) → Option ℕ
  check_patterns id_policy url res [] = some res
  check_patterns id_policy url res (node ∷ list) =
      let rest = check_patterns id_policy url res list in
      do m ← pattern_matches id_policy url node; if m then some node.target else rest

  unfoldable pub check_policy : ℕ → List ℕ → ℕ → UrlPolicy Regex → Option Bool
  check_policy id_policy url def st = do
    res ← check_patterns id_policy url def st.policy_pattern
    some (if res == 0 then false else true)
