-- ===== src/UrlPolicy/Examples.antt =====
-- Tests of src/src/ipstat_url_policy.c.
use ipstat.Base.{
  ℕ, ◌≡◌, refl, Bool, true, false, Option, some, none, List, [], ◌∷◌, ◌==◌, if◌then◌else◌, arith,
}
use ipstat.Base.Memory.{bytes_compare, memcmp}
use ipstat.Gtree.Write.{same}
use ipstat.Store.{RowStore}
use ipstat.Mirror.{find_node}
use ipstat.Mirror.Find.{Distinct}
use ipstat.Mirror.Law.{IsServing, DistinctRows, find_row}
use ipstat.UrlPolicy.{
  RegexApi, NodePattern, UrlPolicy, Query, one_pattern, pattern_matches, check_patterns,
  check_policy,
}
use ipstat.UrlPolicy.Users.{users_kind, check_user}
use ipstat.UrlPolicy.Patterns.{
  RowPattern, pattern_kind, compiles, pattern_of, row_pattern, sync_pattern_list,
}
use ipstat.UrlPolicy.Autz.{autz_url_policy, sync_pattern_list-Decides}

-- Patterns that are the first character of an address; the empty one does not compile.
abbrev first_is : List ℕ → ℕ → Bool
first_is [] c = false
first_is (x ∷ url) c = x == c

abbrev compile : List ℕ → Option ℕ
compile [] = none
compile (c ∷ rest) = some c

abbrev first_char : RegexApi ℕ
first_char = record { regcomp = λ p. compile p; regexec = λ c url. first_is url c }

abbrev row_1 : RowPattern
row_1 = record { id = 1; id_policy = 3; pattern = 119 ∷ []; target = 0; md5 = 97 ∷ [] }

abbrev one_row : List RowPattern
one_row = row_1 ∷ []

abbrev rows_of : Query → List RowPattern
rows_of (one_pattern id) = if id == 1 then row_1 ∷ [] else []
rows_of _ = one_row

abbrev one_store : RowStore ℕ Query RowPattern ℕ
one_store = record {
  open_session = λ d. (true, d);
  select = λ q d. (some (rows_of q), d);
  exec = λ e d. (true, d);
  close = λ d. d;
}

abbrev old_pattern : NodePattern ℕ
old_pattern = record {
  id = 1;
  id_policy = 3;
  pattern = 120 ∷ [];
  reg = some 120;
  target = 0;
  md5 = 99 ∷ [];
  time_live = 950;
}

abbrev before : UrlPolicy ℕ
before = record {
  policy_pattern = old_pattern ∷ [];
  policy_users = record { key = 7; id_policy = 3; def = 1; md5 = []; time_live = 950 } ∷ [];
}

one_store-IsServing : IsServing one_store (pattern_kind first_char) one_row (λ d. Unit)
unfolding pattern_kind
one_store-IsServing = record {
  opens = λ d g. refl;
  open_good = λ d g. tt;
  lists = λ d g. refl;
  list_good = λ d g. tt;
  finds = (λ d g. refl, tt);
  find_good = λ id d g. tt;
  close_good = λ d g. tt;
}

one_row-Distinct : DistinctRows (pattern_kind first_char) one_row
unfolding find_row
one_row-Distinct = (refl, tt)

before-Distinct : Distinct (pattern_kind first_char) before.policy_pattern
unfolding find_node
before-Distinct = (refl, tt)

one_row-compiles :
    (id : ℕ) (r : RowPattern)
    → find_row (pattern_kind first_char) id one_row ≡ some r
    → compiles first_char r ≡ true
unfolding pattern_kind find_row compiles
one_row-compiles id r f = ground arith

before-fingerprints :
    (id : ℕ) (r : RowPattern) (n : NodePattern ℕ)
    → find_row (pattern_kind first_char) id one_row ≡ some r
    → find_node (pattern_kind first_char) id before.policy_pattern ≡ some n
    → same n.md5 ((pattern_kind first_char).row_md5 r) ≡ true
    → pattern_of first_char n ≡ row_pattern first_char r
unfolding pattern_kind find_row find_node bytes_compare memcmp
before-fingerprints id r n f k t = ground arith

-- Before, the address of a refused pattern is refused.
url_refused : autz_url_policy first_char 7 (120 ∷ []) before ≡ some false
unfolding autz_url_policy check_user find_node users_kind check_policy check_patterns
    pattern_matches
url_refused = refl

sync_pattern_list_example :
    (st' : UrlPolicy ℕ) × (d' : ℕ) × (sync_pattern_list first_char
        (λ id. (true, true))
        1000
        (some one_store)
        1000
        before
        0
      ≡ some (true, st', d'))
    × ((id_user : ℕ) (url : List ℕ)
        → (b : Bool) × (autz_url_policy first_char id_user url st' ≡ some b))
sync_pattern_list_example =
    sync_pattern_list-Decides first_char one_store (λ id. (true, true)) 1000 1000 one_row
      (λ d. Unit) before 0 (λ id. refl) (omega arith) one_store-IsServing tt one_row-Distinct
      before-Distinct one_row-compiles before-fingerprints ((120, refl), tt)
