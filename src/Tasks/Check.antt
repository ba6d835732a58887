-- ===== src/Tasks/Check.antt =====
-- What the statements of `task_check_limit` do to a row.
use ipstat.Base.{
  ℕ, ◌≤◌, ◌≡◌, ◌⊎◌, inl, inr, Bool, true, false, not, ◌&&◌, ◌||◌, List, [], ◌∷◌, ◌==◌, leb,
  if◌then◌else◌, arith,
}
use ipstat.Base.Int.{ℤ, pos, negsuc, ltb_ℤ, leb_ℤ, eq_ℤ}
use ipstat.Tasks.{
  Table, users, rules, Statement, set_active, Condition, unlimited, above_limit, within_limit,
  in_debt, has_balance, on_blocked, check_statements,
}

-- The columns that the conditions read, of Users or Rules; Rules has no balance and its type is not
-- read.
pub record LimitRow : Type 0 where
  pub table : Table
  pub type : ℕ
  pub limitation : ℤ
  pub traffic : ℕ
  pub balance : ℤ
  pub blocked : Bool
  pub active : Bool

-- `Type>=0 and Type<=3`, which only the statements for Users ask.
abbrev by_traffic : LimitRow → Bool
by_traffic r = elim r.table [ users ↦ leb r.type 3 | _ ↦ true ]

-- The conditions behind `where`.
unfoldable pub holds : Condition → LimitRow → Bool
holds unlimited r = by_traffic r && eq_ℤ r.limitation (negsuc 0) && not r.blocked
holds above_limit r =
    by_traffic r
    && ltb_ℤ r.limitation (pos r.traffic)
    && not (eq_ℤ r.limitation (negsuc 0))
    && not r.blocked
holds within_limit r = by_traffic r && leb_ℤ (pos r.traffic) r.limitation && not r.blocked
holds in_debt r = (r.type == 4) && ltb_ℤ r.balance (pos 0) && not r.blocked
holds has_balance r = (r.type == 4) && leb_ℤ (pos 0) r.balance && not r.blocked
holds on_blocked r = r.blocked

abbrev same_table : Table → Table → Bool
same_table users users = true
same_table rules rules = true
same_table _ _ = false

-- An accepted statement, at one row.
unfoldable pub apply_statement : Statement → LimitRow → LimitRow
apply_statement (set_active table value condition) r = record r {
  active = if same_table table r.table && holds condition r then value else r.active;
}
apply_statement _ r = r

unfoldable pub apply_all : List Statement → LimitRow → LimitRow
apply_all [] r = r
apply_all (s ∷ list) r = apply_all list (apply_statement s r)

-- A row from its fields.
abbrev row : Table → ℕ → ℤ → ℕ → ℤ → Bool → Bool → LimitRow
row table type limitation traffic balance blocked active = record {
  table = table;
  type = type;
  limitation = limitation;
  traffic = traffic;
  balance = balance;
  blocked = blocked;
  active = active;
}

users_row :
    (type : ℕ) (limitation : ℤ) (traffic : ℕ) (balance : ℤ) (blocked active : Bool)
    → type ≤ 4
    → (apply_all check_statements (row users type limitation traffic balance blocked active)).active
      ≡ (not blocked
          && (if type == 4
              then leb_ℤ (pos 0) balance
              else (eq_ℤ limitation (negsuc 0) || leb_ℤ (pos traffic) limitation)))
unfolding apply_all apply_statement holds
users_row type limitation traffic balance true active h = ground arith
users_row type limitation traffic balance false active h = ground arith

rules_row :
    (type : ℕ) (limitation : ℤ) (traffic : ℕ) (balance : ℤ) (blocked active : Bool)
    → (apply_all check_statements (row rules type limitation traffic balance blocked active)).active
      ≡ (not blocked && (eq_ℤ limitation (negsuc 0) || leb_ℤ (pos traffic) limitation))
unfolding apply_all apply_statement holds
rules_row type limitation traffic balance true active = ground arith
rules_row type limitation traffic balance false active = ground arith

-- Whether a row is to be active.
abbrev pub earns : LimitRow → Bool
earns r =
    if elim r.table [ users ↦ r.type == 4 | _ ↦ false ]
    then leb_ℤ (pos 0) r.balance
    else (eq_ℤ r.limitation (negsuc 0) || leb_ℤ (pos r.traffic) r.limitation)

-- Where every statement is accepted, a row of Users with a type up to 4, or of Rules, is active
-- afterwards if and only if it is not blocked and, for a user of type 4, its balance is not negative,
-- else its limit is -1 or its traffic is not above its limit.
pub check_statements-earns :
    (r : LimitRow)
    → ((r.table ≡ users) × (r.type ≤ 4)) ⊎ (r.table ≡ rules)
    → (apply_all check_statements r).active ≡ (not r.blocked && earns r)
check_statements-earns r (inl (t, h)) =
    rw t (users_row r.type r.limitation r.traffic r.balance r.blocked r.active h)
check_statements-earns r (inr t) =
    rw t (rules_row r.type r.limitation r.traffic r.balance r.blocked r.active)
