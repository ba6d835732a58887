-- ===== src/Tasks/Examples.antt =====
-- Tests of src/src/tasks.c.
use ipstat.Base.{
  ℕ, zero, suc, ◌+◌, ◌*◌, ◌≤◌, length, ◌≡◌, inl, refl, Bool, true, false, not, ◌&&◌, some, none,
  List, [], ◌∷◌, All, if◌then◌else◌, arith,
}
use ipstat.Base.Int.{pos, negsuc}
use ipstat.Store.{RowStore}
use ipstat.Tasks.{
  Statement, no_autocommit, start_transaction, commit, rollback, keep_day, clear_day, users,
  in_transaction, run_task, exec_all, try_all, check_statements,
}
use ipstat.Tasks.Once.{
  IsTransactional, IsChange, effects, run_task-once, IsCounting, run_task-calls,
}
use ipstat.Tasks.Check.{LimitRow, earns, apply_all, check_statements-earns}

-- A database of one row of Users, TDay and YDay: what is stored, what the session sees, and how many
-- changes it still refuses.
pub record Days : Type 0 where
  pub stored : ℕ × ℕ
  pub seen : ℕ × ℕ
  pub faults : ℕ

abbrev effect : Statement → ℕ × ℕ → ℕ × ℕ
effect (keep_day users) x = (x.0, x.0)
effect (clear_day users) x = (0, x.1)
effect _ x = x

abbrev change_at : ℕ → Statement → Days → Bool × Days
change_at zero s d = (true, record d { seen = effect s d.seen })
change_at (suc n) s d = (false, record d { faults = n })

abbrev change : Statement → Days → Bool × Days
change s d = change_at d.faults s d

abbrev execute : Statement → Days → Bool × Days
execute no_autocommit d = (true, d)
execute start_transaction d = (true, record d { stored = d.seen })
execute commit d = (true, record d { stored = d.seen })
execute rollback d = (true, record d { seen = d.stored })
execute (keep_day t) d = change (keep_day t) d
execute (clear_day t) d = change (clear_day t) d
execute s d = (true, d)

abbrev day_store : RowStore Days ℕ ℕ Statement
day_store = record {
  open_session = λ d. (true, record d { seen = d.stored });
  select = λ q d. (none, d);
  exec = λ s d. execute s d;
  close = λ d. d;
}

day_store-IsTransactional :
    IsTransactional day_store (λ s x. effect s x) (λ d. d.stored) (λ d. d.seen) (λ d. Unit)
day_store-IsTransactional = record {
  stored-open = λ d. refl;
  seen-open = λ d. refl;
  stored-close = λ d. refl;
  stored-no_autocommit = λ d. refl;
  seen-no_autocommit = λ d. refl;
  manual-no_autocommit = λ d e. tt;
  manual-start = λ d m. tt;
  stored-start = λ d. refl;
  seen-start = λ d. refl;
  stored-commit = λ d. refl;
  stored-rollback = λ d. refl;
  seen-rollback = λ d. refl;
}

abbrev the_changes : List Statement
the_changes = keep_day users ∷ clear_day users ∷ []

changed :
    (n : ℕ) (s : Statement) (d : Days)
    → let (ok, d') = change_at n s d in
      (d'.stored ≡ d.stored) × (d'.seen ≡ (if ok then effect s d.seen else d.seen)) × Unit {0}
changed zero s d = (refl, refl, tt)
changed (suc n) s d = (refl, refl, tt)

the_changes-IsChange :
    All
      (IsChange day_store (λ s x. effect s x) (λ d. d.stored) (λ d. d.seen) (λ d. Unit))
      the_changes
the_changes-IsChange =
    (λ d m. changed d.faults (keep_day users) d, (λ d m. changed d.faults (clear_day users) d, tt))

-- TDay is 50; two statements will be refused.
abbrev two_faults : Days
two_faults = record { stored = (50, 7); seen = (50, 7); faults = 2 }

-- The third try succeeds.
third_try : (run_task (some day_store) (in_transaction the_changes) two_faults).1.stored ≡ (0, 50)
unfolding run_task try_all exec_all
third_try = refl

run_task-once_example :
    let (ok, d') = run_task (some day_store) (in_transaction the_changes) two_faults in
    d'.stored ≡ (if ok then effects (λ s x. effect s x) the_changes (50, 7) else (50, 7))
run_task-once_example =
    run_task-once day_store (λ s x. effect s x) (λ d. d.stored) (λ d. d.seen) (λ d. Unit)
      day_store-IsTransactional the_changes two_faults the_changes-IsChange refl

abbrev at_limit : LimitRow
at_limit = record {
  table = users;
  type = 1;
  limitation = pos 100;
  traffic = 100;
  balance = negsuc 4;
  blocked = false;
  active = false;
}

check_statements-earns_example :
    (apply_all check_statements at_limit).active ≡ (not at_limit.blocked && earns at_limit)
check_statements-earns_example = check_statements-earns at_limit (inl (refl, omega arith))

-- A database that refuses every statement and counts the calls.
abbrev deaf_store : RowStore ℕ ℕ ℕ Statement
deaf_store = record {
  open_session = λ d. (true, d + 1);
  select = λ q d. (none, d);
  exec = λ s d. (false, d + 1);
  close = λ d. d + 1;
}

deaf_store-IsCounting : IsCounting deaf_store (λ d. d)
deaf_store-IsCounting = record {
  calls-open = λ d. refl;
  calls-exec = λ s d. refl;
  calls-close = λ d. refl;
}

-- Four times the first statement and the rollback, and the opening.
deaf_calls : (run_task (some deaf_store) (in_transaction the_changes) 0).1 ≡ 9
unfolding run_task try_all exec_all
deaf_calls = refl

run_task-calls_example :
    (run_task (some deaf_store) (in_transaction the_changes) 0).1
    ≤ 0 + 4 * (length (in_transaction the_changes) + 1) + 2
run_task-calls_example =
    run_task-calls deaf_store (λ d. d) deaf_store-IsCounting (in_transaction the_changes) 0
