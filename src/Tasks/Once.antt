-- ===== src/Tasks/Once.antt =====
-- A task changes the database once or not at all.
use ipstat.Base.{
  ℕ, zero, suc, ◌+◌, ◌*◌, ◌≤◌, length, ◌≡◌, refl, sym, ◌∙◌, true, some, List, [], ◌∷◌, ◌++◌, All,
  if◌then◌else◌, Bool-cases, inl, inr, arith,
}
use ipstat.Store.{RowStore}
use ipstat.Tasks.{
  Statement, no_autocommit, start_transaction, commit, rollback, exec_all, try_all, run_task,
  in_transaction,
}

-- What the tasks rely on in the database server: `stored` is what is committed, `seen` what the session
-- sees, `IsManual` that `autocommit` is off. A session begins with what is committed. An accepted statement changes what the session sees and a refused one changes
-- nothing; a start commits what the session has changed before; a commit that is accepted stores what
-- the session sees; after a rollback the session sees what is stored, whether or not it is answered.
pub record IsTransactional {Db Query Row S : Type 0} (store : RowStore Db Query Row Statement)
    (effect : Statement → S → S) (stored seen : Db → S) (IsManual : Db → Type 0) : Type 0 where
  pub stored-open : (d : Db) → stored (store.open_session d).1 ≡ stored d
  pub seen-open : (d : Db) → seen (store.open_session d).1 ≡ stored d
  pub stored-close : (d : Db) → stored (store.close d) ≡ stored d
  pub stored-no_autocommit : (d : Db) → stored (store.exec no_autocommit d).1 ≡ stored d
  pub seen-no_autocommit : (d : Db) → seen (store.exec no_autocommit d).1 ≡ seen d
  pub manual-no_autocommit :
      (d : Db) → (store.exec no_autocommit d).0 ≡ true → IsManual (store.exec no_autocommit d).1
  pub manual-start : (d : Db) → IsManual d → IsManual (store.exec start_transaction d).1
  pub stored-start :
      (d : Db)
      → let (ok, d') = store.exec start_transaction d in
        stored d' ≡ (if ok then seen d else stored d)
  pub seen-start : (d : Db) → seen (store.exec start_transaction d).1 ≡ seen d
  pub stored-commit :
      (d : Db) → let (ok, d') = store.exec commit d in stored d' ≡ (if ok then seen d else stored d)
  pub stored-rollback : (d : Db) → stored (store.exec rollback d).1 ≡ stored d
  pub seen-rollback : (d : Db) → seen (store.exec rollback d).1 ≡ stored d

-- A statement that only changes what the session sees, where no statement is committed at once.
abbrev pub IsChange :
    {Db Query Row S : Type 0}
    → RowStore Db Query Row Statement
    → (Statement → S → S)
    → (stored seen : Db → S) → (Db → Type 0)
    → Statement
    → Type 0
IsChange {Db} store effect stored seen IsManual s =
    (d : Db)
    → IsManual d
    → let (ok, d') = store.exec s d in
      (stored d' ≡ stored d) × (seen d' ≡ (if ok then effect s (seen d) else seen d)) × IsManual d'

unfoldable pub effects : {S : Type 0} → (Statement → S → S) → List Statement → S → S
effects effect [] x = x
effects effect (s ∷ list) x = effects effect list (effect s x)

module _ {Db Query Row S : Type 0} (store : RowStore Db Query Row Statement)
    (effect : Statement → S → S) (stored seen : Db → S) (IsManual : Db → Type 0)
    (law : IsTransactional store effect stored seen IsManual) where
  -- The changes and the commit.
  exec_all-commits :
      (list : List Statement) (d : Db)
      → IsManual d
      → All (IsChange store effect stored seen IsManual) list
      → let (ok, d') = exec_all store (list ++ (commit ∷ [])) d in
        stored d' ≡ (if ok then effects effect list (seen d) else stored d)
  unfolding exec_all effects
  exec_all-commits [] d m c = ground (arith, law.stored-commit d)
  exec_all-commits (s ∷ list) d m c =
      let (a, b, e) = c.0 d m in
      ground (arith, exec_all-commits list (store.exec s d).1 e c.1, a, b)

  -- One transaction, from a session that has changed nothing.
  transaction-commits :
      (list : List Statement) (d : Db)
      → All (IsChange store effect stored seen IsManual) list
      → seen d ≡ stored d
      → let (ok, d') = exec_all store (in_transaction list) d in
        stored d' ≡ (if ok then effects effect list (stored d) else stored d)
  unfolding exec_all
  transaction-commits list d c e =
      let d₁ = (store.exec no_autocommit d).1 in
      let d₂ = (store.exec start_transaction d₁).1 in
      elim (Bool-cases (store.exec no_autocommit d).0) [
        | inl a ↦
            let m = law.manual-start d₁ (law.manual-no_autocommit d a) in
            ground (
              arith,
              a,
              e,
              exec_all-commits list d₂ m c,
              law.stored-start d₁,
              law.seen-start d₁,
              law.seen-no_autocommit d,
              law.stored-no_autocommit d,
            )
        | inr a ↦ ground (arith, a, law.stored-no_autocommit d)
      ]

  -- Some tries.
  try_all-commits :
      (count : ℕ) (list : List Statement) (d : Db)
      → All (IsChange store effect stored seen IsManual) list
      → seen d ≡ stored d
      → let (ok, d') = try_all store count (in_transaction list) d in
        stored d' ≡ (if ok then effects effect list (stored d) else stored d)
  unfolding try_all
  try_all-commits zero list d c e = refl
  try_all-commits (suc count) list d c e =
      let d' = (exec_all store (in_transaction list) d).1 in
      let r = law.stored-rollback d' in
      let f = law.seen-rollback d' ∙ sym r in
      ground (
        arith,
        transaction-commits list d c e,
        r,
        try_all-commits count list (store.exec rollback d').1 c f,
      )

  -- A task whose statements are changes, run where the store is loaded and a session opens, changes
  -- the committed data once by all its statements, and returns TRUE, or returns FALSE and has changed
  -- nothing.
  pub run_task-once :
      (list : List Statement) (d : Db)
      → All (IsChange store effect stored seen IsManual) list
      → (store.open_session d).0 ≡ true
      → let (ok, d') = run_task (some store) (in_transaction list) d in
        stored d' ≡ (if ok then effects effect list (stored d) else stored d)
  unfolding run_task
  run_task-once list d c o =
      let d₁ = (store.open_session d).1 in
      let d₂ = (try_all store 4 (in_transaction list) d₁).1 in
      let e = law.seen-open d ∙ sym (law.stored-open d) in
      ground (arith, o, try_all-commits 4 list d₁ c e, law.stored-open d, law.stored-close d₂)

-- Each call of the database counts one.
pub record IsCounting {Db Query Row : Type 0} (store : RowStore Db Query Row Statement)
    (calls : Db → ℕ) : Type 0 where
  pub calls-open : (d : Db) → calls (store.open_session d).1 ≡ calls d + 1
  pub calls-exec : (s : Statement) (d : Db) → calls (store.exec s d).1 ≡ calls d + 1
  pub calls-close : (d : Db) → calls (store.close d) ≡ calls d + 1

module _ {Db Query Row : Type 0} (store : RowStore Db Query Row Statement) (calls : Db → ℕ)
    (counts : IsCounting store calls) where
  suc-mul : (n m : ℕ) → suc n * m ≡ n * m + m
  suc-mul n m = omega arith

  exec_all-calls :
      (list : List Statement) (d : Db) → calls (exec_all store list d).1 ≤ calls d + length list
  unfolding exec_all
  exec_all-calls [] d = omega arith
  exec_all-calls (s ∷ list) d =
      ground (arith, exec_all-calls list (store.exec s d).1, counts.calls-exec s d)

  try_all-calls :
      (count : ℕ) (list : List Statement) (d : Db)
      → calls (try_all store count list d).1 ≤ calls d + count * (length list + 1)
  unfolding try_all
  try_all-calls zero list d = omega arith
  try_all-calls (suc count) list d =
      let d' = (exec_all store list d).1 in
      let d″ = (store.exec rollback d').1 in
      ground (
        arith,
        exec_all-calls list d,
        counts.calls-exec rollback d',
        try_all-calls count list d″,
        suc-mul count (length list + 1),
      )

  -- A task ends: whatever the database answers, it calls it at most four times for each statement and
  -- four times for the rollback, and twice for the session.
  pub run_task-calls :
      (list : List Statement) (d : Db)
      → calls (run_task (some store) list d).1 ≤ calls d + 4 * (length list + 1) + 2
  unfolding run_task
  run_task-calls list d =
      let d₁ = (store.open_session d).1 in
      let d₂ = (try_all store 4 list d₁).1 in
      ground (arith, counts.calls-open d, try_all-calls 4 list d₁, counts.calls-close d₂)
