-- ===== src/Store/Small.antt =====
-- A small database for the tests of the clients of src/store.c: one table, and statements that are
-- refused by a list.
use ipstat.Base.{
  ℕ, ◌+◌, ◌*◌, ◌≡◌, refl, Bool, true, false, ◌&&◌, none, some, List, [], ◌∷◌, if◌then◌else◌, arith,
  Ensures, Bool-cases, inl, inr,
}
use ipstat.Base.Memory.{bytes_compare}
use ipstat.Gtree.Write.{same}
use ipstat.Store.{StoreApi}
use ipstat.Store.Log.{IsLog, IsUp}

-- The rows and the sums of each key, and whether the coming statements are refused.
pub record Db : Type 0 where
  pub refusals : List Bool
  pub rows : List ℕ → ℕ
  pub sums : List ℕ → ℕ

abbrev refuses : List Bool → Bool
refuses [] = false
refuses (b ∷ bs) = b

abbrev later : List Bool → List Bool
later [] = []
later (b ∷ bs) = bs

abbrev tick : Db → Db
tick d = record d { refusals = later d.refusals }

-- What a statement does to the table.
pub data Change : Type 0 where
  insert_row update_row : ℕ → List ℕ → Change
  no_change : Change

abbrev pub apply : Change → Db → Db
apply (insert_row size id) d = record d {
  rows = λ j. d.rows j + (if same j id then 1 else 0);
  sums = λ j. d.sums j + (if same j id then size else 0);
}
apply (update_row size id) d = record d {
  sums = λ j. d.sums j + (if same j id then size * d.rows j else 0);
}
apply no_change d = d

abbrev pub attempt : Bool → Change → Db → Bool × Db
attempt true e d = (false, d)
attempt false e d = (true, apply e d)

answer : (b : Bool) (n : ℕ) → Ensures (λ m. m ≡ n) (if b then none else some n)
answer true n = tt
answer false n = refl

module _ (b : Bool) (j id : List ℕ) (size : ℕ) (d : Db) where
  attempt_insert :
      let (ok, d') = attempt b (insert_row size id) d in
      (d'.rows j ≡ d.rows j + (if ok && same j id then 1 else 0))
      × (d'.sums j ≡ d.sums j + (if ok && same j id then size else 0))
  attempt_insert = elim (Bool-cases b) [
    | inl e ↦ rw e (omega arith, omega arith)
    | inr e ↦ rw e (refl, refl)
  ]

  attempt_update :
      let (ok, d') = attempt b (update_row size id) d in
      (d'.rows j ≡ d.rows j)
      × (d'.sums j ≡ d.sums j + (if ok && same j id then size * d.rows j else 0))
  attempt_update = elim (Bool-cases b) [
    | inl e ↦ rw e (refl, omega arith)
    | inr e ↦ rw e (refl, refl)
  ]

module _ {Query Exec : Type 0} (key : Query → List ℕ) (change : Exec → Change) where
  abbrev pub small_store : StoreApi Db Query Exec
  small_store = record {
    open_session = λ d. (true, d);
    query = λ q d. (if refuses d.refusals then none else some (d.rows (key q)), tick d);
    exec = λ e d. attempt (refuses d.refusals) (change e) (tick d);
    close = λ d. d;
  }

  -- The same, but nothing is refused.
  abbrev pub calm_store : StoreApi Db Query Exec
  calm_store = record small_store {
    query = λ q d. (some (d.rows (key q)), d);
    exec = λ e d. (true, apply (change e) d);
  }

  pub calm_store-IsUp : IsUp calm_store
  calm_store-IsUp = record { opens = λ d. refl; answers = λ q d e. cc; accepts = λ e d. refl }

  module _ (count : List ℕ → Query) (insert update : ℕ → List ℕ → Exec)
      (counts : (id : List ℕ) → key (count id) ≡ id)
      (inserts : (size : ℕ) (id : List ℕ) → change (insert size id) ≡ insert_row size id)
      (updates : (size : ℕ) (id : List ℕ) → change (update size id) ≡ update_row size id) where
    pub small_store-IsLog :
        IsLog small_store count insert update (λ j d. d.rows j) (λ j d. d.sums j)
    small_store-IsLog = record {
      rows-open = λ j d. refl;
      logged-open = λ j d. refl;
      rows-close = λ j d. refl;
      logged-close = λ j d. refl;
      rows-query = λ j id d. refl;
      logged-query = λ j id d. refl;
      answer-query = λ id d. rw (counts id) (answer (refuses d.refusals) (d.rows id));
      rows-insert = λ j id size d.
          rw (inserts size id) (attempt_insert (refuses d.refusals) j id size (tick d)).0;
      logged-insert = λ j id size d.
          rw (inserts size id) (attempt_insert (refuses d.refusals) j id size (tick d)).1;
      rows-update = λ j id size d.
          rw (updates size id) (attempt_update (refuses d.refusals) j id size (tick d)).0;
      logged-update = λ j id size d.
          rw (updates size id) (attempt_update (refuses d.refusals) j id size (tick d)).1;
    }

    pub calm_store-IsLog : IsLog calm_store count insert update (λ j d. d.rows j) (λ j d. d.sums j)
    calm_store-IsLog = record {
      rows-open = λ j d. refl;
      logged-open = λ j d. refl;
      rows-close = λ j d. refl;
      logged-close = λ j d. refl;
      rows-query = λ j id d. refl;
      logged-query = λ j id d. refl;
      answer-query = λ id d. rw (counts id) refl;
      rows-insert = λ j id size d. rw (inserts size id) refl;
      logged-insert = λ j id size d. rw (inserts size id) refl;
      rows-update = λ j id size d. rw (updates size id) refl;
      logged-update = λ j id size d. rw (updates size id) refl;
    }
