-- ===== src/Store/Log.antt =====
-- What the clients of src/store.c rely on in the database server, for a table that has a sum of
-- traffic for each key.

use ipstat.Base.{
  ℕ, ◌+◌, ◌*◌, ◌≤◌, ◌≡◌, ◌≢◌, refl, ap, ◌∙◌, Bool, true, false, ◌&&◌, none, List, if◌then◌else◌,
  arith, Ensures,
}
use ipstat.Base.Memory.{bytes_compare}
use ipstat.Gtree.Write.{same, same_iff}
use ipstat.Store.{StoreApi}

-- What a client that logs sums of traffic relies on in the database server: `rows` counts the rows
-- of a table that have a key, and `logged` is the sum of their Traffic. A statement that is refused changes nothing, one that is
-- accepted does what it says, and opening or closing a session changes no table.
pub record IsLog {Db Query Exec : Type 0} (store : StoreApi Db Query Exec) (count : List ℕ → Query)
    (insert update : ℕ → List ℕ → Exec) (rows logged : List ℕ → Db → ℕ) : Type 0 where
  pub rows-open : (j : List ℕ) (d : Db) → rows j (store.open_session d).1 ≡ rows j d
  pub logged-open : (j : List ℕ) (d : Db) → logged j (store.open_session d).1 ≡ logged j d
  pub rows-close : (j : List ℕ) (d : Db) → rows j (store.close d) ≡ rows j d
  pub logged-close : (j : List ℕ) (d : Db) → logged j (store.close d) ≡ logged j d
  pub rows-query : (j id : List ℕ) (d : Db) → rows j (store.query (count id) d).1 ≡ rows j d
  pub logged-query : (j id : List ℕ) (d : Db) → logged j (store.query (count id) d).1 ≡ logged j d
  pub answer-query :
      (id : List ℕ) (d : Db) → Ensures (λ n. n ≡ rows id d) (store.query (count id) d).0
  pub rows-insert :
      (j id : List ℕ) (size : ℕ) (d : Db)
      → let (ok, d') = store.exec (insert size id) d in
        rows j d' ≡ rows j d + (if ok && same j id then 1 else 0)
  pub logged-insert :
      (j id : List ℕ) (size : ℕ) (d : Db)
      → let (ok, d') = store.exec (insert size id) d in
        logged j d' ≡ logged j d + (if ok && same j id then size else 0)
  pub rows-update :
      (j id : List ℕ) (size : ℕ) (d : Db) → rows j (store.exec (update size id) d).1 ≡ rows j d
  pub logged-update :
      (j id : List ℕ) (size : ℕ) (d : Db)
      → let (ok, d') = store.exec (update size id) d in
        logged j d' ≡ logged j d + (if ok && same j id then size * rows j d else 0)

when :
    (ok mine : Bool) (a b : ℕ)
    → (mine ≡ true → a ≡ b)
    → (if ok && mine then a else 0) ≡ (if ok && mine then b else 0)
when ok mine a b h = ground arith

-- Every call of the database succeeds.
pub record IsUp {Db Query Exec : Type 0} (store : StoreApi Db Query Exec) : Type 0 where
  pub opens : (d : Db) → (store.open_session d).0 ≡ true
  pub answers : (q : Query) (d : Db) → (store.query q d).0 ≢ none
  pub accepts : (e : Exec) (d : Db) → (store.exec e d).0 ≡ true

module _ {Db Query Exec : Type 0} (store : StoreApi Db Query Exec) (count : List ℕ → Query)
    (insert update : ℕ → List ℕ → Exec) (rows logged : List ℕ → Db → ℕ)
    (log : IsLog store count insert update rows logged) where
  -- No key has two rows.
  abbrev pub Single : Db → Type 0
  Single d = (j : List ℕ) → rows j d ≤ 1

  -- The outcome of an export: on success the size is added to the log of its key, else nothing is.
  abbrev pub Exported : List ℕ → ℕ → Db → Bool × Db → Type 0
  Exported id size d (ok, d') =
      Single d' × ((j : List ℕ) → logged j d' ≡ logged j d + (if ok && same j id then size else 0))

  rows_same : (j id : List ℕ) (d : Db) → same j id ≡ true → rows j d ≡ rows id d
  rows_same j id d h = ap (λ k. rows k d) ((same_iff j id).0 h)

  inserted :
      (id : List ℕ) (size : ℕ) (d : Db)
      → Single d
      → rows id d ≡ 0
      → Exported id size d (store.exec (insert size id) d)
  inserted id size d s e = (
    λ j. ground (arith, log.rows-insert j id size d, s j, rows_same j id d),
    λ j. log.logged-insert j id size d,
  )

  once :
      (j id : List ℕ) (size : ℕ) (d : Db)
      → rows id d ≡ 1
      → same j id ≡ true
      → size * rows j d ≡ size
  once j id size d e h = rw (rows_same j id d h, e) (omega arith)

  updated :
      (id : List ℕ) (size : ℕ) (d : Db)
      → Single d
      → rows id d ≡ 1
      → Exported id size d (store.exec (update size id) d)
  updated id size d s e = (
    λ j. rw (log.rows-update j id size d) (s j),
    λ j.
        log.logged-update j id size d
        ∙ ap (λ n. logged j d + n)
            (when (store.exec (update size id) d).0 (same j id) (size * rows j d) size
              (once j id size d e)),
  )

  -- The first export of a key inserts its row, the later ones update it.
  pub written :
      (new : Bool) (id : List ℕ) (size : ℕ) (d : Db)
      → Single d
      → (new ≡ true → rows id d ≡ 0)
      → (new ≡ false → rows id d ≡ 1)
      → Exported id size d (store.exec (if new then insert size id else update size id) d)
  written true id size d s z o = inserted id size d s (z refl)
  written false id size d s z o = updated id size d s (o refl)

  pub query-Single : (id : List ℕ) (d : Db) → Single d → Single (store.query (count id) d).1
  query-Single id d s j = rw (log.rows-query j id d) (s j)

  pub query-Exported :
      (id : List ℕ) (size : ℕ) (d : Db) (r : Bool × Db)
      → Exported id size (store.query (count id) d).1 r
      → Exported id size d r
  query-Exported id size d r (s, l) = (s, λ j. l j ∙ rw (log.logged-query j id d) refl)

  pub open-Single : (d : Db) → Single d → Single (store.open_session d).1
  open-Single d s j = rw (log.rows-open j d) (s j)

  pub close-Single : (d : Db) → Single d → Single (store.close d)
  close-Single d s j = rw (log.rows-close j d) (s j)

  -- A refused export, and one that is tried again after it.
  pub again-Exported :
      (id : List ℕ) (size : ℕ) (d : Db) (r r' : Bool × Db)
      → Exported id size d r
      → r.0 ≡ false
      → Exported id size r.1 r'
      → Exported id size d r'
  again-Exported id size d (ok, d') r' (s, l) e (s', l') =
      (s', λ j. let h = l j in let e = rw e at h in omega (arith, e, l' j))
