-- ===== src/CoreUsers/Distinct.antt =====
-- The list of users in src/core_users.c keeps distinct identifiers, and its count is right.
use ipstat.Base.{
  ℕ, ◌+◌, ◌≡◌, refl, inl, inr, Bool, true, false, ◌==◌, none, some, List, [], ◌∷◌, ◌++◌, length,
  length-append, arith, Option-cases, if◌then◌else◌,
}
use ipstat.CoreUsers.Data.{NodeUser, Core}
use ipstat.CoreUsers.Table.{
  is_null, users_of, find_id, users_find, remove_user, users_insert, users_delete,
}

abbrev pub Distinct : List NodeUser → Type 0
Distinct [] = Unit
Distinct (u ∷ us) = (find_id u.id us ≡ none) × Distinct us

pub record IsTable (c : Core) : Type 0 where
  pub distinct : Distinct (users_of c)
  pub counted : c.cur_users ≡ length (users_of c)

find_id-append :
    (j : ℕ) (us : List NodeUser) (v : NodeUser)
    → find_id j (us ++ (v ∷ []))
      ≡ elim (find_id j us) [ none ↦ if v.id == j then some v else none | some u ↦ some u ]
find_id-append j [] v = refl
find_id-append j (u ∷ us) v = ground (arith, find_id-append j us v)

append-Distinct :
    (us : List NodeUser) (v : NodeUser)
    → find_id v.id us ≡ none
    → Distinct us
    → Distinct (us ++ (v ∷ []))
append-Distinct [] v e h = (refl, tt)
append-Distinct (u ∷ us) v e h = ground (arith, find_id-append u.id us v, append-Distinct us v)

find_id-remove_user :
    (key j : ℕ) (us : List NodeUser)
    → Distinct us
    → find_id j (remove_user key us) ≡ (if key == j then none else find_id j us)
unfolding remove_user
find_id-remove_user key j [] h = ground arith
find_id-remove_user key j (u ∷ us) h = ground (arith, find_id-remove_user key j us h.1)

remove_user-Distinct : (key : ℕ) (us : List NodeUser) → Distinct us → Distinct (remove_user key us)
unfolding remove_user
remove_user-Distinct key [] h = tt
remove_user-Distinct key (u ∷ us) h =
    ground (arith, remove_user-Distinct key us h.1, find_id-remove_user key u.id us h.1)

length-remove_user :
    (key : ℕ) (us : List NodeUser)
    → length us ≡ length (remove_user key us) + elim (find_id key us) [ none ↦ 0 | some u ↦ 1 ]
unfolding remove_user
length-remove_user key [] = refl
length-remove_user key (w ∷ us) = ground (arith, length-remove_user key us)

-- Given memory, `users_insert` of a new identifier keeps the table, appends the node, and finds it.
pub users_insert-IsTable :
    (c : Core) (v : NodeUser)
    → IsTable c
    → is_null c ≡ false
    → users_find c v.id ≡ none
    → IsTable (users_insert true true c v).0
      × ((users_insert true true c v).1 ≡ some v)
      × (users_of (users_insert true true c v).0 ≡ users_of c ++ (v ∷ []))
unfolding users_insert users_find
users_insert-IsTable c v h z n =
    ground (arith, append-Distinct (users_of c) v, length-append (users_of c) (v ∷ []))

-- `users_delete` keeps the table. It reports whether the identifier was there; after it no user has
-- the identifier and every other is as before. The user's node, with the time of the deletion, comes
-- last in `clean_list`; where there is no memory for the cell, `clean_list` is lost.
pub users_delete-IsTable :
    (cell_mem : Bool) (now key : ℕ) (c : Core) (j : ℕ)
    → IsTable c
    → let (c', found) = users_delete cell_mem now c key in
      IsTable c'
      × (users_find c' j ≡ (if key == j then none else users_find c j))
      × (c'.clean_list ≡ elim (users_find c key) [
        | none ↦ c.clean_list
        | some u ↦ if cell_mem then c.clean_list ++ (record u { time_live = now } ∷ []) else []
      ])
      × (found ≡ elim (users_find c key) [ none ↦ false | some u ↦ true ])
unfolding users_delete users_find
users_delete-IsTable cell_mem now key c j h = elim (Option-cases (find_id key (users_of c))) [
  | inl e ↦ ground (arith, find_id-remove_user key j (users_of c) h.distinct)
  | inr (u, e) ↦ ground (
    arith,
    find_id-remove_user key j (users_of c) h.distinct,
    remove_user-Distinct key (users_of c) h.distinct,
    length-remove_user key (users_of c),
  )
]
