-- ===== src/CoreUsers/Table.antt =====
-- The list of users of src/core_users.c: `users_find`, `addr_find`, `users_insert`, `users_delete`.
-- A node belongs to one list, so a write through a pointer to it replaces the list's first node
-- with the identifier by which it was found.
use ipstat.Base.{
  ℕ, ◌+◌, ◌-◌, Bool, true, false, Option, none, some, List, [], ◌∷◌, ◌++◌, ◌==◌, if◌then◌else◌,
}
use ipstat.CoreUsers.Data.{NodeUser, Core}

abbrev pub find_id : ℕ → List NodeUser → Option NodeUser
find_id key [] = none
find_id key (u ∷ us) = if u.id == key then some u else find_id key us

abbrev pub find_addr : ℕ → List NodeUser → Option NodeUser
find_addr addr [] = none
find_addr addr (u ∷ us) = if u.addr == addr then some u else find_addr addr us

abbrev pub users_of : Core → List NodeUser
users_of c = elim c.st_users [ none ↦ [] | some us ↦ us ]

-- `!st_users`
abbrev pub is_null : Core → Bool
is_null c = elim c.st_users [ none ↦ true | some us ↦ false ]

-- Without `st_users` both return null.
unfoldable pub users_find : Core → ℕ → Option NodeUser
users_find c key = find_id key (users_of c)

unfoldable pub addr_find : Core → ℕ → Option NodeUser
addr_find c addr = if addr == 0 then none else find_addr addr (users_of c)

-- `node->… = …` for a node found by its identifier.
unfoldable pub write_user : NodeUser → List NodeUser → List NodeUser
write_user v [] = []
write_user v (u ∷ us) = if u.id == v.id then v ∷ us else u ∷ write_user v us

-- `g_list_remove` of the node that `users_delete` found.
unfoldable pub remove_user : ℕ → List NodeUser → List NodeUser
remove_user key [] = []
remove_user key (u ∷ us) = if u.id == key then us else u ∷ remove_user key us

-- The result is the node in the list, or null. `node_mem` and `cell_mem` say whether there is memory
-- for the node and for the list's cell: where there is none for the cell, `g_list_append` returns
-- null, and that becomes the list.
unfoldable pub users_insert : Bool → Bool → Core → NodeUser → Core × Option NodeUser
users_insert node_mem cell_mem c node = elim c.st_users [
  | none ↦ (c, none)
  | some us ↦
      if node_mem
      then (
        record c {
          st_users = some (if cell_mem then us ++ (node ∷ []) else []);
          cur_users = c.cur_users + 1;
        },
        if cell_mem then some node else none,
      )
      else (c, none)
]

-- The node moves to `clean_list`, its `time_live` set to the time `now`. `cell_mem` says whether
-- there is memory for a cell of `clean_list`; without it `g_list_append` returns null again.
unfoldable pub users_delete : Bool → ℕ → Core → ℕ → Core × Bool
unfolding remove_user
users_delete cell_mem now c key = elim c.st_users [
  | none ↦ (c, false)
  | some us ↦ elim (find_id key us) [
    | none ↦ (c, false)
    | some u ↦ (
      record c {
        st_users = some (remove_user key us);
        clean_list = if cell_mem then c.clean_list ++ (record u { time_live = now } ∷ []) else [];
        cur_users = c.cur_users - 1;
      },
      true,
    )
  ]
]
