-- ===== src/CoreUsers/Hooks.antt =====
-- The registration of hooks in src/core_users.c.
use ipstat.Base.{
  ℕ, ◌≡◌, ◌≢◌, refl, Bool, true, List, [], ◌∷◌, ◌++◌, ◌==◌, ==_refl, if◌then◌else◌, arith, All,
}
use ipstat.CoreUsers.Data.{Core}

-- `g_list_append`: where there is no memory for the cell it returns NULL, and the list is lost.
unfoldable pub append_hook : Bool → List ℕ → ℕ → List ℕ
append_hook mem hooks func = if mem then hooks ++ (func ∷ []) else []

-- `g_list_remove` takes the first cell with the address.
unfoldable pub remove_hook : List ℕ → ℕ → List ℕ
remove_hook [] func = []
remove_hook (h ∷ hooks) func =
    let rest = remove_hook hooks func in if h == func then hooks else h ∷ rest

unfoldable pub register_auth : Bool → Core → ℕ → Bool × Core
unfolding append_hook
register_auth mem c func = (true, record c { extern_auth = append_hook mem c.extern_auth func })

unfoldable pub register_autz : Bool → Core → ℕ → Bool × Core
unfolding append_hook
register_autz mem c func = (true, record c { extern_autz = append_hook mem c.extern_autz func })

unfoldable pub register_acct : Bool → Core → ℕ → Bool × Core
unfolding append_hook
register_acct mem c func = (true, record c { extern_acct = append_hook mem c.extern_acct func })

unfoldable pub unregister_auth : Core → ℕ → Bool × Core
unregister_auth c func = (true, record c { extern_auth = remove_hook c.extern_auth func })

unfoldable pub unregister_autz : Core → ℕ → Bool × Core
unregister_autz c func = (true, record c { extern_autz = remove_hook c.extern_autz func })

unfoldable pub unregister_acct : Core → ℕ → Bool × Core
unregister_acct c func = (true, record c { extern_acct = remove_hook c.extern_acct func })

abbrev pub Absent : ℕ → List ℕ → Type 0
Absent func = All (λ h. h ≢ func)

remove-append :
    (hooks : List ℕ) (func : ℕ)
    → Absent func hooks
    → remove_hook (hooks ++ (func ∷ [])) func ≡ hooks
unfolding remove_hook
remove-append [] func h = rw (==_refl func) refl
remove-append (x ∷ hooks) func h = ground (arith, remove-append hooks func h.1, h.0)

-- A plugin that finds memory when it registers its three hooks, which were not registered before, and
-- later unregisters the three, leaves the core as it was.
pub hooks_undone :
    (c : Core) (auth autz acct : ℕ)
    → Absent auth c.extern_auth
    → Absent autz c.extern_autz
    → Absent acct c.extern_acct
    → let (_, c₁) = register_auth true c auth in
      let (_, c₂) = register_autz true c₁ autz in
      let (_, c₃) = register_acct true c₂ acct in
      let (_, c₄) = unregister_auth c₃ auth in
      let (_, c₅) = unregister_autz c₄ autz in unregister_acct c₅ acct ≡ (true, c)
unfolding register_auth register_autz register_acct unregister_auth unregister_autz unregister_acct
    append_hook
hooks_undone c auth autz acct a b d =
    rw
      (
        remove-append c.extern_auth auth a,
        remove-append c.extern_autz autz b,
        remove-append c.extern_acct acct d,
      )
      refl
