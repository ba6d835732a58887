-- ===== src/FuncTime/Account.antt =====
-- `time_acct` of src/func_time.c: what the table holds for each user.

use ipstat.Base.{
  ℕ, ◌^◌, ◌<◌, ◌≡◌, refl, sym, ap, ◌∙◌, Bool, true, false, ◌&&◌, none, some, List, [], ◌∷◌,
  if◌then◌else◌, arith, Returns, Returns-bind, All, inl, inr, Option-cases,
}
use ipstat.Base.Int.{add32}
use ipstat.Base.Memory.{bytes_compare}
use ipstat.Gtree.{ITree, i_tree_lookup, i_tree_insert, node_write}
use ipstat.Gtree.Entries.{entries, put, find}
use ipstat.Gtree.Table.{IsTable, Stored, i_tree_insert-Stored, i_tree_lookup-find}
use ipstat.Gtree.Write.{total, held, write-IsTable, total-find, total-same-put, same, same_iff}
use ipstat.FuncTime.{TimeTable, time_acct}

-- What the table holds for a user.
abbrev pub in_memory : List ℕ → ITree (List ℕ) ℕ → ℕ
in_memory j t = total (same j) (entries t.root)

-- The table is valid, and its sums fit their type.
pub record IsTimeTable (t : ITree (List ℕ) ℕ) : Type 0 where
  pub table : IsTable t
  pub narrow : All (λ e. e.1 < 2 ^ 32) (entries t.root)

narrow-put :
    (key : List ℕ) (value : ℕ) (m : List (List ℕ × ℕ))
    → value < 2 ^ 32
    → All (λ e. e.1 < 2 ^ 32) m
    → All (λ e. e.1 < 2 ^ 32) (put key value m)
unfolding put
narrow-put key value [] b h = (b, tt)
narrow-put key value ((k, v) ∷ m) b h = ground (arith, narrow-put key value m b h.1)

-- The outcome of `time_acct`: the length is added to the 32-bit sum of its user, or to none.
abbrev pub Counted : ITree (List ℕ) ℕ → List ℕ → ℕ → Bool × TimeTable → Type 0
Counted t id_user len (ok, none) = ⊥
Counted t id_user len (ok, some t') =
    IsTimeTable t'
    × ((j : List ℕ)
        → in_memory j t'
          ≡ (if ok && same j id_user then add32 (in_memory j t) len else in_memory j t))

current :
    (t : ITree (List ℕ) ℕ) (j id_user : List ℕ) (old : ℕ)
    → IsTimeTable t
    → held (i_tree_lookup t id_user) ≡ old
    → same j id_user ≡ true
    → in_memory j t ≡ old
current t j id_user old h l e =
    total-find j (entries t.root) h.table.ascending
    ∙ (ap (λ k. held (find k (entries t.root))) ((same_iff j id_user).0 e)
        ∙ (ap held (sym (i_tree_lookup-find t id_user h.table)) ∙ l))

-- The two ways in which `time_acct` changes the table.
counted :
    (t t' : ITree (List ℕ) ℕ) (id_user : List ℕ) (old len : ℕ)
    → IsTimeTable t
    → held (i_tree_lookup t id_user) ≡ old
    → len < 2 ^ 32
    → IsTable t'
    → entries t'.root ≡ put id_user (add32 old len) (entries t.root)
    → Counted t id_user len (true, some t')
counted t t' id_user old len h l b g e = (
  record {
    table = g;
    narrow = rw e (narrow-put id_user (add32 old len) (entries t.root) (omega arith) h.narrow);
  },
  λ j.
      rw (e, total-same-put j id_user (add32 old len) (entries t.root) h.table.ascending)
        (ground (arith, current t j id_user old h l)),
)

created :
    (t : ITree (List ℕ) ℕ) (id_user : List ℕ) (len : ℕ)
    → IsTimeTable t
    → i_tree_lookup t id_user ≡ none
    → len < 2 ^ 32
    → (mem_key mem_value : Bool)
    → Returns (Counted t id_user len) (time_acct mem_key mem_value true (some t) id_user len)
unfolding time_acct
created t id_user len h e b false mem_value = rw (e, time_acct) (h, λ j. refl)
created t id_user len h e b true false = rw (e, time_acct) (h, λ j. refl)
created t id_user len h e b true true =
    rw (e, time_acct)
      (Returns-bind (Stored t id_user len) (Counted t id_user len)
        (i_tree_insert true t id_user len) _ (i_tree_insert-Stored t id_user len h.table)
        λ (t', i) s.
          counted t t' id_user 0 len h (ap held e) b s.table
            (let w : len ≡ add32 0 len = omega arith in rw w at s.stored))

-- `time_acct` with a valid table, a length of 32 bits and memory for a tree node reads and writes only the entry of the packet's user: on
-- TRUE the length is added to its sum as a 32-bit number, on FALSE nothing changes, and the table
-- stays valid.
pub time_acct-Counted :
    (mem_key mem_value : Bool) (t : ITree (List ℕ) ℕ) (id_user : List ℕ) (len : ℕ)
    → IsTimeTable t
    → len < 2 ^ 32
    → Returns (Counted t id_user len) (time_acct mem_key mem_value true (some t) id_user len)
unfolding time_acct
time_acct-Counted mem_key mem_value t id_user len h b =
    elim (Option-cases (i_tree_lookup t id_user)) [
      | inr (old, e) ↦
          let (g, w) = write-IsTable t id_user old (add32 old len) h.table e in
          rw (e, time_acct)
            (counted t (record { root = node_write t.root id_user (add32 old len) }) id_user old len
              h (ap held e) b g w)
      | inl e ↦ created t id_user len h e b mem_key mem_value
    ]
