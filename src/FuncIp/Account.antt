-- ===== src/FuncIp/Account.antt =====
-- `ip_acct` of src/func_ip.c: what the table holds for any choice of keys.
use ipstat.Base.{
  ℕ, ◌+◌, ◌%◌, ◌^◌, ◌≤◌, ◌<◌, ◌≡◌, refl, sym, ap, ◌∙◌, Bool, true, false, ◌&&◌, Option, none, some,
  List, if◌then◌else◌, arith, Returns, Returns-bind, inl, inr, Option-cases,
}
use ipstat.Base.Int.{add32}
use ipstat.Base.Memory.{bytes_compare}
use ipstat.Gtree.{ITree, i_tree_lookup, i_tree_insert, node_write}
use ipstat.Gtree.Entries.{entries, put, find}
use ipstat.Gtree.Table.{IsTable, Stored, i_tree_insert-Stored, i_tree_lookup-find}
use ipstat.Gtree.Write.{sum_of, held_of, sum_of-put, write-IsTable}
use ipstat.Inet.{PacketInfo}
use ipstat.CoreUsers.Data.{PacketData}
use ipstat.FuncIp.{StValue, IpState, StackBytes, key_of, count_packet, acct_table, ip_acct}

abbrev pub bytes_in : (List ℕ → Bool) → ITree (List ℕ) StValue → ℕ
bytes_in p t = sum_of (λ v. v.bytes) p (entries t.root)

abbrev pub packets_in : (List ℕ → Bool) → ITree (List ℕ) StValue → ℕ
packets_in p t = sum_of (λ v. v.pkt) p (entries t.root)

-- The second number is the first and the added one, but for a multiple of 2^32 that a sum dropped.
abbrev pub Grown : ℕ → ℕ → ℕ → Type 0
Grown before more after = (after ≤ before + more) × (after % 2 ^ 32 ≡ (before + more) % 2 ^ 32)

grown :
    (mine : Bool) (old len before after : ℕ)
    → after + (if mine then old else 0) ≡ before + (if mine then add32 old len else 0)
    → Grown before (if mine then len else 0) after
grown true old len before after h = omega arith
grown false old len before after h = omega arith

-- The outcome of `ip_acct` in the table.
abbrev pub Counted : ITree (List ℕ) StValue → List ℕ → ℕ → Bool × ITree (List ℕ) StValue → Type 0
Counted t key len (ok, t') =
    IsTable t'
    × ((p : List ℕ → Bool)
        → Grown (bytes_in p t) (if ok && p key then len else 0) (bytes_in p t')
          × Grown (packets_in p t) (if ok && p key then 1 else 0) (packets_in p t'))

-- The value that a binding of the key leaves.
abbrev next : Option StValue → ℕ → StValue
next old len = record {
  pkt = add32 (held_of (λ v. v.pkt) old) 1;
  bytes = add32 (held_of (λ v. v.bytes) old) len;
}

module _ (t t' : ITree (List ℕ) StValue) (key : List ℕ) (len : ℕ) (h : IsTable t)
    (g : IsTable t') where
  counted :
      entries t'.root ≡ put key (next (find key (entries t.root)) len) (entries t.root)
      → Counted t key len (true, t')
  counted e =
      let m = entries t.root in
      let old = find key m in
      (
        g,
        λ p. rw e (
          grown (p key) (held_of (λ v. v.bytes) old) len _ _
              (sum_of-put (λ v. v.bytes) p key (next old len) m h.ascending),
          grown (p key) (held_of (λ v. v.pkt) old) 1 _ _
              (sum_of-put (λ v. v.pkt) p key (next old len) m h.ascending),
        ),
      )

module _ (t : ITree (List ℕ) StValue) (key : List ℕ) (len : ℕ) (h : IsTable t) where
  same_table : Counted t key len (false, t)
  same_table = (h, λ p. ((omega arith, omega arith), (omega arith, omega arith)))

  created :
      i_tree_lookup t key ≡ none
      → len < 2 ^ 32
      → (mem_key mem_value : Bool)
      → Returns (Counted t key len) (acct_table mem_key mem_value true t key len)
  unfolding acct_table
  created e b false mem_value = rw (e, acct_table) same_table
  created e b true false = rw (e, acct_table) same_table
  created e b true true =
      let f : find key (entries t.root) ≡ none = sym (i_tree_lookup-find t key h) ∙ e in
      let w : len ≡ add32 0 len = omega arith in
      let value : StValue = record { pkt = 1; bytes = len } in
      rw (e, acct_table)
        (Returns-bind (Stored t key value) (Counted t key len) (i_tree_insert true t key value) _
          (i_tree_insert-Stored t key value h)
          λ (t', i) s. counted t t' key len h s.table (
            rw f (s.stored ∙ ap (λ n. put key (record { pkt = 1; bytes = n }) (entries t.root)) w)))

  acct_table-Counted :
      len < 2 ^ 32
      → (mem_key mem_value : Bool)
      → Returns (Counted t key len) (acct_table mem_key mem_value true t key len)
  unfolding acct_table
  acct_table-Counted b mem_key mem_value = elim (Option-cases (i_tree_lookup t key)) [
    | inl e ↦ created e b mem_key mem_value
    | inr (old, e) ↦
        let (g, w) = write-IsTable t key old (count_packet old len) h e in
        let f : find key (entries t.root) ≡ some old = sym (i_tree_lookup-find t key h) ∙ e in
        rw (e, acct_table)
          (counted t (record { root = node_write t.root key (count_packet old len) }) key len h g
            (rw f w))
  ]

-- With a valid table, the lock free, a length of 32 bits and memory for a tree node, `ip_acct` ends. On TRUE it adds the length
-- and one packet to the 32-bit sums of the key of the packet and to no other; on FALSE no sum
-- changes. The table stays valid, and the lock free.
pub ip_acct-Counted :
    (mem_key mem_value : Bool) (stack : StackBytes) (s : IpState) (t : ITree (List ℕ) StValue)
    (p : PacketInfo) (d : PacketData)
    → s.ag_ip ≡ some t
    → s.locked ≡ false
    → IsTable t
    → d.len < 2 ^ 32
    → Returns
        (λ (ok, s').
          Returns (λ t'. Counted t (key_of stack p d) d.len (ok, t')) s'.ag_ip
          × (s'.locked ≡ false)
          × (s'.flag_export ≡ s.flag_export))
        (ip_acct mem_key mem_value true stack s p d)
unfolding ip_acct
ip_acct-Counted mem_key mem_value stack s t p d e l h b =
    rw (e, ip_acct)
      (rw l (
        Returns-bind (Counted t (key_of stack p d) d.len) _
          (acct_table mem_key mem_value true t (key_of stack p d) d.len) _
          (acct_table-Counted t (key_of stack p d) d.len h b mem_key mem_value)
          λ (ok, t') c. (c, refl, refl)))
