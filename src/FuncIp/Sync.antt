-- ===== src/FuncIp/Sync.antt =====
-- `ip_sync` of src/func_ip.c: nothing is logged twice.
use ipstat.Base.{
  ℕ, zero, suc, ◌+◌, ◌≤◌, ◌≡◌, refl, sym, Bool, true, false, ◌&&◌, Option, none, some, List, [],
  ◌∷◌, ◌==◌, if◌then◌else◌, arith, Returns, Ensures, Bool-cases, inl, inr,
}
use ipstat.Base.Memory.{bytes_compare}
use ipstat.Gtree.{ITree, in_order, i_tree_new, i_tree_traverse}
use ipstat.Gtree.Entries.{entries}
use ipstat.Gtree.Table.{IsTable}
use ipstat.Gtree.Walk.{walk}
use ipstat.Gtree.Write.{sum_of, same}
use ipstat.Gtree.Traverse.{i_tree_traverse-IsTable}
use ipstat.Store.Log.{
  IsLog, Single, Exported, written, query-Exported, query-Single, open-Single, close-Single,
  again-Exported,
}
use ipstat.FuncIp.{
  StValue, IpState, IpStore, fields, count_ip, insert_ip, update_ip, write_ip, ip_export,
  export_loop, ip_traverse_sync, ip_sync,
}
use ipstat.FuncIp.Account.{bytes_in}

-- The table Log_IP in the database server: its rows for the current date.
abbrev pub IsIpLog : {Db : Type 0} → IpStore Db → (rows logged : List ℕ → Db → ℕ) → Type 0
IsIpLog store rows logged = IsLog store count_ip insert_ip update_ip rows logged

-- What the table in memory holds for a row of Log_IP.
abbrev pub in_memory : List ℕ → ITree (List ℕ) StValue → ℕ
in_memory row = bytes_in (λ key. same row (fields key))

module _ {Db : Type 0} (store : IpStore Db) (rows logged : List ℕ → Db → ℕ)
    (log : IsIpLog store rows logged) where
  abbrev pub OneRow : Db → Type 0
  OneRow = Single store count_ip insert_ip update_ip rows logged log

  abbrev pub Sent : List ℕ → ℕ → Db → Bool × Db → Type 0
  Sent = Exported store count_ip insert_ip update_ip rows logged log

  sent :
      (row : List ℕ) (size : ℕ) (answer : Option ℕ) (d : Db)
      → OneRow d
      → Ensures (λ n. n ≡ rows row d) answer
      → Sent row size d (write_ip store row size answer d)
  unfolding write_ip
  sent row size none d s e = (s, λ j. omega arith)
  sent row size (some n) d s e =
      written store count_ip insert_ip update_ip rows logged log (n == 0) row size d s
        (λ z. ground (arith, s row)) (λ z. ground (arith, s row))

  ip_export-Sent :
      (mem : Bool) (key : List ℕ) (size : ℕ) (d : Db)
      → OneRow d
      → Sent (fields key) size d (ip_export store mem key size d)
  unfolding ip_export
  ip_export-Sent false key size d s = (s, λ j. omega arith)
  ip_export-Sent true key size d s =
      let row = fields key in
      let (answer, d₁) = store.query (count_ip row) d in
      query-Exported store count_ip insert_ip update_ip rows logged log row size d
        (write_ip store row size answer d₁)
        (sent row size answer d₁
          (query-Single store count_ip insert_ip update_ip rows logged log row d s)
          (rw (log.rows-query row row d) (log.answer-query row d)))

  -- The loop at `l_start`, where the log has at most one row for each key: TRUE means that the record is in the log once, FALSE that no try put
  -- it there.
  pub export_loop-Sent :
      (mem : ℕ → Bool) (key : List ℕ) (size n_repeat : ℕ) (d : Db)
      → OneRow d
      → Sent (fields key) size d (export_loop store mem key size n_repeat d)
  unfolding export_loop
  export_loop-Sent mem key size zero d s = ip_export-Sent (mem 0) key size d s
  export_loop-Sent mem key size (suc n) d s =
      let (ok, d₁) = ip_export store (mem (suc n)) key size d in
      let first = ip_export-Sent (mem (suc n)) key size d s in
      elim (Bool-cases ok) [
        | inl e ↦ rw e (first.0, λ j. let h = first.1 j in rw e at h)
        | inr e ↦ rw e (
            again-Exported store count_ip insert_ip update_ip rows logged log (fields key) size d
              (ok, d₁) (export_loop store mem key size n d₁) first e
              (export_loop-Sent mem key size n d₁ first.0))
      ]

  -- Each row gets at most what the entries have for it.
  abbrev Bounded : List (List ℕ × StValue) → Db → Db → Type 0
  Bounded m d d' =
      OneRow d'
      × ((j : List ℕ)
          → (logged j d ≤ logged j d')
            × (logged j d' ≤ logged j d + sum_of (λ v. v.bytes) (λ key. same j (fields key)) m))

  part :
      (ok mine : Bool) (size a b : ℕ)
      → b ≡ a + (if ok && mine then size else 0)
      → (a ≤ b) × (b ≤ a + (if mine then size else 0))
  part ok mine size a b h = ground arith

  module _ (mem : List ℕ → ℕ → Bool) where
    walk-Bounded :
        (m : List (List ℕ × StValue)) (d : Db)
        → OneRow d
        → Bounded m d (walk (ip_traverse_sync store mem) m d).2
    unfolding walk ip_traverse_sync
    walk-Bounded [] d s = (s, λ j. (omega arith, omega arith))
    walk-Bounded ((k, v) ∷ m) d s =
        let (ok, d₁) = export_loop store (mem k) k v.bytes 3 d in
        let (s₁, l) = export_loop-Sent (mem k) k v.bytes 3 d s in
        let (s₂, r) = walk-Bounded m d₁ s₁ in
        (
          s₂,
          λ j.
              let p = part ok (same j (fields k)) v.bytes _ _ (l j) in
              (omega (arith, p, r j), omega (arith, p, r j)),
        )

  -- The outcome of `ip_sync` with a table in memory.
  abbrev pub Synced : ITree (List ℕ) StValue → Db → Bool × IpState × Db → Type 0
  Synced t d (ok, s', d') =
      (ok ≡ true)
      × (s'.locked ≡ false)
      × (s'.flag_export ≡ false)
      × OneRow d'
      × Returns
          (λ t'.
            IsTable t'
            × ((row : List ℕ)
                → (logged row d ≤ logged row d')
                  × (in_memory row t' + logged row d' ≤ in_memory row t + logged row d)))
          s'.ag_ip

  opened :
      (mem : List ℕ → ℕ → Bool) (t : ITree (List ℕ) StValue) (d : Db)
      → IsTable t
      → OneRow d
      → let (_, d₂) =
          i_tree_traverse (ip_traverse_sync store mem) in_order t (store.open_session d).1 in
        OneRow (store.close d₂)
        × ((row : List ℕ)
            → (logged row d ≤ logged row (store.close d₂))
              × (logged row (store.close d₂) ≤ logged row d + in_memory row t))
  opened mem t d h s =
      let d₁ = (store.open_session d).1 in
      let (g, p, q) = i_tree_traverse-IsTable (ip_traverse_sync store mem) t d₁ h in
      let (s', r) =
        walk-Bounded mem (entries t.root) d₁
          (open-Single store count_ip insert_ip update_ip rows logged log d s) in
      rw q (
        close-Single store count_ip insert_ip update_ip rows logged log _ s',
        λ row.
            rw
              (
                log.logged-close row (walk (ip_traverse_sync store mem) (entries t.root) d₁).2,
                sym (log.logged-open row d),
              )
              (r row),
      )

  -- With a valid table, at most one row in the log for each key, the lock free, no export under way and
  -- memory for the new table, `ip_sync` ends and returns TRUE, whatever statements the database refuses. The lock is free again, the table valid,
  -- and each row has one line in the log. No row loses traffic in the log, and the log and the memory
  -- together never gain any: nothing is logged twice.
  pub ip_sync-Synced :
      (mem : List ℕ → ℕ → Bool) (s : IpState) (t : ITree (List ℕ) StValue) (d : Db)
      → s.ag_ip ≡ some t
      → s.locked ≡ false
      → s.flag_export ≡ false
      → IsTable t
      → OneRow d
      → Returns (Synced t d) (ip_sync (some store) true mem s d)
  unfolding ip_sync i_tree_new
  ip_sync-Synced mem s t d a l f h r = elim (Bool-cases (store.open_session d).0) [
    | inr e ↦
        rw (f, ip_sync)
          (rw e (
            refl,
            l,
            refl,
            open-Single store count_ip insert_ip update_ip rows logged log d r,
            rw a (h, λ row. rw (log.logged-open row d) (omega arith, omega arith)),
          ))
    | inl e ↦
        let (r', b) = opened mem t d h r in
        rw (f, ip_sync)
          (rw e (
            rw l (
              rw a (
                refl,
                refl,
                refl,
                r',
                (
                  record { balanced = tt; ascending = tt },
                  λ row. ((b row).0, omega (arith, (b row).1)),
                ),
              ))))
  ]
