-- ===== src/FuncSquid/Trace.antt =====
-- Every order of calls of `squid_acct`, `squid_sync` and `squid_free` in src/func_squid.c.
use ipstat.Base.{ℕ, ◌+◌, ◌≡◌, sym, ap, Bool, true, false, some, List, [], ◌∷◌, ◌++◌, arith}
use ipstat.FuncSquid.{
  SquidNode, SquidData, SquidState, SquidStore, node_of, g_list_prepend, squid_init, squid_acct,
  squid_sync, squid_free,
}
use ipstat.FuncSquid.Sync.{
  IsSquidLog, IsPlain, IsPlain-take, PlainNodes, row_of, count, count_rows, count-append, Kept,
  squid_sync-Kept, squid_free-Kept, squid_sync-Plain, squid_free-Plain,
}

module _ {Db : Type 0} (store : SquidStore Db) (s₀ : SquidState) (d₀ : Db) where
  -- What the module and the database can come to after `squid_init`. The first list holds the records
  -- for which `squid_acct` returned TRUE, each of a plain address or lost at once, the second those that left the memory otherwise than into
  -- the log, both the last one first.
  pub data Reaches : (counted lost : List SquidNode) → SquidState → Db → Type 0 where
    start : (has_server has_sched : Bool) → Reaches [] [] (squid_init has_server has_sched s₀) d₀
    accounted :
        {counted lost : List SquidNode} {s s' : SquidState} {d : Db} (url : List ℕ)
        (squid_data : SquidData)
        → IsPlain url
        → Reaches counted lost s d
        → squid_acct true true s url squid_data ≡ (true, s')
        → Reaches (node_of url squid_data ∷ counted) lost s' d
    cell_missing :
        {counted lost : List SquidNode} {s s' : SquidState} {d : Db} (url : List ℕ)
        (squid_data : SquidData)
        → Reaches counted lost s d
        → squid_acct true false s url squid_data ≡ (true, s')
        → Reaches
            (node_of url squid_data ∷ counted)
            (node_of url squid_data ∷ (s.ag_squid ++ lost))
            s'
            d
    refused :
        {counted lost : List SquidNode} {s s' : SquidState} {d : Db} (mem_cell : Bool)
        (url : List ℕ) (squid_data : SquidData)
        → Reaches counted lost s d
        → squid_acct false mem_cell s url squid_data ≡ (false, s')
        → Reaches counted lost s' d
    synced :
        {counted lost gone : List SquidNode} {s s' : SquidState} {d d' : Db} (mem : ℕ → ℕ → Bool)
        (ok : Bool)
        → Reaches counted lost s d
        → squid_sync (some store) mem s d ≡ (ok, s', gone, d')
        → Reaches counted (gone ++ lost) s' d'
    freed :
        {counted lost gone : List SquidNode} {s s' : SquidState} {d d' : Db}
        (has_server has_sched : Bool) (mem : ℕ → ℕ → Bool) (ok : Bool)
        → Reaches counted lost s d
        → squid_free has_server has_sched (some store) mem s d ≡ (ok, s', gone, d')
        → Reaches counted (gone ++ lost) s' d'

  module _ (logged : Db → List SquidNode) (log : IsSquidLog store logged)
      (p : SquidNode → Bool) where
    abbrev pub Accounted : (counted lost : List SquidNode) → SquidState → Db → Type 0
    Accounted counted lost s d =
        PlainNodes s.ag_squid
        × (count_rows p s.ag_squid + count p (logged d) + count_rows p lost
            ≡ count_rows p counted + count p (logged d₀))

    after_acct :
        (counted lost : List SquidNode) (s s' : SquidState) (d : Db) (url : List ℕ)
        (squid_data : SquidData)
        → IsPlain url
        → Accounted counted lost s d
        → squid_acct true true s url squid_data ≡ (true, s')
        → Accounted (node_of url squid_data ∷ counted) lost s' d
    unfolding squid_acct g_list_prepend count
    after_acct counted lost s s' d url squid_data w h e =
        rw (sym (ap (λ r. r.1) e)) ((IsPlain-take 1023 url w, h.0), omega (arith, h.1))

    after_cell_missing :
        (counted lost : List SquidNode) (s s' : SquidState) (d : Db) (url : List ℕ)
        (squid_data : SquidData)
        → Accounted counted lost s d
        → squid_acct true false s url squid_data ≡ (true, s')
        → Accounted
            (node_of url squid_data ∷ counted)
            (node_of url squid_data ∷ (s.ag_squid ++ lost))
            s'
            d
    unfolding squid_acct g_list_prepend count
    after_cell_missing counted lost s s' d url squid_data h e =
        rw (sym (ap (λ r. r.1) e))
          (tt, omega (arith, h.1, count-append (λ node. p (row_of node)) s.ag_squid lost))

    after_call :
        (counted lost : List SquidNode) (s : SquidState) (d : Db)
        (r r' : Bool × SquidState × List SquidNode × Db)
        → Accounted counted lost s d
        → Kept store logged log p s d r
        → PlainNodes r.1.ag_squid
        → r ≡ r'
        → Accounted counted (r'.2 ++ lost) r'.1 r'.3
    after_call counted lost s d r r' h k w e =
        let k = rw e at k in
        let w = rw e at w in
        (w, omega (arith, h.1, k, count-append (λ node. p (row_of node)) r'.2 lost))

    -- However the calls follow one another, and whatever allocations and statements fail, where no
    -- counted address has a quote or a backslash: of the records whose row passes a test, those in
    -- memory and those that were lost are, with such rows of Log_Squid, as many as such rows
    -- at the start and such records for which `squid_acct` returned TRUE. So no record is logged
    -- twice, and what leaves the memory is in the log or known to be lost.
    pub Reaches-Accounted :
        {counted lost : List SquidNode} {s : SquidState} {d : Db}
        → Reaches counted lost s d
        → Accounted counted lost s d
    unfolding squid_init squid_acct count
    Reaches-Accounted (start has_server has_sched) = (tt, omega arith)
    Reaches-Accounted (accounted url squid_data w r e) =
        after_acct _ _ _ _ _ url squid_data w (Reaches-Accounted r) e
    Reaches-Accounted (cell_missing url squid_data r e) =
        after_cell_missing _ _ _ _ _ url squid_data (Reaches-Accounted r) e
    Reaches-Accounted (refused mem_cell url squid_data r e) =
        rw (sym (ap (λ r. r.1) e)) (Reaches-Accounted r)
    Reaches-Accounted (synced {s = s} {d = d} mem ok r e) =
        let h = Reaches-Accounted r in
        after_call _ _ s d _ _ h (squid_sync-Kept store logged log p mem s d h.0)
          (squid_sync-Plain store logged log p mem s d h.0) e
    Reaches-Accounted (freed {s = s} {d = d} has_server has_sched mem ok r e) =
        let h = Reaches-Accounted r in
        after_call _ _ s d _ _ h
          (squid_free-Kept store logged log p has_server has_sched mem s d h.0)
          (squid_free-Plain store logged log p has_server has_sched mem s d h.0) e
