-- ===== src/FuncTime/Trace.antt =====
-- Every order of calls of `time_acct` and `time_sync` in src/func_time.c.
use ipstat.Base.{
  ℕ, ◌+◌, ◌%◌, ◌^◌, ◌≤◌, ◌<◌, ◌≡◌, Bool, true, false, Option, none, some, List, [], ◌∷◌,
  if◌then◌else◌, arith, Returns,
}
use ipstat.Base.Memory.{bytes_compare}
use ipstat.Gtree.{null}
use ipstat.Gtree.Write.{total, same}
use ipstat.FuncTime.{TimeStore, TimeTable, time_acct, time_sync}
use ipstat.FuncTime.Account.{in_memory, IsTimeTable, Counted, time_acct-Counted}
use ipstat.FuncTime.Sync.{IsTempLog, OneRow, Synced, time_sync-Synced}

returned {ℓ} : {A : Type ℓ} (P : A → Type 0) (m : Option A) (a : A) → m ≡ some a → Returns P m → P a
returned P m a e p = rw e at p

module _ {Db : Type 0} (store : TimeStore Db) (d₀ : Db) where
  -- What the module and the database can come to after `time_init`. The list holds the users and
  -- lengths of the calls of `time_acct` that returned TRUE, the last one first.
  pub data Reaches : List (List ℕ × ℕ) → TimeTable → Db → Type 0 where
    start : Reaches [] (some (record { root = null })) d₀
    accounted :
        {counted : List (List ℕ × ℕ)} {ag_time ag_time' : TimeTable} {d : Db}
        (mem_key mem_value : Bool) (id_user : List ℕ) (len : ℕ)
        → Reaches counted ag_time d
        → len < 2 ^ 32
        → time_acct mem_key mem_value true ag_time id_user len ≡ some (true, ag_time')
        → Reaches ((id_user, len) ∷ counted) ag_time' d
    refused :
        {counted : List (List ℕ × ℕ)} {ag_time ag_time' : TimeTable} {d : Db}
        (mem_key mem_value : Bool) (id_user : List ℕ) (len : ℕ)
        → Reaches counted ag_time d
        → len < 2 ^ 32
        → time_acct mem_key mem_value true ag_time id_user len ≡ some (false, ag_time')
        → Reaches counted ag_time' d
    synced :
        {counted : List (List ℕ × ℕ)} {ag_time ag_time' : TimeTable} {d d' : Db}
        (mem : List ℕ → Bool) (ok : Bool)
        → Reaches counted ag_time d
        → time_sync (some store) mem ag_time d ≡ some (ok, ag_time', d')
        → Reaches counted ag_time' d'

  module _ (rows logged : List ℕ → Db → ℕ) (log : IsTempLog store rows logged) where
    -- The traffic of each user in memory and in the log is what was in the log at the start and
    -- what was counted since, but for the multiples of 2^32 that the sums in memory lose.
    abbrev pub Conserved : List (List ℕ × ℕ) → TimeTable → Db → Type 0
    Conserved counted none d = ⊥
    Conserved counted (some t) d =
        IsTimeTable t
        × OneRow store rows logged log d
        × ((j : List ℕ)
            → (in_memory j t + logged j d ≤ logged j d₀ + total (same j) counted)
              × ((in_memory j t + logged j d) % 2 ^ 32
                  ≡ (logged j d₀ + total (same j) counted) % 2 ^ 32))

    after_acct :
        (counted : List (List ℕ × ℕ)) (ag_time ag_time' : TimeTable) (d : Db)
        (mem_key mem_value ok : Bool) (id_user : List ℕ) (len : ℕ)
        → Conserved counted ag_time d
        → len < 2 ^ 32
        → time_acct mem_key mem_value true ag_time id_user len ≡ some (ok, ag_time')
        → Conserved (if ok then (id_user, len) ∷ counted else counted) ag_time' d
    after_acct counted none ag_time' d mem_key mem_value ok id_user len h b e = absurd h
    after_acct counted (some t) none d mem_key mem_value ok id_user len h b e =
        returned (Counted t id_user len) _ _ e
          (time_acct-Counted mem_key mem_value t id_user len h.0 b)
    after_acct counted (some t) (some t') d mem_key mem_value true id_user len h b e =
        let c =
          returned (Counted t id_user len) _ _ e
            (time_acct-Counted mem_key mem_value t id_user len h.0 b) in
        (c.0, h.1, λ j. ground (arith, h.2 j, c.1 j))
    after_acct counted (some t) (some t') d mem_key mem_value false id_user len h b e =
        let c =
          returned (Counted t id_user len) _ _ e
            (time_acct-Counted mem_key mem_value t id_user len h.0 b) in
        (c.0, h.1, λ j. rw (c.1 j) (h.2 j))

    after_sync :
        (counted : List (List ℕ × ℕ)) (ag_time ag_time' : TimeTable) (d d' : Db)
        (mem : List ℕ → Bool) (ok : Bool)
        → Conserved counted ag_time d
        → time_sync (some store) mem ag_time d ≡ some (ok, ag_time', d')
        → Conserved counted ag_time' d'
    after_sync counted none ag_time' d d' mem ok h e = absurd h
    after_sync counted (some t) none d d' mem ok h e =
        returned (Synced store rows logged log t d) _ _ e
          (time_sync-Synced store rows logged log mem t d h.0 h.1)
    after_sync counted (some t) (some t') d d' mem ok h e =
        let c =
          returned (Synced store rows logged log t d) _ _ e
            (time_sync-Synced store rows logged log mem t d h.0 h.1) in
        (c.0, c.1, λ j. rw (c.2 j) (h.2 j))

    -- However the calls of `time_acct` and `time_sync` follow one another, and whatever allocations
    -- and statements fail, no traffic that was counted is lost or logged twice: for each user, memory
    -- and log together hold the log at the start and the lengths counted since, but for the multiples
    -- of 2^32 that a sum in memory drops. The log has at most one row for each user at the start, the
    -- lengths have 32 bits, and tree nodes find memory.
    pub Reaches-Conserved :
        {counted : List (List ℕ × ℕ)} {ag_time : TimeTable} {d : Db}
        → Reaches counted ag_time d
        → OneRow store rows logged log d₀
        → Conserved counted ag_time d
    Reaches-Conserved start s = (
      record { table = record { balanced = tt; ascending = tt }; narrow = tt },
      s,
      λ j. ground arith,
    )
    Reaches-Conserved (accounted mk mv id_user len r b e) s =
        after_acct _ _ _ _ mk mv true id_user len (Reaches-Conserved r s) b e
    Reaches-Conserved (refused mk mv id_user len r b e) s =
        after_acct _ _ _ _ mk mv false id_user len (Reaches-Conserved r s) b e
    Reaches-Conserved (synced mem ok r e) s = after_sync _ _ _ _ _ mem ok (Reaches-Conserved r s) e
