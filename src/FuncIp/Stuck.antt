-- ===== src/FuncIp/Stuck.antt =====
-- `ip_sync` of src/func_ip.c without memory for a new table.
use ipstat.Base.{ℕ, ◌≡◌, refl, Bool, true, false, some, List, Returns}
use ipstat.Gtree.{i_tree_new}
use ipstat.Inet.{PacketInfo}
use ipstat.CoreUsers.Data.{PacketData}
use ipstat.FuncIp.{IpState, IpStore, StackBytes, ip_sync, ip_acct, ip_free}

-- Where the lock is free, no export is under way and a session opens, but there is no memory for the
-- new table, `ip_sync` returns FALSE before it unlocks and before it clears `flag_export`. The lock stays held, the table is gone, and from then on every `ip_sync`,
-- `ip_acct` and `ip_free` returns FALSE and changes nothing.
pub ip_sync_dead :
    {Db : Type 0} (store : IpStore Db) (mem : List ℕ → ℕ → Bool) (s : IpState) (d : Db)
    → s.locked ≡ false
    → s.flag_export ≡ false
    → (store.open_session d).0 ≡ true
    → Returns
        (λ (ok, s', d').
          (ok ≡ false)
          × (s'.locked ≡ true)
          × ((mem_tree : Bool) (d : Db)
              → (ip_sync (some store) mem_tree mem s' d ≡ some (false, s', d))
                × (ip_free (some store) mem_tree mem s' d ≡ some (false, s', d)))
          × ((a b c : Bool) (stack : StackBytes) (p : PacketInfo) (q : PacketData)
              → ip_acct a b c stack s' p q ≡ some (false, s')))
        (ip_sync (some store) false mem s d)
unfolding ip_sync i_tree_new ip_acct ip_free
ip_sync_dead store mem s d l f e =
    rw (f, ip_sync) (rw e (rw l (refl, refl, (λ m d. (refl, refl)), λ a b c stack p q. refl)))
