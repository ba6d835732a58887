-- ===== src/FuncIp/Examples.antt =====
-- src/func_ip.c against a small database.
use ipstat.Base.{ℕ, ◌≤◌, ◌≡◌, refl, Bool, true, false, some, List, [], ◌∷◌, arith, Returns}
use ipstat.Base.Int.{pos}
use ipstat.Base.Memory.{bytes_compare, memcmp}
use ipstat.Gtree.{ITree, null, node}
use ipstat.Gtree.Table.{IsTable}
use ipstat.Inet.{PacketInfo}
use ipstat.CoreUsers.Data.{PacketData}
use ipstat.Store.Small.{Db, Change, insert_row, update_row, small_store, small_store-IsLog}
use ipstat.FuncIp.{
  IpQuery, IpExec, count_ip, insert_ip, update_ip, StValue, StackBytes, IpState, IpStore, key_of,
  fields, ip_acct, ip_sync, ip_free, ip_export, export_loop,
}
use ipstat.FuncIp.Account.{Counted, ip_acct-Counted}
use ipstat.FuncIp.Sync.{IsIpLog, Sent, Synced, export_loop-Sent, ip_sync-Synced}
use ipstat.FuncIp.Stuck.{ip_sync_dead}

abbrev asked : IpQuery → List ℕ
asked (count_ip row) = row

abbrev change : IpExec → Change
change (insert_ip size row) = insert_row size row
change (update_ip size row) = update_row size row

abbrev refusing : IpStore Db
refusing = small_store asked change

refusing-IsIpLog : IsIpLog refusing (λ j d. d.rows j) (λ j d. d.sums j)
refusing-IsIpLog =
    small_store-IsLog asked change count_ip insert_ip update_ip (λ row. refl) (λ s row. refl)
      (λ s row. refl)

-- An outgoing packet of user 7 to port 80.
abbrev packet : PacketInfo
packet = record {
  mac = [];
  proto = 6;
  src = 167772161;
  dest = 134744072;
  src_port = 4000;
  dest_port = 80;
}

abbrev data_of : PacketData
data_of = record {
  service = 0;
  direct = 2;
  id_user = 7;
  id_group_user = 0;
  id_traffic_group = 0;
  id_traffic_type = 0;
  not_sum = 0;
  len = 1500;
}

abbrev stack : StackBytes
stack = ((170, 187), (204, 221))

abbrev one_entry : ITree (List ℕ) StValue
one_entry = record {
  root = node (pos 0) (key_of stack packet data_of) (record { pkt = 1; bytes = 1500 }) null null;
}

abbrev with_one : IpState
with_one = record { ag_ip = some one_entry; flag_export = false; locked = false }

one_entry-IsTable : IsTable one_entry
unfolding bytes_compare memcmp
one_entry-IsTable = record { balanced = omega arith; ascending = ground arith }

-- Three tries are refused.
abbrev at_start : Db
at_start = record { refusals = true ∷ true ∷ false ∷ true ∷ []; rows = λ j. 0; sums = λ j. 0 }

at_start-OneRow : (j : List ℕ) → at_start.rows j ≤ 1
at_start-OneRow j = omega arith

export_loop-Sent_example :
    Sent refusing _ _ refusing-IsIpLog
      (fields (key_of stack packet data_of))
      1500
      at_start
      (export_loop refusing (λ n. true) (key_of stack packet data_of) 1500 3 at_start)
export_loop-Sent_example =
    export_loop-Sent refusing _ _ refusing-IsIpLog (λ n. true) (key_of stack packet data_of) 1500 3
      at_start at_start-OneRow

fourth_try :
    (export_loop refusing (λ n. true) (key_of stack packet data_of) 1500 3 at_start).0 ≡ true
unfolding export_loop ip_export
fourth_try = refl

ip_acct-Counted_example :
    Returns
      (λ (ok, s').
        Returns (λ t'. Counted one_entry (key_of stack packet data_of) 1500 (ok, t')) s'.ag_ip
        × (s'.locked ≡ false)
        × (s'.flag_export ≡ false))
      (ip_acct true true true stack with_one packet data_of)
ip_acct-Counted_example =
    ip_acct-Counted true true stack with_one one_entry packet data_of refl refl one_entry-IsTable
      (omega arith)

ip_sync-Synced_example :
    Returns
      (Synced refusing _ _ refusing-IsIpLog one_entry at_start)
      (ip_sync (some refusing) true (λ k n. true) with_one at_start)
ip_sync-Synced_example =
    ip_sync-Synced refusing _ _ refusing-IsIpLog (λ k n. true) with_one one_entry at_start refl refl
      refl one_entry-IsTable at_start-OneRow

ip_sync_dead_example :
    Returns
      (λ (ok, s', d').
        (ok ≡ false)
        × (s'.locked ≡ true)
        × ((mem_tree : Bool) (d : Db)
            → (ip_sync (some refusing) mem_tree (λ k n. true) s' d ≡ some (false, s', d))
              × (ip_free (some refusing) mem_tree (λ k n. true) s' d ≡ some (false, s', d)))
        × ((a b c : Bool) (stack : StackBytes) (p : PacketInfo) (q : PacketData)
            → ip_acct a b c stack s' p q ≡ some (false, s')))
      (ip_sync (some refusing) false (λ k n. true) with_one at_start)
ip_sync_dead_example = ip_sync_dead refusing (λ k n. true) with_one at_start refl refl refl
