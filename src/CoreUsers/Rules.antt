-- ===== src/CoreUsers/Rules.antt =====
-- How a rule of src/core_users.c is matched with a packet, as `users_autz` and `users_acct` do.
use ipstat.Base.{ℕ, ◌/◌, ◌%◌, Bool, false, ◌&&◌, ◌||◌, Option, some, ◌==◌, if◌then◌else◌, ◌>>=◌}
use ipstat.Inet.{PacketInfo, compare_with_mask, compare_ports}
use ipstat.CoreUsers.Data.{NodeRule, service_traffic, traffic_all, traffic_in, proto_all}

-- `(action & CONST_NEXT) == CONST_NEXT` and `(action & CONST_SUM) == CONST_SUM`: bits 0 and 1.
abbrev pub goes_on : NodeRule → Bool
goes_on r = r.action % 2 == 1

abbrev pub outside_sum : NodeRule → Bool
outside_sum r = r.action / 2 % 2 == 1

-- The far end of a packet: its source if it comes in, else its destination.
abbrev pub far_addr : ℕ → PacketInfo → ℕ
far_addr direct p = if direct == traffic_in then p.src else p.dest

abbrev pub far_port : ℕ → PacketInfo → ℕ
far_port direct p = if direct == traffic_in then p.src_port else p.dest_port

-- The five nested tests of the loops, for a packet and its direction; `none` is a read behind the
-- addresses, which a mask over 32 causes.
unfoldable pub rule_matches : ℕ → PacketInfo → NodeRule → Option Bool
rule_matches direct p r =
    if r.service == service_traffic
    then (do
      in_net ← compare_with_mask (far_addr direct p) r.net r.mask
      some (
          in_net
          && ((r.proto == proto_all) || (r.proto == p.proto))
          && compare_ports (far_port direct p) r.ports
          && ((r.direct == traffic_all) || (direct == r.direct))))
    else some false
