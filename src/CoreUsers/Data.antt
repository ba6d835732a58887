-- ===== src/CoreUsers/Data.antt =====
-- The structures of include/core_users.h and include/types.h. A price is a `float`, which the
-- decisions and the sums never read, and is left out.
use ipstat.Base.{ℕ, Bool, Option, List}
use ipstat.Inet.{PacketInfo}

pub record NodeRule : Type 0 where
  pub id : ℕ
  pub id_type : ℕ
  pub id_group : ℕ
  pub service : ℕ
  pub direct : ℕ
  pub proto : ℕ
  pub net : ℕ
  pub mask : ℕ
  pub ports : ℕ
  pub action : ℕ
  pub status : ℕ
  pub traffic : ℕ
  pub md5 : List ℕ
  pub time_live : ℕ

pub record NodeUser : Type 0 where
  pub id : ℕ
  pub id_group : ℕ
  pub addr : ℕ
  pub mac : List ℕ
  pub traffic : ℕ
  pub id_rules : List NodeRule
  pub md5 : List ℕ
  pub status : ℕ
  pub time_live : ℕ

-- The module's variables: `st_users`, null before `users_init` and after `users_free`; the users
-- that wait to be freed; their count; and the registered hooks, each a function's address.
pub record Core : Type 0 where
  pub st_users : Option (List NodeUser)
  pub clean_list : List NodeUser
  pub cur_users : ℕ
  pub extern_auth : List ℕ
  pub extern_autz : List ℕ
  pub extern_acct : List ℕ

-- SERVICE_TRAFFIC, SERVICE_SQUID; TRAFFIC_IN, TRAFFIC_OUT, TRAFFIC_ALL; PROTO_ALL.
abbrev pub service_traffic : ℕ
service_traffic = 1

abbrev pub service_squid : ℕ
service_squid = 2

abbrev pub traffic_in : ℕ
traffic_in = 1

abbrev pub traffic_out : ℕ
traffic_out = 2

abbrev pub traffic_all : ℕ
traffic_all = 3

abbrev pub proto_all : ℕ
proto_all = 255

-- `SQUID_INFO`
pub record SquidInfo : Type 0 where
  pub mac : List ℕ
  pub ip : ℕ

-- The parameters `service` and `data`: the service says what `data` points to.
pub data Request : Type 0 where
  traffic : PacketInfo → Request
  squid : SquidInfo → Request
  other : ℕ → Request

abbrev pub service_of : Request → ℕ
service_of (traffic p) = service_traffic
service_of (squid s) = service_squid
service_of (other n) = n

-- `PACKET_DATA_INFO`, and `SQUID_DATA_INFO`, which has no `direct`.
pub record PacketData : Type 0 where
  pub service : ℕ
  pub direct : ℕ
  pub id_user : ℕ
  pub id_group_user : ℕ
  pub id_traffic_group : ℕ
  pub id_traffic_type : ℕ
  pub not_sum : ℕ
  pub len : ℕ

-- The hooks are functions of the plugins. Called with the request and with `ret`, one returns its
-- verdict and what it leaves behind `ret`.
abbrev pub Hooks : Type 0
Hooks = ℕ → Request → Option PacketData → Bool × Option PacketData
