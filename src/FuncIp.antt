-- ===== src/FuncIp.antt =====
-- src/func_ip.c: the traffic of each user by protocol, direction, address and port, summed in a tree
-- in memory, and the export of the sums into the table Log_IP. A key is the block of memory of an
-- `st_key`, as `memcmp` reads it.
mod Account
mod Sync
mod Stuck
mod Examples
use ipstat.Base.{
  ℕ, zero, suc, ◌+◌, ◌/◌, ◌%◌, Bool, true, false, not, Option, none, some, List, [], ◌∷◌, ◌++◌,
  take, drop, ◌==◌, if◌then◌else◌, ◌>>=◌,
}
use ipstat.Base.Int.{add32}
use ipstat.Base.Memory.{bytes_compare}
use ipstat.Gtree.{
  ITree, i_tree_new, i_tree_lookup, i_tree_insert, i_tree_traverse, in_order, node_write,
}
use ipstat.Inet.{PacketInfo, bytes_of}
use ipstat.CoreUsers.Data.{PacketData}
use ipstat.Store.{StoreApi}

-- The bytes of an `IP_port`.
abbrev pub port_bytes : ℕ → List ℕ
port_bytes port = (port % 256) ∷ (port / 256 % 256) ∷ []

-- An `st_key` on the stack: the compiler leaves two bytes after `direct` and two at the end, which
-- hold what was there before.
abbrev pub StackBytes : Type 0
StackBytes = (ℕ × ℕ) × (ℕ × ℕ)

abbrev pub st_key : StackBytes → ℕ → ℕ → ℕ → ℕ → ℕ → List ℕ
st_key ((a, b), (c, d)) id_user proto direct addr port =
    bytes_of id_user
    ++ (proto ∷ (direct ∷ (a ∷ (b ∷ (bytes_of addr ++ (port_bytes port ++ (c ∷ (d ∷ []))))))))

-- The fields of a key, which name a row of Log_IP.
abbrev pub fields : List ℕ → List ℕ
fields key = take 6 key ++ take 6 (drop 8 key)

pub record StValue : Type 0 where
  pub pkt : ℕ
  pub bytes : ℕ

-- The statements that the file builds by `sprintf`, with the fields of the key.
pub data IpQuery : Type 0 where
  count_ip : List ℕ → IpQuery

pub data IpExec : Type 0 where
  update_ip insert_ip : ℕ → List ℕ → IpExec

-- The variables of the file. A locked mutex stays locked until its holder unlocks it.
pub record IpState : Type 0 where
  pub ag_ip : Option (ITree (List ℕ) StValue)
  pub flag_export : Bool
  pub locked : Bool

abbrev pub key_of : StackBytes → PacketInfo → PacketData → List ℕ
key_of stack p d =
    if d.direct == 1
    then st_key stack d.id_user p.proto d.direct p.src p.src_port
    else st_key stack d.id_user p.proto d.direct p.dest p.dest_port

abbrev pub count_packet : StValue → ℕ → StValue
count_packet v len = record { pkt = add32 v.pkt 1; bytes = add32 v.bytes len }

abbrev pub with_table : IpState → ITree (List ℕ) StValue → IpState
with_table s t = record s { ag_ip = some t }

-- The tree and the key. `mem_key`, `mem_value` and `mem_node` say which allocations succeed.
unfoldable pub acct_table :
    (mem_key mem_value mem_node : Bool)
    → ITree (List ℕ) StValue
    → List ℕ
    → ℕ
    → Option (Bool × ITree (List ℕ) StValue)
acct_table mem_key mem_value mem_node t key len = elim (i_tree_lookup t key) [
  | some v ↦ some (true, record { root = node_write t.root key (count_packet v len) })
  | none ↦ if not mem_key then some (false, t) else if not mem_value then some (false, t) else (do
    (t', _) ← i_tree_insert mem_node t key (record { pkt = 1; bytes = len })
    some (true, t'))
]

-- `none` is a fault, or a lock that is never released.
unfoldable pub ip_acct :
    (mem_key mem_value mem_node : Bool)
    → StackBytes
    → IpState
    → PacketInfo
    → PacketData
    → Option (Bool × IpState)
unfolding acct_table
ip_acct mem_key mem_value mem_node stack s p d = elim s.ag_ip [
  | none ↦ some (false, s)
  | some t ↦ if s.locked then none else (do
    (ok, t') ← acct_table mem_key mem_value mem_node t (key_of stack p d) d.len
    some (ok, with_table s t'))
]

abbrev pub IpStore : Type 0 → Type 0
IpStore Db = StoreApi Db IpQuery IpExec

module _ {Db : Type 0} where
  -- `ip_export` after the query.
  unfoldable pub write_ip : IpStore Db → List ℕ → ℕ → Option ℕ → Db → Bool × Db
  write_ip store rec size none d = (false, d)
  write_ip store rec size (some flag_ip) d =
      store.exec (if flag_ip == 0 then insert_ip size rec else update_ip size rec) d

  unfoldable pub ip_export : IpStore Db → Bool → List ℕ → ℕ → Db → Bool × Db
  unfolding write_ip
  ip_export store false key size d = (false, d)
  ip_export store true key size d =
      let (answer, d₁) = store.query (count_ip (fields key)) d in
      write_ip store (fields key) size answer d₁

  -- The loop at `l_start`: whether the export succeeded, and the database.
  unfoldable pub export_loop : IpStore Db → (ℕ → Bool) → List ℕ → ℕ → ℕ → Db → Bool × Db
  export_loop store mem key size zero d = ip_export store (mem 0) key size d
  export_loop store mem key size (suc n_repeat) d =
      let (ok, d₁) = ip_export store (mem (suc n_repeat)) key size d in
      let again = export_loop store mem key size n_repeat d₁ in if ok then (true, d₁) else again

  unfoldable pub ip_traverse_sync :
      IpStore Db → (List ℕ → ℕ → Bool) → List ℕ → StValue → Db → Bool × StValue × Db
  unfolding export_loop
  ip_traverse_sync store mem key value d =
      let (_, d') = export_loop store (mem key) key value.bytes 3 d in (false, value, d')

  -- `mem_tree` says whether there is memory for the new tree, `mem` for the text of a statement.
  unfoldable pub ip_sync :
      Option (IpStore Db) → Bool → (List ℕ → ℕ → Bool) → IpState → Db → Option (Bool × IpState × Db)
  ip_sync none mem_tree mem s d = some (false, s, d)
  ip_sync (some store) mem_tree mem s d =
      let (opened, d₁) = store.open_session d in
      if s.flag_export
      then some (false, s, d)
      else if not opened
      then some (true, s, d₁)
      else if s.locked
      then none
      else elim (i_tree_new {K = List ℕ} {V = StValue} mem_tree) [
        | none ↦ some (false, record { ag_ip = none; flag_export = true; locked = true }, d₁)
        | some new ↦ do
          backup ← s.ag_ip
          let (_, d₂) = i_tree_traverse (ip_traverse_sync store mem) in_order backup d₁
          some (
            true,
            record { ag_ip = some new; flag_export = false; locked = false },
            store.close d₂,
          )
      ]

  unfoldable pub ip_free :
      Option (IpStore Db) → Bool → (List ℕ → ℕ → Bool) → IpState → Db → Option (Bool × IpState × Db)
  ip_free api mem_tree mem s d = elim s.ag_ip [
    | none ↦ some (false, s, d)
    | some t ↦ do
      (_, s', d') ← ip_sync api mem_tree mem s d
      if s'.locked then none else some (true, record s' { ag_ip = none }, d')
  ]
