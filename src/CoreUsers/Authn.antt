-- ===== src/CoreUsers/Authn.antt =====
-- `users_auth` of src/core_users.c: which user a packet or a proxy request belongs to.
use ipstat.Base.{ℕ, Bool, true, false, ◌||◌, Option, none, some, List, [], ◌∷◌, if◌then◌else◌}
use ipstat.CoreUsers.Data.{
  NodeUser, Core, Request, traffic, squid, other, PacketData, Hooks, traffic_in, traffic_out,
}
use ipstat.CoreUsers.Table.{is_null, addr_find}

abbrev pub is_some {ℓ} : {A : Type ℓ} → Option A → Bool
is_some none = false
is_some (some _) = true

-- The loop over the hooks: it ends at the first that accepts.
unfoldable pub auth_loop : Hooks → List ℕ → Request → Option PacketData → Bool × Option PacketData
auth_loop call [] q ret = (false, ret)
auth_loop call (h ∷ hs) q ret =
    let (flag, ret') = call h q ret in
    let rest = auth_loop call hs q ret' in if flag then (true, ret') else rest

-- `packet_data->service = …` and so on, before the user is known.
abbrev pub reset_data : ℕ → PacketData → PacketData
reset_data service d = record d { service = service; id_traffic_group = 0; id_traffic_type = 0 }

abbrev pub set_user : NodeUser → PacketData → PacketData
set_user u d = record d { id_user = u.id; id_group_user = u.id_group }

-- The branch for SERVICE_TRAFFIC, from the users found for the two addresses.
unfoldable pub auth_traffic : Option NodeUser → Option NodeUser → PacketData → Bool × PacketData
auth_traffic (some u) none d = (true, set_user u (record d { direct = traffic_out }))
auth_traffic none (some u) d = (true, set_user u (record d { direct = traffic_in }))
auth_traffic _ _ d = (false, d)

unfoldable pub auth_squid : Option NodeUser → PacketData → Bool × PacketData
auth_squid none d = (false, d)
auth_squid (some u) d = (true, set_user u d)

-- The built-in part; `none` is a write through a null `ret`.
unfoldable pub auth_local : Core → Request → Option PacketData → Option (Bool × Option PacketData)
unfolding auth_traffic auth_squid
auth_local c (traffic p) ret =
    let t_src = addr_find c p.src in
    let t_dest = addr_find c p.dest in
    elim ret [
      | none ↦ if is_some t_src || is_some t_dest then some (true, none) else none
      | some d ↦ let (flag, d') = auth_traffic t_src t_dest (reset_data 1 d) in some (flag, some d')
    ]
auth_local c (squid s) ret =
    let t_ip = addr_find c s.ip in
    elim ret [
      | none ↦ if is_some t_ip then some (true, none) else none
      | some d ↦ let (flag, d') = auth_squid t_ip (reset_data 2 d) in some (flag, some d')
    ]
auth_local c (other n) ret = some (false, ret)

unfoldable pub users_auth :
    Hooks → Core → Request → Bool → Option PacketData → Option (Bool × Option PacketData)
unfolding auth_local
users_auth call c q flag_extern_auth ret =
    let (flag, ret') =
      if flag_extern_auth then auth_loop call c.extern_auth q ret else (false, ret) in
    if is_null c then some (false, ret) else if flag then some (true, ret') else auth_local c q ret'
