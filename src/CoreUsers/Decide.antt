-- ===== src/CoreUsers/Decide.antt =====
-- The verdict of `users_autz` of src/core_users.c on a packet.
use ipstat.Base.{
  ℕ, ◌≡◌, ◌≢◌, ◌↔◌, ◌⊎◌, inl, inr, sym, ◌∙◌, Bool, true, false, not, ◌&&◌, ◌||◌, ◌==◌, Option, none,
  some, List, [], ◌∷◌, arith, All, Returns, Bool-cases, Option-cases, if◌then◌else◌,
}
use mathlib.Core.Path.{subst}
use ipstat.Inet.{PacketInfo}
use ipstat.CoreUsers.Data.{NodeUser, NodeRule, Core, traffic, PacketData, Hooks}
use ipstat.CoreUsers.Table.{is_null, users_of, users_find, find_id}
use ipstat.CoreUsers.Covers.{IsRule}
use ipstat.CoreUsers.Marks.{marks, marked, any_active, last_class, autz_loop-marks}
use ipstat.CoreUsers.Authz.{is_empty, same_mac, autz_local, hooks_loop, users_autz}

-- Every user has rules that the database can hold.
abbrev pub Governed : List NodeUser → Type 0
Governed = All (λ u. All IsRule u.id_rules)

pub find_id-Governed :
    (us : List NodeUser) (key : ℕ) (u : NodeUser)
    → Governed us
    → find_id key us ≡ some u
    → All IsRule u.id_rules
find_id-Governed [] key u g e = cc
find_id-Governed (v ∷ us) key u g e = elim (Bool-cases (v.id == key)) [
  | inl t ↦ let same : v ≡ u = ground arith in rw same at g.0
  | inr t ↦ find_id-Governed us key u g.1 (ground arith)
]

-- The rules that apply to a packet of the user.
abbrev pub applied : NodeUser → PacketInfo → PacketData → List NodeRule
applied u p d = marked (marks d.direct p u.id_rules) u.id_rules

-- The user is there and active, the link address of an outgoing packet is the one on file, if any,
-- an active rule applies, and every hook accepts.
abbrev pub Permits : Hooks → Core → PacketInfo → Bool → PacketData → Type 0
Permits call c p flag d =
    (u : NodeUser) × (users_find c d.id_user ≡ some u)
    × (u.status ≢ 0)
    × ((d.direct ≢ 2) ⊎ ((is_empty u.mac ≡ true) ⊎ (same_mac u.mac p.mac ≡ true)))
    × (any_active (applied u p d) ≡ true)
    × ((flag ≡ false)
        ⊎ ((hooks_loop call c.extern_autz (traffic p) (some (last_class (applied u p d) d))).0
            ≡ true))

of_some : (a b : NodeUser) → some a ≡ some b → a ≡ b
of_some a b h = cc

none≢some : {u : NodeUser} → ◌≡◌ {A = Option NodeUser} none (some u) → ⊥
none≢some h = cc

-- The verdict and the data that the tests come to, for the user of the packet.
decided : Hooks → List ℕ → PacketInfo → Bool → PacketData → NodeUser → Bool × Option PacketData
decided call hooks p flag d u =
    let rules = applied u p d in
    if (u.status == 0) || ((d.direct == 2) && not (is_empty u.mac) && not (same_mac u.mac p.mac))
    then (false, some d)
    else if any_active rules
    then if flag
      then hooks_loop call hooks (traffic p) (some (last_class rules d))
      else (true, some (last_class rules d))
    else (false, some (last_class rules d))

users_autz-decided :
    (call : Hooks) (c : Core) (p : PacketInfo) (flag : Bool) (d : PacketData) (u : NodeUser)
    → is_null c ≡ false
    → users_find c d.id_user ≡ some u
    → All IsRule u.id_rules
    → users_autz call c (traffic p) flag d ≡ some (decided call c.extern_autz p flag d u)
unfolding users_autz decided
users_autz-decided call c p flag d u z e h =
    rw (z, e, autz_local) (rw (autz_loop-marks p u.id_rules false d h) (ground arith))

abbrev PermitsAs : Hooks → Core → PacketInfo → Bool → PacketData → NodeUser → Type 0
PermitsAs call c p flag d u =
    (u.status ≢ 0)
    × ((d.direct ≢ 2) ⊎ ((is_empty u.mac ≡ true) ⊎ (same_mac u.mac p.mac ≡ true)))
    × (any_active (applied u p d) ≡ true)
    × ((flag ≡ false)
        ⊎ ((hooks_loop call c.extern_autz (traffic p) (some (last_class (applied u p d) d))).0
            ≡ true))

PermitsAs-decided :
    (call : Hooks) (c : Core) (p : PacketInfo) (flag : Bool) (d : PacketData) (u : NodeUser)
    → (decided call c.extern_autz p flag d u).0 ≡ true
    → PermitsAs call c p flag d u
unfolding decided
PermitsAs-decided call c p flag d u h = ground arith

decided-PermitsAs :
    (call : Hooks) (c : Core) (p : PacketInfo) (flag : Bool) (d : PacketData) (u : NodeUser)
    → PermitsAs call c p flag d u
    → (decided call c.extern_autz p flag d u).0 ≡ true
unfolding decided
decided-PermitsAs call c p flag d u h = ground arith

-- `users_autz` on a packet, where the rules are such as the database holds, ends without a fault,
-- and allows the packet exactly if the conditions of `Permits` hold.
pub users_autz-Permits :
    (call : Hooks) (c : Core) (p : PacketInfo) (flag : Bool) (d : PacketData)
    → Governed (users_of c)
    → is_null c ≡ false
    → Returns
        (λ (ok, ret). (ok ≡ true) ↔ Permits call c p flag d)
        (users_autz call c (traffic p) flag d)
unfolding users_autz users_find
users_autz-Permits call c p flag d g z = elim (Option-cases (users_find c d.id_user)) [
  | inl e ↦ rw (z, e, autz_local) ((λ t. cc), (λ x. absurd (none≢some x.1)))
  | inr (u, e) ↦
      rw (users_autz-decided call c p flag d u z e (find_id-Governed (users_of c) d.id_user u g e))
        (
          (λ t. let (a, b, m, f) = PermitsAs-decided call c p flag d u t in (u, e, a, b, m, f)),
          (λ (u', e', a, b, m, f).
              let same : u' ≡ u = of_some u' u (sym e' ∙ e) in
              decided-PermitsAs call c p flag d u
                (subst (PermitsAs call c p flag d) same (a, b, m, f))),
        )
]
