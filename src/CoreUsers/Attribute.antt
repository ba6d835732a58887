-- ===== src/CoreUsers/Attribute.antt =====
-- To whom `users_auth` of src/core_users.c ascribes a packet.
use ipstat.Base.{
  ℕ, ◌≡◌, ◌≢◌, ◌⊎◌, inl, inr, refl, true, false, ◌==◌, Option, none, some, List, [], ◌∷◌, arith,
  Returns, Bool-cases,
}
use ipstat.Inet.{PacketInfo}
use ipstat.CoreUsers.Data.{NodeUser, Core, traffic, PacketData, Hooks}
use ipstat.CoreUsers.Table.{is_null, users_of, find_addr, addr_find}
use ipstat.CoreUsers.Authn.{is_some, auth_local, users_auth}

find_addr-addr : (us : List NodeUser) (a : ℕ) (u : NodeUser) → find_addr a us ≡ some u → u.addr ≡ a
find_addr-addr [] a u e = cc
find_addr-addr (w ∷ us) a u e = elim (Bool-cases (w.addr == a)) [
  | inl t ↦ let same : w ≡ u = ground arith in rw (← same) (ground arith)
  | inr t ↦ find_addr-addr us a u (ground arith)
]

addr_find-addr : (c : Core) (a : ℕ) (u : NodeUser) → addr_find c a ≡ some u → (u.addr ≡ a) × (a ≢ 0)
unfolding addr_find
addr_find-addr c a u e = ground (arith, find_addr-addr (users_of c) a u)

-- The packet leaves the user, whose address is its source, or comes to them.
abbrev pub Ascribes : Core → PacketInfo → PacketData → Type 0
Ascribes c p d =
    (u : NodeUser) × (d.id_user ≡ u.id)
    × (d.id_group_user ≡ u.id_group)
    × (((d.direct ≡ 2) × (addr_find c p.src ≡ some u) × (addr_find c p.dest ≡ none))
        ⊎ ((d.direct ≡ 1) × (addr_find c p.dest ≡ some u) × (addr_find c p.src ≡ none)))

-- The hooks aside, and given a place for the answer, `users_auth` accepts a packet exactly if one of
-- its two ends is a user's and the other is not, and then ascribes it to that user with that
-- direction.
pub users_auth-Ascribes :
    (call : Hooks) (c : Core) (p : PacketInfo) (d : PacketData)
    → is_null c ≡ false
    → Returns
        (λ (ok, ret).
          ((ok ≡ true) × ((d' : PacketData) × (ret ≡ some d') × Ascribes c p d'))
          ⊎ ((ok ≡ false) × (is_some (addr_find c p.src) ≡ is_some (addr_find c p.dest))))
        (users_auth call c (traffic p) false (some d))
unfolding users_auth
users_auth-Ascribes call c p d z = rw z (ends (addr_find c p.src) (addr_find c p.dest) refl refl)
  where
    ends :
        (s t : Option NodeUser)
        → addr_find c p.src ≡ s
        → addr_find c p.dest ≡ t
        → Returns
            (λ (ok, ret).
              ((ok ≡ true) × ((d' : PacketData) × (ret ≡ some d') × Ascribes c p d'))
              ⊎ ((ok ≡ false) × (is_some (addr_find c p.src) ≡ is_some (addr_find c p.dest))))
            (auth_local c (traffic p) (some d))
    ends (some u) none e f =
        rw (e, f, auth_local) (inl (refl, (_, refl, (u, refl, refl, inl (refl, refl, refl)))))
    ends none (some u) e f =
        rw (e, f, auth_local) (inl (refl, (_, refl, (u, refl, refl, inr (refl, refl, refl)))))
    ends none none e f = rw (e, f, auth_local) (inr (refl, refl))
    ends (some u) (some v) e f = rw (e, f, auth_local) (inr (refl, refl))
