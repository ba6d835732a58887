-- ===== src/CoreUsers/Charge.antt =====
-- What `users_acct` of src/core_users.c adds to the sums for a packet.
use ipstat.Base.{
  ℕ, ◌+◌, ◌*◌, ◌%◌, ◌^◌, ◌<◌, ◌≡◌, inl, inr, refl, Bool, false, ◌==◌, some, List, [], ◌∷◌, arith,
  All, Returns, Bool-cases, if◌then◌else◌,
}
use ipstat.Inet.{PacketInfo}
use ipstat.CoreUsers.Data.{NodeUser, Core, traffic, PacketData, Hooks}
use ipstat.CoreUsers.Table.{is_null, users_of, users_find, find_id, write_user}
use ipstat.CoreUsers.Covers.{IsRule}
use ipstat.CoreUsers.Marks.{marks, count_summed, charge_marked, acct_loop-marks}
use ipstat.CoreUsers.Acct.{acct_local, store_user, users_acct}
use ipstat.CoreUsers.Decide.{applied}

-- A user after a packet of theirs: the length is added to the rules that apply, and once to their
-- own sum for each of those that counts towards it.
abbrev pub charged : PacketInfo → PacketData → NodeUser → NodeUser
charged p d u = record u {
  id_rules = charge_marked d.len (marks d.direct p u.id_rules) u.id_rules;
  traffic = (u.traffic + d.len * count_summed (applied u p d)) % 2 ^ 32;
}

find_id-id : (us : List NodeUser) (key : ℕ) (u : NodeUser) → find_id key us ≡ some u → u.id ≡ key
find_id-id [] key u e = cc
find_id-id (w ∷ us) key u e = elim (Bool-cases (w.id == key)) [
  | inl t ↦ let same : w ≡ u = ground arith in rw (← same) (ground arith)
  | inr t ↦ find_id-id us key u (ground arith)
]

pub find_id-write_user :
    (us : List NodeUser) (key j : ℕ) (u v : NodeUser)
    → find_id key us ≡ some u
    → v.id ≡ key
    → find_id j (write_user v us) ≡ (if key == j then some v else find_id j us)
unfolding write_user
find_id-write_user [] key j u v e s = cc
find_id-write_user (w ∷ us) key j u v e s = elim (Bool-cases (w.id == key)) [
  | inl t ↦ let same : w.id ≡ v.id = ground arith in ground arith
  | inr t ↦
      let differ : (w.id == v.id) ≡ false = ground arith in
      rw differ (ground (arith, find_id-write_user us key j u v))
]

acct_local-charged :
    (c : Core) (p : PacketInfo) (d : PacketData) (u : NodeUser)
    → users_find c d.id_user ≡ some u
    → All IsRule u.id_rules
    → u.traffic < 2 ^ 32
    → acct_local c (traffic p) d ≡ some (some (store_user c (charged p d u)))
unfolding acct_local
acct_local-charged c p d u e h s =
    rw (e, acct_local) (rw (acct_loop-marks p d.direct d.len u.id_rules u.traffic h s) refl)

-- The user with a key, with a default.
abbrev pub WasCharged : Core → PacketInfo → PacketData → NodeUser → Core → Type 0
WasCharged c p d u c' =
    (j : ℕ) → users_find c' j ≡ (if d.id_user == j then some (charged p d u) else users_find c j)

-- `users_acct` on a packet of a user that is there, with such rules as the database holds, ends
-- without a fault. It charges that user and leaves every other as it was.
pub users_acct-WasCharged :
    (call : Hooks) (c : Core) (p : PacketInfo) (flag : Bool) (d : PacketData) (u : NodeUser)
    → is_null c ≡ false
    → users_find c d.id_user ≡ some u
    → All IsRule u.id_rules
    → u.traffic < 2 ^ 32
    → Returns (λ (c', ok, ret). WasCharged c p d u c') (users_acct call c (traffic p) flag d)
unfolding users_acct users_find
users_acct-WasCharged call c p flag d u z e h s =
    rw (z, acct_local-charged c p d u e h s)
      λ j.
        find_id-write_user (users_of c) d.id_user j u (charged p d u) e
          (find_id-id (users_of c) d.id_user u e)
