-- ===== src/CoreUsers/Covers.antt =====
-- What a traffic rule of src/core_users.c covers.
use ipstat.Base.{
  ℕ, ◌^◌, ◌<◌, ◌≤◌, ◌≡◌, ◌↔◌, ◌⊎◌, inl, inr, Bool, true, ◌&&◌, ◌||◌, ◌==◌, ==_iff, arith, Returns,
  Returns-bind, Bool-cases,
}
use ipstat.Inet.{PacketInfo}
use ipstat.Inet.Ports.{InPorts, compare_ports-InPorts}
use ipstat.Inet.Mask.{SameNet, compare_with_mask-Agrees}
use ipstat.CoreUsers.Data.{NodeRule}
use ipstat.CoreUsers.Rules.{rule_matches, far_addr, far_port}

-- A rule that a column of the database can hold, with a mask of at most 32 bits.
pub record IsRule (r : NodeRule) : Type 0 where
  pub mask : r.mask ≤ 32
  pub ports : r.ports < 2 ^ 32

-- The packet is of the rule's service, network, protocol, port and direction. Only the low half of
-- the rule's word of ports counts: 0 is any port, and no range is known.
abbrev pub Covers : ℕ → PacketInfo → NodeRule → Type 0
Covers direct p r =
    (r.service ≡ 1)
    × SameNet (far_addr direct p) r.net r.mask
    × ((r.proto ≡ 255) ⊎ (r.proto ≡ p.proto))
    × InPorts r.ports (far_port direct p)
    × ((r.direct ≡ 3) ⊎ (direct ≡ r.direct))

all_true :
    (a b c d : Bool) → (a && b && c && d) ≡ true → (a ≡ true) × (b ≡ true) × (c ≡ true) × (d ≡ true)
all_true a b c d = ground arith

of_all_true :
    (a b c d : Bool) → a ≡ true → b ≡ true → c ≡ true → d ≡ true → (a && b && c && d) ≡ true
of_all_true a b c d = ground arith

either_iff : (a b c d : ℕ) → (((a == b) || (c == d)) ≡ true) ↔ ((a ≡ b) ⊎ (c ≡ d))
either_iff a b c d = (λ h. ground arith, λ h. ground arith)

-- On a rule of the database the tests of the loops read only the two addresses, and find exactly the
-- packets that the rule covers.
pub rule_matches-Covers :
    (direct : ℕ) (p : PacketInfo) (r : NodeRule)
    → IsRule r
    → Returns (λ b. (b ≡ true) ↔ Covers direct p r) (rule_matches direct p r)
unfolding rule_matches
rule_matches-Covers direct p r h = elim (Bool-cases (r.service == 1)) [
  | inl e ↦
      let ports = compare_ports-InPorts (far_port direct p) r.ports in
      let proto = either_iff r.proto 255 r.proto p.proto in
      let dir = either_iff r.direct 3 direct r.direct in
      rw e (
        Returns-bind (λ b. (b ≡ true) ↔ SameNet (far_addr direct p) r.net r.mask)
          (λ b. (b ≡ true) ↔ Covers direct p r) _ _
          (compare_with_mask-Agrees (far_addr direct p) r.net r.mask h.mask)
          λ b net. (
            (λ t.
                let (t₁, t₂, t₃, t₄) = all_true _ _ _ _ t in
                ((==_iff r.service 1).0 e, net.0 t₁, proto.0 t₂, ports.0 t₃, dir.0 t₄)),
            (λ c. of_all_true _ _ _ _ (net.1 c.1) (proto.1 c.2) (ports.1 c.3) (dir.1 c.4)),
          ))
  | inr e ↦ rw e ((λ t. cc), (λ c. absurd (ground (arith, c.0))))
]
