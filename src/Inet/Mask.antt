-- ===== src/Inet/Mask.antt =====
-- The address test of src/inet.c.
use Prim.Native.Nat.{bit_and}
use ipstat.Base.{
  ℕ, zero, suc, ◌+◌, ◌-◌, ◌*◌, ◌/◌, ◌%◌, ◌^◌, ◌<◌, ◌≤◌, ◌≡◌, refl, ◌↔◌, Bool, true, ◌&&◌, ◌==◌,
  ==_iff, arith, Returns,
}
use ipstat.Inet.{compare_with_mask, byte_mask, ntohl}

-- A Boolean property of the numbers below a bound, tried on each of them.
tried : (ℕ → Bool) → ℕ → Bool
tried p zero = true
tried p (suc last) = tried p last && p last

tried_sound : (p : ℕ → Bool) (bound x : ℕ) → tried p bound ≡ true → x < bound → p x ≡ true
unfolding tried
tried_sound p zero x h below = absurd (omega arith)
tried_sound p (suc last) x h below = ground (arith, tried_sound p last x)

-- A masked byte keeps its upper bits.
abbrev Upper : ℕ → ℕ → Type 0
Upper r a = bit_and a (byte_mask r) ≡ a / 2 ^ (8 - r) * 2 ^ (8 - r)

upper_table :
    tried (λ r. tried (λ a. bit_and a (byte_mask r) == a / 2 ^ (8 - r) * 2 ^ (8 - r)) 256) 8 ≡ true
unfolding tried
upper_table = refl

upper : (r a : ℕ) → r < 8 → a < 256 → Upper r a
upper r a p q = (==_iff _ _).0 (tried_sound _ 256 a (tried_sound _ 8 r upper_table p) q)

-- The two addresses are in one network: their first `mask` bits in network order are the same.
abbrev pub SameNet : ℕ → ℕ → ℕ → Type 0
SameNet a net mask = ntohl a / 2 ^ (32 - mask) ≡ ntohl net / 2 ^ (32 - mask)

abbrev pub Agrees : ℕ → ℕ → ℕ → Type 0
Agrees ip net mask = Returns (λ b. (b ≡ true) ↔ SameNet ip net mask) (compare_with_mask ip net mask)

uppers :
    (a : ℕ)
    → a < 256
    → Upper 1 a × Upper 2 a × Upper 3 a × Upper 4 a × Upper 5 a × Upper 6 a × Upper 7 a
uppers a h = (
  upper 1 a (omega arith) h,
  upper 2 a (omega arith) h,
  upper 3 a (omega arith) h,
  upper 4 a (omega arith) h,
  upper 5 a (omega arith) h,
  upper 6 a (omega arith) h,
  upper 7 a (omega arith) h,
)

-- A property of eight consecutive masks.
abbrev Octet : (ℕ → Type 0) → ℕ → Type 0
Octet P m = P m × P (m + 1) × P (m + 2) × P (m + 3) × P (m + 4) × P (m + 5) × P (m + 6) × P (m + 7)

octet : (P : ℕ → Type 0) (m r : ℕ) → Octet P m → r < 8 → P (m + r)
octet P m zero o h = let e : m ≡ m + 0 = omega arith in rw e at o.0
octet P m (suc zero) o h = o.1
octet P m (suc (suc zero)) o h = o.2
octet P m (suc (suc (suc zero))) o h = o.3
octet P m (suc (suc (suc (suc zero)))) o h = o.4
octet P m (suc (suc (suc (suc (suc zero))))) o h = o.5
octet P m (suc (suc (suc (suc (suc (suc zero)))))) o h = o.6
octet P m (suc (suc (suc (suc (suc (suc (suc zero))))))) o h = o.7
octet P m _ o h = absurd (omega arith)

module _ (ip net : ℕ) where
  first_byte : Octet (Agrees ip net) 0
  unfolding compare_with_mask
  first_byte = ground (arith, uppers (ip % 256) (omega arith), uppers (net % 256) (omega arith))

  second_byte : Octet (Agrees ip net) 8
  unfolding compare_with_mask
  second_byte =
      ground (arith, uppers (ip / 256 % 256) (omega arith), uppers (net / 256 % 256) (omega arith))

  third_byte : Octet (Agrees ip net) 16
  unfolding compare_with_mask
  third_byte =
      ground
        (arith, uppers (ip / 65536 % 256) (omega arith), uppers (net / 65536 % 256) (omega arith))

  fourth_byte : Octet (Agrees ip net) 24
  unfolding compare_with_mask
  fourth_byte =
      ground
        (
          arith,
          uppers (ip / 16777216 % 256) (omega arith),
          uppers (net / 16777216 % 256) (omega arith),
        )
        steps 10000000

  whole_address : Agrees ip net 32
  unfolding compare_with_mask
  whole_address = ground arith

  bytes_split : (n r : ℕ) → n * 8 + r ≤ 32 → r < 8 → Agrees ip net (n * 8 + r)
  bytes_split zero r h p = octet (Agrees ip net) 0 r first_byte p
  bytes_split (suc zero) r h p = octet (Agrees ip net) 8 r second_byte p
  bytes_split (suc (suc zero)) r h p = octet (Agrees ip net) 16 r third_byte p
  bytes_split (suc (suc (suc zero))) r h p = octet (Agrees ip net) 24 r fourth_byte p
  bytes_split (suc (suc (suc (suc zero)))) r h p = let e : r ≡ 0 = omega arith in rw e whole_address
  bytes_split _ r h p = absurd (omega arith)

  -- With a mask of at most 32 bits `compare_with_mask` reads only the two addresses, and says
  -- whether their first `mask` bits in network order are the same.
  pub compare_with_mask-Agrees : (mask : ℕ) → mask ≤ 32 → Agrees ip net mask
  compare_with_mask-Agrees mask h =
      let e : mask ≡ mask / 8 * 8 + mask % 8 = omega arith in
      rw e (bytes_split (mask / 8) (mask % 8) (omega arith) (omega arith))
