-- ===== src/Inet.antt =====
-- src/inet.c: the tests of addresses and ports that traffic rules are made of.
pub mod Ports
pub mod Mask
mod Examples
use Prim.Native.Nat.{bit_and}
use ipstat.Base.{
  ℕ, ◌+◌, ◌-◌, ◌*◌, ◌/◌, ◌%◌, ◌^◌, Bool, true, false, not, ◌&&◌, ◌||◌, Option, none, some, List, [],
  ◌∷◌, length, take, get_elem?, ltb, leb, ◌==◌, if◌then◌else◌, ◌>>=◌,
}

-- `portsbyrec`: `(hi_port << 16) + lo_port` in 32 bits.
unfoldable pub portsbyrec : ℕ → ℕ → ℕ
portsbyrec lo_port hi_port = (hi_port * 2 ^ 16 + lo_port) % 2 ^ 32

-- `recbyports`: the low and the high half of a word.
unfoldable pub recbyports : ℕ → ℕ × ℕ
recbyports rec = (rec % 2 ^ 16, rec / 2 ^ 16 % 2 ^ 16)

-- The tests of `compare_ports`, on the two halves of the rule's word.
abbrev pub ports_test : ℕ → ℕ → ℕ → Bool
ports_test loword hiword port =
    if (hiword == 0) && (loword == 0)
    then true
    else if (hiword == 0) && not (loword == 0)
    then port == loword
    else if not (hiword == 0) && not (loword == 0)
    then ltb loword port && ltb port hiword
    else if not (hiword == 0) && (loword == 0)
    then ltb port hiword
    else false

-- The parameter `rec_ports` is an `IP_port`: a caller's word of 32 bits is cut to its low 16.
unfoldable pub compare_ports : ℕ → ℕ → Bool
compare_ports port rec_ports =
    let (loword, hiword) = recbyports (rec_ports % 2 ^ 16) in ports_test loword hiword port

-- An `IP_addr` holds an address in network order: its bytes in memory, as the machine is
-- little-endian.
abbrev pub bytes_of : ℕ → List ℕ
bytes_of a = (a % 256) ∷ (a / 256 % 256) ∷ (a / 65536 % 256) ∷ (a / 16777216 % 256) ∷ []

abbrev pub equal : List ℕ → List ℕ → Bool
equal [] [] = true
equal (a ∷ as_) (b ∷ bs) = (a == b) && equal as_ bs
equal _ _ = false

-- `ntohl`: the number that the bytes of an address stand for.
abbrev pub ntohl : ℕ → ℕ
ntohl a = a % 256 * 2 ^ 24 + a / 256 % 256 * 2 ^ 16 + a / 65536 % 256 * 2 ^ 8 + a / 16777216 % 256

-- `(-1) << (8 - r)`, as the `int` that a byte is masked with.
abbrev pub byte_mask : ℕ → ℕ
byte_mask r = 2 ^ 32 - 2 ^ (8 - r)

-- `compare_with_mask`, for a mask of at most 32 bits: with more the code reads behind the two
-- addresses, and the outcome is `none`.
unfoldable pub compare_with_mask : ℕ → ℕ → ℕ → Option Bool
compare_with_mask ip net mask =
    let n = mask / 8 in
    let r = mask % 8 in
    if ltb 32 mask
    then none
    else if equal (take n (bytes_of ip)) (take n (bytes_of net))
    then if r == 0 then some true else (do
      a ← get_elem? (bytes_of ip) n
      b ← get_elem? (bytes_of net) n
      some (bit_and a (byte_mask r) == bit_and b (byte_mask r)))
    else some false

unfoldable pub agregate_port : ℕ → ℕ
agregate_port port =
    if leb port 1024
    then port
    else if ltb 1024 port && leb port 9999
    then 1025
    else if leb 10000 port && leb port 19999
    then 10000
    else if leb 20000 port && leb port 29999
    then 20000
    else if leb 30000 port && leb port 39999
    then 30000
    else if leb 40000 port && leb port 49999
    then 40000
    else if leb 50000 port && leb port 59999
    then 50000
    else if leb 60000 port
    then 60000
    else 0

-- What `get_ports` prints.
pub data PortsText : Type 0 where
  all : PortsText
  one : ℕ → PortsText
  range : ℕ → ℕ → PortsText

unfoldable pub get_ports : ℕ → PortsText
unfolding recbyports
get_ports ports =
    let (loword, hiword) = recbyports ports in
    if ports == 0
    then all
    else if (hiword == 0) && not (loword == 0)
    then one loword
    else if not (hiword == 0) && not (loword == 0)
    then range loword hiword
    else range 0 hiword

-- The part of `ipq_packet_msg_t` that is read: the link address, the length and the packet itself.
pub record IpqPacket : Type 0 where
  pub hw_addr : List ℕ
  pub data_len : ℕ
  pub payload : List ℕ

pub record PacketInfo : Type 0 where
  pub mac : List ℕ
  pub proto : ℕ
  pub src : ℕ
  pub dest : ℕ
  pub src_port : ℕ
  pub dest_port : ℕ

-- "%02x:%02x:%02x:%02x:%02x:%02x", as characters.
abbrev pub hex_digit : ℕ → ℕ
hex_digit d = if ltb d 10 then d + 48 else d + 87

unfoldable pub print_mac : List ℕ → List ℕ
print_mac [] = []
print_mac (a ∷ []) = hex_digit (a / 16) ∷ hex_digit (a % 16) ∷ []
print_mac (a ∷ as_) = hex_digit (a / 16) ∷ hex_digit (a % 16) ∷ 58 ∷ print_mac as_

-- The loads of the packet's fields; `none` is a read behind its end. `ntohs` of a 16-bit field is
-- its big-endian value; an address is loaded as the machine keeps it.
abbrev pub ntohs_at : List ℕ → ℕ → Option ℕ
ntohs_at bs i = do a ← get_elem? bs i; b ← get_elem? bs (i + 1); some (a * 256 + b)

abbrev pub addr_at : List ℕ → ℕ → Option ℕ
addr_at bs i = do
  a ← get_elem? bs i
  b ← get_elem? bs (i + 1)
  c ← get_elem? bs (i + 2)
  d ← get_elem? bs (i + 3)
  some (a + b * 256 + c * 65536 + d * 16777216)

-- `ntohs(ip->ip_off) & (IP_MF | IP_OFFMASK)`: more fragments follow, or this is a later one.
abbrev pub is_fragment : ℕ → Bool
is_fragment off = not (off % 2 ^ 14 == 0)

-- The ports of a packet: those of a whole TCP or UDP packet, and 0 otherwise.
unfoldable pub ports_of : List ℕ → ℕ → ℕ → Option (ℕ × ℕ)
ports_of ip off proto =
    if is_fragment off
    then some (0, 0)
    else if (proto == 6) || (proto == 17)
    then (do
      first ← get_elem? ip 0
      sport ← ntohs_at ip (first % 16 * 4)
      dport ← ntohs_at ip (first % 16 * 4 + 2)
      some (sport, dport))
    else some (0, 0)

-- The result is `data_len` and the packet's description.
unfoldable pub ipq_grep_packet : IpqPacket → Option (ℕ × PacketInfo)
unfolding ports_of print_mac
ipq_grep_packet hp = do
  off ← ntohs_at hp.payload 6
  p ← get_elem? hp.payload 9
  (src_port, dest_port) ← ports_of hp.payload off p
  src ← addr_at hp.payload 12
  dest ← addr_at hp.payload 16
  some (
    hp.data_len,
    record {
      mac = print_mac (take 6 hp.hw_addr);
      proto = p;
      src = src;
      dest = dest;
      src_port = src_port;
      dest_port = dest_port;
    },
  )
