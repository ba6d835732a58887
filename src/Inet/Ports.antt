-- ===== src/Inet/Ports.antt =====
-- The port words of src/inet.c.
use ipstat.Base.{ℕ, ◌%◌, ◌^◌, ◌<◌, ◌≤◌, ◌≡◌, ◌↔◌, ◌⊎◌, true, arith}
use ipstat.Inet.{portsbyrec, recbyports, ports_test, compare_ports, agregate_port}

-- Unpacking what `portsbyrec` packs gives back the two ports, each of 16 bits.
pub recbyports-portsbyrec :
    (lo hi : ℕ) → lo < 2 ^ 16 → hi < 2 ^ 16 → recbyports (portsbyrec lo hi) ≡ (lo, hi)
unfolding portsbyrec recbyports
recbyports-portsbyrec lo hi p q = ground arith

pub portsbyrec-recbyports :
    (rec : ℕ) → rec < 2 ^ 32 → portsbyrec (recbyports rec).0 (recbyports rec).1 ≡ rec
unfolding portsbyrec recbyports
portsbyrec-recbyports rec p = omega arith

-- The ports that a rule with the word `ports` admits.
abbrev pub InPorts : ℕ → ℕ → Type 0
InPorts ports port = (ports % 2 ^ 16 ≡ 0) ⊎ (port ≡ ports % 2 ^ 16)

forth : (lo port : ℕ) → ports_test lo 0 port ≡ true → (lo ≡ 0) ⊎ (port ≡ lo)
forth lo port h = ground arith

back : (lo port : ℕ) → (lo ≡ 0) ⊎ (port ≡ lo) → ports_test lo 0 port ≡ true
back lo port h = ground arith

low_half : (ports : ℕ) → recbyports (ports % 2 ^ 16) ≡ (ports % 2 ^ 16, 0)
unfolding recbyports
low_half ports = ground arith

packed_low : (lo hi : ℕ) → lo < 2 ^ 16 → hi < 2 ^ 16 → portsbyrec lo hi % 2 ^ 16 ≡ lo
unfolding portsbyrec
packed_low lo hi p q = ground arith

pub compare_ports-InPorts :
    (port ports : ℕ) → (compare_ports port ports ≡ true) ↔ InPorts ports port
unfolding compare_ports
compare_ports-InPorts port ports =
    rw (low_half ports) (forth (ports % 2 ^ 16) port, back (ports % 2 ^ 16) port)

-- Of a word that packs the bounds `lo` and `hi`, `compare_ports` reads only `lo`: it admits any port
-- where `lo` is 0, and otherwise `lo` itself and no other port, whatever `hi` is.
pub compare_ports_iff :
    (lo hi port : ℕ)
    → lo < 2 ^ 16
    → hi < 2 ^ 16
    → (compare_ports port (portsbyrec lo hi) ≡ true) ↔ ((lo ≡ 0) ⊎ (port ≡ lo))
compare_ports_iff lo hi port p q =
    let h = compare_ports-InPorts port (portsbyrec lo hi) in
    let h = rw (packed_low lo hi p q) at h in h

-- The class of a 16-bit port is its own class and at most the port; it is the port itself up to
-- 1024, and otherwise 1025 or a multiple of 10000.
pub agregate_port_class :
    (port : ℕ)
    → port < 2 ^ 16
    → (agregate_port (agregate_port port) ≡ agregate_port port)
      × (agregate_port port ≤ port)
      × (((port ≤ 1024) × (agregate_port port ≡ port))
          ⊎ (agregate_port port ≡ 1025)
          ⊎ (agregate_port port % 10000 ≡ 0))
unfolding agregate_port
agregate_port_class port p = ground arith
