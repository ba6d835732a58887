-- ===== src/Inet/Examples.antt =====
-- Runs of src/inet.c on small inputs.

use ipstat.Base.{ℕ, ◌+◌, ◌*◌, ◌%◌, ◌≡◌, refl, ◌↔◌, ◌⊎◌, true, false, some, arith, Returns, ◌≤◌}
use ipstat.Inet.{portsbyrec, recbyports, compare_ports, compare_with_mask, agregate_port}
use ipstat.Inet.Ports.{recbyports-portsbyrec, compare_ports_iff, agregate_port_class}
use ipstat.Inet.Mask.{SameNet, compare_with_mask-Agrees}

-- 10.1.2.3 and 10.1.0.0, as the machine keeps them.
abbrev host : ℕ
host = 10 + 1 * 256 + 2 * 65536 + 3 * 16777216

abbrev net : ℕ
net = 10 + 1 * 256

in_network :
    (compare_with_mask host net 16 ≡ some true) × (compare_with_mask host net 23 ≡ some false)
unfolding compare_with_mask
in_network = (refl, refl)

recbyports-portsbyrec_example : recbyports (portsbyrec 80 443) ≡ (80, 443)
recbyports-portsbyrec_example = recbyports-portsbyrec 80 443 (omega arith) (omega arith)

compare_ports_iff_example :
    (compare_ports 100 (portsbyrec 80 443) ≡ true) ↔ ((◌≡◌ {A = ℕ} 80 0) ⊎ (◌≡◌ {A = ℕ} 100 80))
compare_ports_iff_example = compare_ports_iff 80 443 100 (omega arith) (omega arith)

-- A rule with the bounds 80 and 443 refuses port 100 and admits port 80.
range_lost :
    (compare_ports 100 (portsbyrec 80 443) ≡ false) × (compare_ports 80 (portsbyrec 80 443) ≡ true)
unfolding compare_ports recbyports portsbyrec
range_lost = (refl, refl)

compare_with_mask-Agrees_example :
    Returns (λ b. (b ≡ true) ↔ SameNet host net 21) (compare_with_mask host net 21)
compare_with_mask-Agrees_example = compare_with_mask-Agrees host net 21 (omega arith)

agregate_port_class_example :
    (agregate_port (agregate_port 31000) ≡ agregate_port 31000)
    × (agregate_port 31000 ≤ 31000)
    × (((31000 ≤ 1024) × (agregate_port 31000 ≡ 31000))
        ⊎ (agregate_port 31000 ≡ 1025)
        ⊎ (agregate_port 31000 % 10000 ≡ 0))
agregate_port_class_example = agregate_port_class 31000 (omega arith)
