-- ===== src/CoreUsers/Marks.antt =====
-- Which of a user's rules in src/core_users.c a packet falls under: the loops of `users_autz` and
-- of `users_acct` apply the same ones.
use ipstat.Base.{
  ℕ, suc, ◌+◌, ◌*◌, ◌%◌, ◌^◌, ◌<◌, ◌≡◌, refl, ap, Bool, true, false, ◌||◌, ◌==◌, Option, none, some,
  List, [], ◌∷◌, arith, if◌then◌else◌, All, Bool-cases, inl, inr, Returns,
}
use ipstat.Inet.{PacketInfo}
use ipstat.CoreUsers.Data.{NodeRule, PacketData}
use ipstat.CoreUsers.Rules.{goes_on, outside_sum, rule_matches}
use ipstat.CoreUsers.Covers.{IsRule, rule_matches-Covers}
use ipstat.CoreUsers.Authz.{classify, autz_loop}
use ipstat.CoreUsers.Acct.{charge_rule, charge_sum, acct_loop}

-- Whether the packet falls under the rule, apart from the others.
unfoldable pub hit : ℕ → PacketInfo → NodeRule → Bool
hit direct p r = elim (rule_matches direct p r) [ none ↦ false | some m ↦ m ]

abbrev pub off : List NodeRule → List Bool
off [] = []
off (r ∷ rs) = false ∷ off rs

-- A mark for each rule that applies: those that are hit, up to the first of them that does not go on.
abbrev pub marks : ℕ → PacketInfo → List NodeRule → List Bool
marks direct p [] = []
marks direct p (r ∷ rs) =
    if hit direct p r
    then true ∷ (if goes_on r then marks direct p rs else off rs)
    else false ∷ marks direct p rs

-- The rules with a mark.
abbrev pub marked : List Bool → List NodeRule → List NodeRule
marked (m ∷ ms) (r ∷ rs) = if m then r ∷ marked ms rs else marked ms rs
marked _ _ = []

abbrev pub any_active : List NodeRule → Bool
any_active [] = false
any_active (r ∷ rs) = (r.status == 1) || any_active rs

-- The data after the last of the rules, if there is one.
abbrev pub last_class : List NodeRule → PacketData → PacketData
last_class [] d = d
last_class (r ∷ rs) d = last_class rs (classify r d)

-- The rules with the length added to the marked ones, and how often a user's sum grows.
abbrev pub charge_marked : ℕ → List Bool → List NodeRule → List NodeRule
charge_marked len (m ∷ ms) (r ∷ rs) = (if m then charge_rule len r else r) ∷ charge_marked len ms rs
charge_marked len _ rs = rs

abbrev pub count_summed : List NodeRule → ℕ
count_summed [] = 0
count_summed (r ∷ rs) = if outside_sum r then count_summed rs else suc (count_summed rs)

marked-off : (rs : List NodeRule) → marked (off rs) rs ≡ []
marked-off [] = refl
marked-off (r ∷ rs) = marked-off rs

charge_marked-off : (len : ℕ) (rs : List NodeRule) → charge_marked len (off rs) rs ≡ rs
charge_marked-off len [] = refl
charge_marked-off len (r ∷ rs) = ap (λ x. r ∷ x) (charge_marked-off len rs)

-- A rule of the database is tested without a fault.
tested :
    (direct : ℕ) (p : PacketInfo) (r : NodeRule)
    → IsRule r
    → rule_matches direct p r ≡ some (hit direct p r)
unfolding hit
tested direct p r h = go _ (rule_matches direct p r) (rule_matches-Covers direct p r h)
  where
    go :
        (P : Bool → Type 0) (o : Option Bool)
        → Returns P o
        → o ≡ some (elim o [ none ↦ false | some m ↦ m ])
    go P none x = absurd x
    go P (some m) x = refl

-- The loop of `users_autz`.
pub autz_loop-marks :
    (p : PacketInfo) (rs : List NodeRule) (flag : Bool) (d : PacketData)
    → All IsRule rs
    → autz_loop p rs flag d
      ≡ some (
        flag || any_active (marked (marks d.direct p rs) rs),
        last_class (marked (marks d.direct p rs) rs) d,
      )
unfolding autz_loop
autz_loop-marks p [] flag d h = ground arith
autz_loop-marks p (r ∷ rs) flag d h =
    rw (tested d.direct p r h.0) (elim (Bool-cases (hit d.direct p r)) [
      | inr e ↦ rw e (autz_loop-marks p rs flag d h.1)
      | inl e ↦ rw e (elim (Bool-cases (goes_on r)) [
        | inl g ↦ rw g (
            ground (
              arith,
              autz_loop-marks p rs (if r.status == 1 then true else flag) (classify r d) h.1,
            ))
        | inr g ↦ rw g (ground (arith, marked-off rs))
      ])
    ])

charge_sum-lt : (len : ℕ) (r : NodeRule) (sum : ℕ) → sum < 2 ^ 32 → charge_sum len r sum < 2 ^ 32
charge_sum-lt len r sum s = ground arith

charge_sum_step :
    (len : ℕ) (r : NodeRule) (sum n : ℕ)
    → (charge_sum len r sum + len * n) % 2 ^ 32
      ≡ (sum + len * (if outside_sum r then n else suc n)) % 2 ^ 32
charge_sum_step len r sum n = elim (Bool-cases (outside_sum r)) [
  | inl e ↦ rw e refl
  | inr e ↦ rw e (omega arith)
]

-- The loop of `users_acct`.
pub acct_loop-marks :
    (p : PacketInfo) (direct len : ℕ) (rs : List NodeRule) (sum : ℕ)
    → All IsRule rs
    → sum < 2 ^ 32
    → acct_loop p direct len rs sum
      ≡ some (
        charge_marked len (marks direct p rs) rs,
        (sum + len * count_summed (marked (marks direct p rs) rs)) % 2 ^ 32,
      )
unfolding acct_loop
acct_loop-marks p direct len [] sum h s = ground arith
acct_loop-marks p direct len (r ∷ rs) sum h s =
    rw (tested direct p r h.0) (elim (Bool-cases (hit direct p r)) [
      | inr e ↦ rw e (rw (acct_loop-marks p direct len rs sum h.1 s) refl)
      | inl e ↦ rw e (elim (Bool-cases (goes_on r)) [
        | inl g ↦ rw g (
            rw
              (acct_loop-marks p direct len rs (charge_sum len r sum) h.1
                (charge_sum-lt len r sum s))
              (ap (λ x. some (charge_rule len r ∷ charge_marked len (marks direct p rs) rs, x))
                (charge_sum_step len r sum _)))
        | inr g ↦ rw g (ground (arith, marked-off rs, charge_marked-off len rs))
      ])
    ])
