-- ===== src/Sched/Due.antt =====
-- The lines that the modules register with src/sched.c, from the text to the minute.
use ipstat.Base.{
  ℕ, zero, suc, ◌+◌, ◌-◌, ◌*◌, ◌/◌, ◌%◌, ◌^◌, ◌<◌, ◌≤◌, ◌≡◌, refl, ap, ◌∙◌, true, none, some, List,
  [], ◌∷◌, ◌++◌, length, take, ltb, ◌==◌, if◌then◌else◌, arith, All, All-append, Returns,
  Bool-cases, inl, inr,
}
use ipstat.Base.Int.{ℤ, pos, negsuc}
use ipstat.Sched.{
  Tm, NodeScheduler, atoi, atoi_digits, split_slash, parse_vol, word, strtok, parse_crontab,
  schedulers_register, field_cmp, time_cmp, show_digits, stars, every,
}

abbrev Digits : List ℕ → Type 0
Digits = All (λ c. (48 ≤ c) × (c ≤ 57))

show-Digits : (bound n : ℕ) → n ≤ bound → Digits (show_digits bound n)
unfolding show_digits
show-Digits zero n h = omega arith
show-Digits (suc bound) n h = elim (Bool-cases (ltb n 10)) [
  | inl e ↦ rw e ground arith
  | inr e ↦ rw e (
      All-append (λ c. (48 ≤ c) × (c ≤ 57)) _ _ (show-Digits bound (n / 10) (ground arith))
        (omega arith))
]

atoi_last :
    (n c : ℕ) (s : List ℕ)
    → Digits s
    → (48 ≤ c) × (c ≤ 57)
    → atoi_digits n (s ++ (c ∷ [])) ≡ atoi_digits n s * 10 + (c - 48)
unfolding atoi_digits
atoi_last n c [] d h = ground arith
atoi_last n c (x ∷ s) d h = ground (arith, atoi_last (n * 10 + (x - 48)) c s d.1 h)

atoi-show : (bound n : ℕ) → n ≤ bound → atoi_digits 0 (show_digits bound n) ≡ n
unfolding show_digits atoi_digits
atoi-show zero n h = ground arith
atoi-show (suc bound) n h = elim (Bool-cases (ltb n 10)) [
  | inl e ↦ rw e ground arith
  | inr e ↦ rw e (
      atoi_last 0 (48 + n % 10) (show_digits bound (n / 10))
        (show-Digits bound (n / 10) (ground arith)) (omega arith)
      ∙ rw (atoi-show bound (n / 10) (ground arith)) (omega arith))
]

atoi_reads :
    (s : List ℕ) → Digits s → atoi_digits 0 s < 2 ^ 31 → atoi s ≡ some (pos (atoi_digits 0 s))
unfolding atoi
atoi_reads [] d b = refl
atoi_reads (c ∷ s) d b = ground (arith, d.0)

word_end : (w r : List ℕ) → Digits w → word (w ++ (32 ∷ r)) ≡ (w, r)
unfolding word
word_end [] r d = refl
word_end (c ∷ w) r d = rw (word_end w r d.1) (ground (arith, d.0))

take_all : (k : ℕ) (s : List ℕ) → length s ≤ k → take k s ≡ s
take_all zero [] h = refl
take_all (suc k) [] h = refl
take_all zero (c ∷ s) h = absurd (omega arith)
take_all (suc k) (c ∷ s) h = ap (λ r. c ∷ r) (take_all k s (omega arith))

-- What the line of a job that runs every `n` minutes is read as.
abbrev every_vol : Tm ℤ
every_vol = record {
  tm_min = negsuc 0;
  tm_hour = negsuc 0;
  tm_mday = negsuc 0;
  tm_mon = negsuc 0;
  tm_wday = negsuc 0;
}

parse_every :
    (n : ℕ)
    → n < 2 ^ 31
    → parse_crontab (every n) ≡ some (every_vol, record every_vol { tm_min = pos n })
unfolding parse_crontab strtok word parse_vol split_slash
parse_every n b =
    let e = atoi-show n n (omega arith) in
    rw
      (
        word_end (show_digits n n) (42 ∷ stars 3) (show-Digits n n (omega arith)),
        atoi_reads (show_digits n n) (show-Digits n n (omega arith)) (rw e b),
        e,
      )
      refl

-- The first job of the list has the line.
abbrev pub RunsEvery : ℕ → List NodeScheduler → List NodeScheduler → Type 0
RunsEvery n list [] = ⊥
RunsEvery n list (node ∷ rest) =
    (rest ≡ list)
    × ((tm : Tm ℕ) → time_cmp node tm ≡ (if n == 0 then none else some (tm.tm_min % n == 0)))

every_due :
    (n : ℕ) (node : NodeScheduler) (tm : Tm ℕ)
    → node.vol ≡ every_vol
    → node.vol_div ≡ record every_vol { tm_min = pos n }
    → time_cmp node tm ≡ (if n == 0 then none else some (tm.tm_min % n == 0))
unfolding time_cmp field_cmp
every_due zero node tm v d = rw (v, d) refl
every_due (suc n) node tm v d = rw (v, d) (ground arith)

-- A job that a module registers with the line `*/n * * * *`, where memory is there, the line has
-- at most fifty characters and `n` fits an `int`, comes first in the list of jobs, the old jobs follow, and it is due in
-- the minutes that `n` divides; with `n` zero the test of the scheduler's thread divides by zero.
pub schedulers_register-RunsEvery :
    (n : ℕ) (list : List NodeScheduler) (name : List ℕ) (func data_ : ℕ)
    → length (every n) ≤ 50
    → n < 2 ^ 31
    → Returns
        (λ (ok, s). (ok ≡ true) × Returns (RunsEvery n list) s)
        (schedulers_register true true (some list) name (every n) func data_)
unfolding schedulers_register
schedulers_register-RunsEvery n list name func data_ h b =
    rw (take_all 50 (every n) h)
      (rw (parse_every n b) (refl, (refl, λ tm. every_due n _ tm refl refl)))
