-- ===== src/Sched/Jobs.antt =====
-- The list of jobs of src/sched.c.
use ipstat.Base.{
  ℕ, zero, suc, ◌+◌, ◌%◌, ◌==◌, ◌≡◌, ◌≢◌, ◌⊎◌, ◌↔◌, ==_iff, ap, Returns-bind, refl, Bool, true,
  false, not, ◌&&◌, none, some, List, [], ◌∷◌, ◌++◌, take, if◌then◌else◌, ==_refl, arith, All,
  Returns, Bool-cases, Option-cases, inl, inr,
}
use ipstat.Base.Int.{ℤ, pos, negsuc, eq_ℤ, pos_part, neg_part}
use ipstat.Sched.{
  Tm, NodeScheduler, Status, scheduler_sleep, scheduler_run, parse_crontab, schedulers_register,
  schedulers_unregister, same_name, field_cmp, time_cmp, start_jobs, is_asleep,
}

same_name_refl : (s : List ℕ) → same_name s s ≡ true
same_name_refl [] = refl
same_name_refl (c ∷ s) = rw (==_refl c) (same_name_refl s)

-- Where the line has its five words and memory is there, `schedulers_unregister` by the name of the
-- job that was registered last gives back the list that was there before, also when an older job
-- has the same name.
pub unregister-register :
    (list : List NodeScheduler) (name crontab : List ℕ) (func data_ : ℕ)
    → parse_crontab (take 50 crontab) ≢ none
    → Returns
        (λ (ok, s). (ok ≡ true) × (schedulers_unregister s name ≡ (true, some list)))
        (schedulers_register true true (some list) name crontab func data_)
unfolding schedulers_register schedulers_unregister
unregister-register list name crontab func data_ h =
    elim (Option-cases (parse_crontab (take 50 crontab))) [
      | inl e ↦ absurd (h e)
      | inr (v, e) ↦ rw e (refl, rw (same_name_refl (take 50 name)) refl)
    ]

-- No field is a share of zero minutes, hours, days or months.
abbrev pub NoZero : NodeScheduler → Type 0
NoZero n =
    (eq_ℤ n.vol_div.tm_min (pos 0) ≡ false)
    × (eq_ℤ n.vol_div.tm_hour (pos 0) ≡ false)
    × (eq_ℤ n.vol_div.tm_mday (pos 0) ≡ false)
    × (eq_ℤ n.vol_div.tm_mon (pos 0) ≡ false)
    × (eq_ℤ n.vol_div.tm_wday (pos 0) ≡ false)

-- A field of a crontab line admits a number: without a share, the star any and a number itself; with
-- a share, the multiples of its absolute value.
abbrev pub Admits : ℤ → ℤ → ℕ → Type 0
Admits vol vol_div now =
    ((vol_div ≡ negsuc 0) × ((vol ≡ negsuc 0) ⊎ (vol ≡ pos now)))
    ⊎ ((vol_div ≢ negsuc 0) × (now % (pos_part vol_div + neg_part vol_div) ≡ 0))

eq_ℤ_iff : (a b : ℤ) → (eq_ℤ a b ≡ true) ↔ (a ≡ b)
eq_ℤ_iff (pos a) (pos b) = (λ h. ap (λ n. pos n) (ground arith), λ e. ground (arith, ap pos_part e))
eq_ℤ_iff (pos a) (negsuc b) = (λ h. absurd (ground arith), λ e. cc)
eq_ℤ_iff (negsuc a) (pos b) = (λ h. absurd (ground arith), λ e. cc)
eq_ℤ_iff (negsuc a) (negsuc b) =
    (λ h. ap (λ n. negsuc n) (ground arith), λ e. ground (arith, ap neg_part e))

differ : {b : Bool} → b ≡ false → b ≡ true → ⊥
differ e f = cc

star_admits :
    (vol : ℤ) (now : ℕ)
    → ((if not (eq_ℤ vol (negsuc 0)) then eq_ℤ vol (pos now) else true) ≡ true)
      ↔ ((vol ≡ negsuc 0) ⊎ (vol ≡ pos now))
star_admits vol now = elim (Bool-cases (eq_ℤ vol (negsuc 0))) [
  | inl e ↦ rw e ((λ _. inl ((eq_ℤ_iff vol (negsuc 0)).0 e)), (λ _. refl))
  | inr e ↦ rw e (
    (λ h. inr ((eq_ℤ_iff vol (pos now)).0 h)),
    (λ o. elim o [
      | inl f ↦ absurd (differ e ((eq_ℤ_iff vol (negsuc 0)).1 f))
      | inr f ↦ (eq_ℤ_iff vol (pos now)).1 f
    ]),
  )
]

field-Admits :
    (vol vol_div : ℤ) (now : ℕ)
    → eq_ℤ vol_div (pos 0) ≡ false
    → (b : Bool) × (field_cmp vol vol_div now ≡ some b) × ((b ≡ true) ↔ Admits vol vol_div now)
unfolding field_cmp
field-Admits vol vol_div now h = elim (Bool-cases (eq_ℤ vol_div (negsuc 0))) [
  | inl e ↦
      let q = (eq_ℤ_iff vol_div (negsuc 0)).0 e in
      let i = star_admits vol now in
      (
        (if not (eq_ℤ vol (negsuc 0)) then eq_ℤ vol (pos now) else true),
        rw (e, field_cmp) refl,
        ((λ k. inl (q, i.0 k)), (λ o. elim o [ inl f ↦ i.1 f.1 | inr f ↦ absurd (f.0 q) ])),
      )
  | inr e ↦
      let m = now % (pos_part vol_div + neg_part vol_div) in
      let n : vol_div ≢ negsuc 0 = λ q. let f = (eq_ℤ_iff vol_div (negsuc 0)).1 q in cc in
      (
        (m == 0),
        rw (e, field_cmp) (rw h refl),
        (
          (λ k. inr (n, (==_iff m 0).0 k)),
          (λ o. elim o [ inl f ↦ absurd (n f.0) | inr f ↦ (==_iff m 0).1 f.1 ]),
        ),
      )
]

-- The five fields of a job admit the minute.
abbrev pub IsDue : Tm ℕ → NodeScheduler → Type 0
IsDue tm n =
    Admits n.vol.tm_min n.vol_div.tm_min tm.tm_min
    × Admits n.vol.tm_hour n.vol_div.tm_hour tm.tm_hour
    × Admits n.vol.tm_mday n.vol_div.tm_mday tm.tm_mday
    × Admits n.vol.tm_mon n.vol_div.tm_mon tm.tm_mon
    × Admits n.vol.tm_wday n.vol_div.tm_wday tm.tm_wday

five_true :
    (a b c d e : Bool)
    → (a && (b && (c && (d && e)))) ≡ true
    → (a ≡ true) × (b ≡ true) × (c ≡ true) × (d ≡ true) × (e ≡ true)
five_true a b c d e = ground arith

of_five_true :
    (a b c d e : Bool)
    → a ≡ true
    → b ≡ true
    → c ≡ true
    → d ≡ true
    → e ≡ true
    → (a && (b && (c && (d && e)))) ≡ true
of_five_true a b c d e = ground arith

time_cmp-IsDue :
    (node : NodeScheduler) (tm : Tm ℕ)
    → NoZero node
    → (b : Bool) × (time_cmp node tm ≡ some b) × ((b ≡ true) ↔ IsDue tm node)
unfolding time_cmp
time_cmp-IsDue node tm (a, b, c, d, e) =
    let (f₁, p, i₁) = field-Admits node.vol.tm_min node.vol_div.tm_min tm.tm_min a in
    let (f₂, q, i₂) = field-Admits node.vol.tm_hour node.vol_div.tm_hour tm.tm_hour b in
    let (f₃, r, i₃) = field-Admits node.vol.tm_mday node.vol_div.tm_mday tm.tm_mday c in
    let (f₄, s, i₄) = field-Admits node.vol.tm_mon node.vol_div.tm_mon tm.tm_mon d in
    let (f₅, t, i₅) = field-Admits node.vol.tm_wday node.vol_div.tm_wday tm.tm_wday e in
    (
      (f₁ && (f₂ && (f₃ && (f₄ && f₅)))),
      rw (p, q, r, s, t) refl,
      (
        (λ h.
            let (h₁, h₂, h₃, h₄, h₅) = five_true f₁ f₂ f₃ f₄ f₅ h in
            (i₁.0 h₁, i₂.0 h₂, i₃.0 h₃, i₄.0 h₄, i₅.0 h₅)),
        (λ h. of_five_true _ _ _ _ _ (i₁.1 h.0) (i₂.1 h.1) (i₃.1 h.2) (i₄.1 h.3) (i₅.1 h.4)),
      ),
    )

-- The jobs of the first list that are due, asleep, and get a thread are the second list.
abbrev pub Starts : (NodeScheduler → Bool) → Tm ℕ → List NodeScheduler → List NodeScheduler → Type 0
Starts created tm [] ys = ys ≡ []
Starts created tm (n ∷ list) ys =
    ((IsDue tm n × (n.status ≡ scheduler_sleep) × (created n ≡ true))
      × ((rest : List NodeScheduler) × (ys ≡ n ∷ rest) × Starts created tm list rest))
    ⊎ (((IsDue tm n × (n.status ≡ scheduler_sleep) × (created n ≡ true)) → ⊥)
        × Starts created tm list ys)

asleep_iff :
    (s : Status)
    → (elim s [ scheduler_sleep ↦ true | scheduler_run ↦ false ] ≡ true) ↔ (s ≡ scheduler_sleep)
asleep_iff scheduler_sleep = ((λ _. refl), (λ _. refl))
asleep_iff scheduler_run = ((λ e. cc), (λ e. cc))

Starts-one :
    (created : NodeScheduler → Bool) (tm : Tm ℕ) (due : Bool) (n : NodeScheduler)
    (list rest : List NodeScheduler)
    → (due ≡ true) ↔ IsDue tm n
    → Starts created tm list rest
    → Starts created tm
        (n ∷ list)
        (if due && is_asleep n then if created n then n ∷ rest else rest else rest)
Starts-one created tm due n list rest i k = elim (Bool-cases due) [
  | inr d ↦ rw d (inr ((λ x. differ d (i.1 x.0)), k))
  | inl d ↦ elim (Bool-cases (is_asleep n)) [
    | inr a ↦ rw (d, a) (inr ((λ x. differ a ((asleep_iff n.status).1 x.1)), k))
    | inl a ↦ elim (Bool-cases (created n)) [
      | inr c ↦ rw (d, a, c) (inr ((λ x. differ refl x.2), k))
      | inl c ↦ rw (d, a, c) (inl ((i.0 d, (asleep_iff n.status).0 a, refl), (rest, refl, k)))
    ]
  ]
]

-- Where no job has a share of zero, the walk of the scheduler's thread ends. A thread runs for each
-- job whose five fields admit the minute, that is asleep, and for which a thread can be made, and for
-- no other, in the order of the list.
pub start_jobs-Starts :
    (created : NodeScheduler → Bool) (list : List NodeScheduler) (tm : Tm ℕ)
    → All NoZero list
    → Returns (Starts created tm list) (start_jobs created list tm)
unfolding start_jobs
start_jobs-Starts created [] tm h = refl
start_jobs-Starts created (n ∷ list) tm h =
    let (due, e, i) = time_cmp-IsDue n tm h.0 in
    rw e (
      Returns-bind (Starts created tm list) (Starts created tm (n ∷ list))
        (start_jobs created list tm) _ (start_jobs-Starts created list tm h.1)
        (λ rest k. Starts-one created tm due n list rest i k))

zero_field :
    (vol vol_div : ℤ) (now : ℕ) → eq_ℤ vol_div (pos 0) ≡ true → field_cmp vol vol_div now ≡ none
unfolding field_cmp
zero_field vol (pos zero) now h = refl
zero_field vol (pos (suc n)) now h = ground arith
zero_field vol (negsuc n) now h = ground arith

zero_minutes :
    (n : NodeScheduler) (tm : Tm ℕ) → eq_ℤ n.vol_div.tm_min (pos 0) ≡ true → time_cmp n tm ≡ none
unfolding time_cmp
zero_minutes n tm h = rw (zero_field n.vol.tm_min n.vol_div.tm_min tm.tm_min h) refl

-- One job with a share of zero minutes stops the walk, wherever it stands: the division is a fault.
pub start_jobs_fault :
    (created : NodeScheduler → Bool) (before after : List NodeScheduler) (n : NodeScheduler)
    (tm : Tm ℕ)
    → eq_ℤ n.vol_div.tm_min (pos 0) ≡ true
    → start_jobs created (before ++ (n ∷ after)) tm ≡ none
unfolding start_jobs
start_jobs_fault created [] after n tm h = rw (zero_minutes n tm h) refl
start_jobs_fault created (m ∷ before) after n tm h = elim (Option-cases (time_cmp m tm)) [
  | inl e ↦ rw e refl
  | inr (due, e) ↦ rw (e, start_jobs_fault created before after n tm h) refl
]
