-- ===== src/Sched.antt =====
-- src/sched.c: the jobs that the modules register, the reading of their crontab lines, and the test
-- that the scheduler's thread makes every minute. Strings are lists of character codes without the
-- closing zero.
mod Due
mod Jobs
mod Examples
use ipstat.Base.{
  ℕ, zero, suc, ◌+◌, ◌-◌, ◌*◌, ◌/◌, ◌%◌, ◌^◌, Bool, true, false, not, ◌&&◌, ◌||◌, Option, none,
  some, List, [], ◌∷◌, ◌++◌, take, ltb, leb, ◌==◌, if◌then◌else◌, ◌>>=◌,
}
use ipstat.Base.Int.{ℤ, pos, negsuc, eq_ℤ, ◌-ℤ◌, pos_part, neg_part}

-- `atoi` of the C library: blanks, a sign, and the digits up to the first other character. `none`
-- is a number that no `int` of 32 bits holds, for which C defines no result.
abbrev pub is_digit : ℕ → Bool
is_digit c = leb 48 c && leb c 57

unfoldable pub atoi_digits : ℕ → List ℕ → ℕ
atoi_digits n [] = n
atoi_digits n (c ∷ s) =
    let rest = atoi_digits (n * 10 + (c - 48)) s in if is_digit c then rest else n

abbrev pub as_int : Bool → ℕ → Option ℤ
as_int negative n =
    if negative
    then if leb n (2 ^ 31) then some (pos 0 -ℤ pos n) else none
    else if ltb n (2 ^ 31)
    then some (pos n)
    else none

unfoldable pub atoi : List ℕ → Option ℤ
unfolding atoi_digits
atoi [] = some (pos 0)
atoi (c ∷ s) =
    let rest = atoi s in
    if (c == 32) || (leb 9 c && leb c 13)
    then rest
    else if c == 45
    then as_int true (atoi_digits 0 s)
    else if c == 43
    then as_int false (atoi_digits 0 s)
    else as_int false (atoi_digits 0 (c ∷ s))

-- `strchr (str, '/')`: what stands before the slash, and after it.
unfoldable pub split_slash : List ℕ → Option (List ℕ × List ℕ)
split_slash [] = none
split_slash (c ∷ s) =
    let rest = (do (a, b) ← split_slash s; some (c ∷ a, b)) in
    if c == 47 then some ([], s) else rest

-- `str[0] == '*'` gives -1, else the number.
abbrev pub volume : List ℕ → Option ℤ
volume [] = atoi []
volume (c ∷ s) = if c == 42 then some (negsuc 0) else atoi (c ∷ s)

-- `*vol` and `*vol_div`.
unfoldable pub parse_vol : List ℕ → Option (ℤ × ℤ)
unfolding split_slash atoi
parse_vol str = elim (split_slash str) [
  | some (before, after) ↦ do vol_div ← atoi after; vol ← volume before; some (vol, vol_div)
  | none ↦ do vol ← volume str; some (vol, negsuc 0)
]

-- `strtok` with a blank: the next word and the rest, or NULL.
unfoldable pub word : List ℕ → List ℕ × List ℕ
word [] = ([], [])
word (c ∷ s) = let (w, r) = word s in if c == 32 then ([], s) else (c ∷ w, r)

unfoldable pub strtok : List ℕ → Option (List ℕ × List ℕ)
unfolding word
strtok [] = none
strtok (c ∷ s) = let rest = strtok s in if c == 32 then rest else some (word (c ∷ s))

-- The fields of `struct tm` that the file uses.
pub record Tm (N : Type 0) : Type 0 where
  pub tm_min : N
  pub tm_hour : N
  pub tm_mday : N
  pub tm_mon : N
  pub tm_wday : N

pub data Status : Type 0 where
  scheduler_sleep scheduler_run : Status

-- `func` and `data` are addresses.
pub record NodeScheduler : Type 0 where
  pub name : List ℕ
  pub crontab : List ℕ
  pub vol : Tm ℤ
  pub vol_div : Tm ℤ
  pub func : ℕ
  pub data_ : ℕ
  pub last_runs : ℕ
  pub delay_time : ℤ
  pub status : Status
  pub last_status : Bool

-- The five words of a crontab line; `none` is `strchr` on NULL, or a number too large for an `int`.
unfoldable pub parse_crontab : List ℕ → Option (Tm ℤ × Tm ℤ)
unfolding strtok parse_vol
parse_crontab line = do
  (min, line₁) ← strtok line
  (hour, line₂) ← strtok line₁
  (mday, line₃) ← strtok line₂
  (mon, line₄) ← strtok line₃
  (wday, line₅) ← strtok line₄
  (a, a') ← parse_vol min
  (b, b') ← parse_vol hour
  (c, c') ← parse_vol mday
  (d, d') ← parse_vol mon
  (e, e') ← parse_vol wday
  some (
    record { tm_min = a; tm_hour = b; tm_mday = c; tm_mon = d; tm_wday = e },
    record { tm_min = a'; tm_hour = b'; tm_mday = c'; tm_mon = d'; tm_wday = e' },
  )

-- `st_scheduler`: null, or its list of jobs.
abbrev pub Scheduler : Type 0
Scheduler = Option (List NodeScheduler)

abbrev pub new_node : List ℕ → List ℕ → Tm ℤ → Tm ℤ → ℕ → ℕ → NodeScheduler
new_node name crontab vol vol_div func data_ = record {
  name = take 50 name;
  crontab = take 50 crontab;
  vol = vol;
  vol_div = vol_div;
  func = func;
  data_ = data_;
  last_runs = 0;
  delay_time = pos 0;
  status = scheduler_sleep;
  last_status = true;
}

-- `mem_node` and `mem_line` say whether the node and the copy of the line find memory. A string of
-- fifty characters or more loses its end, and the zeros of the next field close it.
unfoldable pub schedulers_register :
    (mem_node mem_line : Bool) → Scheduler → List ℕ → List ℕ → ℕ → ℕ → Option (Bool × Scheduler)
schedulers_register mem_node mem_line none name crontab func data_ = some (false, none)
schedulers_register mem_node mem_line (some list) name crontab func data_ =
    if not (mem_node && mem_line) then some (false, some list) else (do
      (vol, vol_div) ← parse_crontab (take 50 crontab)
      some (true, some (new_node name crontab vol vol_div func data_ ∷ list)))

-- `compare` is zero.
abbrev pub same_name : List ℕ → List ℕ → Bool
same_name [] [] = true
same_name (a ∷ as_) (b ∷ bs) = (a == b) && same_name as_ bs
same_name _ _ = false

-- `g_list_find_custom` and `g_list_remove`: the first job of the name leaves the list.
unfoldable pub remove_job : List ℕ → List NodeScheduler → List NodeScheduler
remove_job name [] = []
remove_job name (n ∷ list) =
    let rest = remove_job name list in if same_name n.name name then list else n ∷ rest

unfoldable pub schedulers_unregister : Scheduler → List ℕ → Bool × Scheduler
unfolding remove_job
schedulers_unregister none name = (false, none)
schedulers_unregister (some list) name = (true, some (remove_job (take 50 name) list))

-- One field of `time_cmp`; `none` is a division by zero.
unfoldable pub field_cmp : ℤ → ℤ → ℕ → Option Bool
field_cmp vol vol_div now =
    if eq_ℤ vol_div (negsuc 0)
    then some (if not (eq_ℤ vol (negsuc 0)) then eq_ℤ vol (pos now) else true)
    else if eq_ℤ vol_div (pos 0)
    then none
    else some (now % (pos_part vol_div + neg_part vol_div) == 0)

unfoldable pub time_cmp : NodeScheduler → Tm ℕ → Option Bool
unfolding field_cmp
time_cmp node tm = do
  f_min ← field_cmp node.vol.tm_min node.vol_div.tm_min tm.tm_min
  f_hour ← field_cmp node.vol.tm_hour node.vol_div.tm_hour tm.tm_hour
  f_mday ← field_cmp node.vol.tm_mday node.vol_div.tm_mday tm.tm_mday
  f_mon ← field_cmp node.vol.tm_mon node.vol_div.tm_mon tm.tm_mon
  f_wday ← field_cmp node.vol.tm_wday node.vol_div.tm_wday tm.tm_wday
  some (f_min && (f_hour && (f_mday && (f_mon && f_wday))))

abbrev pub is_asleep : NodeScheduler → Bool
is_asleep n = elim n.status [ scheduler_sleep ↦ true | scheduler_run ↦ false ]

-- The walk of `thr_scheduler` over the list: the jobs for which it makes a thread. `created` says
-- for which jobs `pthread_create` succeeds; a failure is logged, and the walk goes on.
unfoldable pub start_jobs :
    (NodeScheduler → Bool) → List NodeScheduler → Tm ℕ → Option (List NodeScheduler)
unfolding time_cmp
start_jobs created [] tm = some []
start_jobs created (node ∷ list) tm = do
  due ← time_cmp node tm
  rest ← start_jobs created list tm
  some (if due && is_asleep node then if created node then node ∷ rest else rest else rest)

-- `thr_scheduler_child` before and after the call of the job.
abbrev pub child_begins : ℕ → NodeScheduler → NodeScheduler
child_begins now node = record node { last_runs = now; status = scheduler_run }

abbrev pub child_ends : ℕ → ℕ → Bool → NodeScheduler → NodeScheduler
child_ends start_time now result node = record node {
  last_status = result;
  status = scheduler_sleep;
  delay_time = pos now -ℤ pos start_time;
}

-- `%d` of `sprintf` for a number that is not negative. The first argument bounds the recursion; `n`
-- itself is enough.
unfoldable pub show_digits : ℕ → ℕ → List ℕ
show_digits zero n = (48 + n) ∷ []
show_digits (suc bound) n =
    let front = show_digits bound (n / 10) in
    if ltb n 10 then (48 + n) ∷ [] else front ++ ((48 + n % 10) ∷ [])

abbrev pub stars : ℕ → List ℕ
stars zero = []
stars (suc n) = 32 ∷ (42 ∷ stars n)

-- The line of a job that runs every so many minutes, as the modules build it.
abbrev pub every : ℕ → List ℕ
every timeout = 42 ∷ (47 ∷ (show_digits timeout timeout ++ stars 4))
