-- ===== src/Sched/Examples.antt =====
-- Lines and jobs of src/sched.c.
use ipstat.Base.{
  ℕ, ◌≤◌, ◌≡◌, ◌≢◌, refl, true, false, some, none, List, [], ◌∷◌, arith, Returns, length,
}
use ipstat.Base.Int.{ℤ, pos, negsuc}
use ipstat.Sched.{
  Tm, NodeScheduler, schedulers_register, schedulers_unregister, new_node, parse_crontab, strtok,
  word, parse_vol, split_slash, atoi, atoi_digits, stars, every, show_digits, start_jobs, time_cmp,
  field_cmp,
}
use ipstat.Sched.Due.{RunsEvery, schedulers_register-RunsEvery}
use ipstat.Sched.Jobs.{unregister-register, start_jobs-Starts, start_jobs_fault, Starts}

abbrev stars_only : Tm ℤ
stars_only = record {
  tm_min = negsuc 0;
  tm_hour = negsuc 0;
  tm_mday = negsuc 0;
  tm_mon = negsuc 0;
  tm_wday = negsuc 0;
}

abbrev each_minute : NodeScheduler
each_minute = new_node (97 ∷ []) [] stars_only stars_only 1 2

-- What a module with the timeout 0 registers.
abbrev zero_timeout : NodeScheduler
zero_timeout = new_node (98 ∷ []) [] stars_only (record stars_only { tm_min = pos 0 }) 1 2

abbrev now : Tm ℕ
now = record { tm_min = 30; tm_hour = 12; tm_mday = 1; tm_mon = 0; tm_wday = 4 }

line_length : length (every 30) ≤ 50
unfolding show_digits
line_length = omega arith

schedulers_register-RunsEvery_example :
    Returns
      (λ (ok, s). (ok ≡ true) × Returns (RunsEvery 30 (each_minute ∷ [])) s)
      (schedulers_register true true (some (each_minute ∷ [])) (99 ∷ []) (every 30) 3 4)
schedulers_register-RunsEvery_example =
    schedulers_register-RunsEvery 30 (each_minute ∷ []) (99 ∷ []) 3 4 line_length (omega arith)

-- The line `0 5 * * *`.
abbrev at_five : List ℕ
at_five = 48 ∷ (32 ∷ (53 ∷ stars 3))

at_five_parsed : parse_crontab at_five ≢ none
unfolding parse_crontab strtok word parse_vol split_slash atoi atoi_digits
at_five_parsed e = cc

unregister-register_example :
    Returns
      (λ (ok, s).
        (ok ≡ true) × (schedulers_unregister s (97 ∷ []) ≡ (true, some (each_minute ∷ []))))
      (schedulers_register true true (some (each_minute ∷ [])) (97 ∷ []) at_five 3 4)
unregister-register_example =
    unregister-register (each_minute ∷ []) (97 ∷ []) at_five 3 4 at_five_parsed

start_jobs-Starts_example :
    Returns
      (Starts (λ n. true) now (each_minute ∷ []))
      (start_jobs (λ n. true) (each_minute ∷ []) now)
start_jobs-Starts_example =
    start_jobs-Starts (λ n. true) (each_minute ∷ []) now ((refl, refl, refl, refl, refl), tt)

-- A job whose thread cannot be made waits for its next minute.
not_created : start_jobs (λ n. false) (each_minute ∷ []) now ≡ some []
unfolding start_jobs time_cmp field_cmp
not_created = refl

-- A number that no `int` holds: 2147483648.
too_large : atoi (50 ∷ 49 ∷ 52 ∷ 55 ∷ 52 ∷ 56 ∷ 51 ∷ 54 ∷ 52 ∷ 56 ∷ []) ≡ none
unfolding atoi atoi_digits
too_large = refl

start_jobs_fault_example : start_jobs (λ n. true) (each_minute ∷ (zero_timeout ∷ [])) now ≡ none
start_jobs_fault_example = start_jobs_fault (λ n. true) (each_minute ∷ []) [] zero_timeout now refl
