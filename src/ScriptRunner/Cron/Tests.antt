-- ===== src/ScriptRunner/Cron/Tests.antt =====
-- Runs of the cron expressions, and the theorems at concrete inputs.
use yyb_go.Prelude.{ℕ, ◌+◌, ◌*◌, ◌/◌, ◌%◌, ◌≡◌, refl, [], ◌∷◌, some, codes}
use yyb_go.Prelude.Outcome.{ok, err}
use yyb_go.Prelude.Text.{fields, split, cut, text_eq, atoi, join}
use yyb_go.ScriptRunner.Cron.{
  match_field, match_step, restricted, Schedule, CronField, parse_cron, parse_cron_field,
  wrong_part_count, out_of_range, bad_step,
}
use yyb_go.ScriptRunner.Cron.Parse.{IsSchedule, parse_cron-IsSchedule, parse_cron-raw}
use yyb_go.ScriptRunner.Cron.Next.{Calendar, next, next_loop, fires, IsFirst, window, next-IsFirst}

-- The first days of 1970, a Thursday, in UTC.
abbrev january : Calendar
january = record {
  month = λ t. 1;
  day = λ t. t / 86400 + 1;
  hour = λ t. t / 3600 % 24;
  minute = λ t. t / 60 % 60;
  weekday = λ t. (t / 86400 + 4) % 7;
}

abbrev whole : ℕ → ℕ → CronField
whole min max = record {
  min = min;
  max = max;
  steps = (record { start = min; end = max; step = 1 }) ∷ [];
}

abbrev only : ℕ → ℕ → ℕ → CronField
only min max n = record {
  min = min;
  max = max;
  steps = (record { start = n; end = n; step = 1 }) ∷ [];
}

-- "32 16 * * *"
abbrev daily : Schedule
daily = record {
  raw = codes "32 16 * * *";
  minutes = only 0 59 32;
  hours = only 0 23 16;
  days = whole 1 31;
  months = whole 1 12;
  weekdays = whole 0 6;
}

daily_run : parse_cron (codes " 32\t16 * * ? ") ≡ ok (record daily { raw = codes "32 16 * * ?" })
unfolding parse_cron fields parse_cron_field split cut text_eq atoi join
daily_run = refl

steps_run :
    parse_cron_field (codes "10-30/5") 0 59
    ≡ ok (record { min = 0; max = 59; steps = (record { start = 10; end = 30; step = 5 }) ∷ [] })
unfolding parse_cron_field split cut text_eq atoi
steps_run = refl

four_parts : parse_cron (codes "32 16 * *") ≡ err wrong_part_count
unfolding parse_cron fields
four_parts = refl

no_minute_60 : parse_cron (codes "60 16 * * *") ≡ err out_of_range
unfolding parse_cron fields parse_cron_field split cut text_eq atoi join
no_minute_60 = refl

no_step_0 : parse_cron (codes "*/0 16 * * *") ≡ err bad_step
unfolding parse_cron fields parse_cron_field split cut text_eq atoi join
no_step_0 = refl

parse_daily : parse_cron (codes "32  16 * * *") ≡ ok daily
unfolding parse_cron fields parse_cron_field split cut text_eq atoi join
parse_daily = refl

parse_cron-IsSchedule_example : IsSchedule daily
parse_cron-IsSchedule_example = parse_cron-IsSchedule (codes "32  16 * * *") daily parse_daily

parse_cron-raw_example : parse_cron (codes "32 16 * * *") ≡ ok daily
parse_cron-raw_example = parse_cron-raw (codes "32  16 * * *") daily parse_daily

-- From 16:30:05 it is two rounds of the loop.
two_rounds : next_loop january daily 3 (59405 + window) ((59405 / 60 + 1) * 60) ≡ some 59520
unfolding next_loop fires match_field match_step restricted
two_rounds = refl

next-IsFirst_example : IsFirst january daily (59405 + 1) (59405 + window) (next january daily 59405)
next-IsFirst_example = next-IsFirst january daily 59405
