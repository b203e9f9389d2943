-- ===== src/ScriptRunner/Runner/Tests.antt =====
-- Runs of the runner, and the theorems at concrete inputs.
use yyb_go.Prelude.{
  ◌+◌, ◌*◌, ◌/◌, ◌%◌, ◌^◌, ◌-◌, ◌≤◌, ◌<◌, ◌≡◌, refl, true, false, ◌&&◌, [], ◌∷◌, none, some, arith,
  leb, codes,
}
use yyb_go.Prelude.Map.{lookup, insert, nat_eq}
use yyb_go.Prelude.Outcome.{err}
use yyb_go.Prelude.Text.{Text, text_eq, text_eq_instance, fields, split, cut, atoi, join, pos}
use yyb_go.ScriptRunner.Cron.{parse_cron, parse_cron_field, match_field, match_step, restricted}
use yyb_go.ScriptRunner.Cron.Next.{next, next_loop, fires}
use yyb_go.ScriptRunner.Runner.{
  Host, Disk, Runner, RunState, ScheduleEntry, Ending, exit_error, already_running, valid_name,
  is_running, register, run_args, run_ended, stop,
}
use yyb_go.ScriptRunner.Runner.Schedules.{
  set_schedule, load_schedules, new, next_wake_delay, max_delay, scheduler_tick, unix,
}
use yyb_go.ScriptRunner.Runner.Stop.{IsStopped, stop-IsStopped}
use yyb_go.ScriptRunner.Runner.Restart.{AreEntries, IsEntryFor, set_schedule-survives}
use yyb_go.ScriptRunner.Runner.Wake.{next_wake_delay-in_time}
use yyb_go.ScriptRunner.Runner.Overdue.{IsBusy, scheduler_tick-spins}
use yyb_go.ScriptRunner.Runner.Sound.{IsSound}
use yyb_go.ScriptRunner.Runner.Steps.{Reachable, begun, stepped, started, Reachable-IsSound}

abbrev host : Host
host = record {
  is_letter_or_number = λ c. leb b'a' c && leb c b'z';
  calendar = record {
    month = λ t. 1;
    day = λ t. t / 86400 + 1;
    hour = λ t. t / 3600 % 24;
    minute = λ t. t / 60 % 60;
    weekday = λ t. (t / 86400 + 4) % 7;
  };
}

abbrev disk : Disk
disk = record { script_exists = true; python_found = true; log_error = none }

abbrev name : Text
name = codes "a.py"

valid_run : valid_name host name ≡ true
unfolding valid_name text_eq
valid_run = refl

invalid_run : valid_name host (codes "../a.py") ≡ false
unfolding valid_name text_eq
invalid_run = refl

abbrev entry : ScheduleEntry
entry = record { cron = codes "* * * * *"; next_at = 60 }

abbrev empty : Runner
empty = new none

abbrev running_state : RunState
running_state = record {
  cancelled = false;
  started_at = 5;
  finished_at = 0;
  finished = false;
  exit_code = pos 0;
  err_msg = [];
}

abbrev running : Runner
running = record {
  runs = (name, 0) ∷ [];
  states = (0, running_state) ∷ [];
  next_id = 1;
  schedules = (name, entry) ∷ [];
  saved = none;
}

twice_run : (run_args host disk name 7 running).1 ≡ err already_running
unfolding run_args valid_name text_eq is_running lookup
twice_run = refl

exit_run :
    (run_ended 0 (exit_error (pos 3)) 9 running).states
    ≡ (0, record running_state { finished = true; finished_at = 9; exit_code = pos 3 }) ∷ []
unfolding run_ended lookup insert yyb_go.ScriptRunner.Runner.finish
exit_run = refl

abbrev reached : Reachable host (run_args host disk name 5 (load_schedules host (new none))).0
reached = stepped _ _ (begun none) (started disk name 5 _)

Reachable-IsSound_example :
    IsSound host (run_args host disk name 5 (load_schedules host (new none))).0
Reachable-IsSound_example =
    Reachable-IsSound host (run_args host disk name 5 (load_schedules host (new none))).0 reached

stopped_run :
    lookup 0 (stop (run_args host disk name 5 (load_schedules host (new none))).0).states
    ≡ some (record running_state { cancelled = true })
unfolding stop run_args valid_name text_eq is_running lookup insert load_schedules register
    yyb_go.ScriptRunner.Runner.stop_run
stopped_run = refl

found_entry : lookup name running.schedules ≡ some entry
unfolding lookup text_eq
found_entry = refl

running-IsBusy : IsBusy name entry 0 running_state running
unfolding lookup text_eq
running-IsBusy = record {
  scheduled = refl;
  known = refl;
  stored = refl;
  unfinished = refl;
  below = omega arith;
}

stop-IsStopped_example : IsStopped (record running_state { cancelled = true })
stop-IsStopped_example =
    stop-IsStopped (run_args host disk name 5 (load_schedules host (new none))).0 0
      (record running_state { cancelled = true }) Reachable-IsSound_example.0 stopped_run

next_wake_delay-in_time_example :
    (next_wake_delay (10 ^ 9) running ≤ 60 * 10 ^ 9)
    × ((n : Text) (e : ScheduleEntry)
        → lookup n running.schedules ≡ some e
        → 0 < e.next_at
        → (next_wake_delay (10 ^ 9) running ≤ e.next_at * 10 ^ 9 - 10 ^ 9)
          × (e.next_at ≤ unix (10 ^ 9) → next_wake_delay (10 ^ 9) running ≡ 0))
next_wake_delay-in_time_example = next_wake_delay-in_time (10 ^ 9) running

scheduler_tick-spins_example :
    (lookup name (scheduler_tick host (λ _. disk) none (61 * 10 ^ 9) running).schedules
      ≡ some entry)
    × (lookup name (scheduler_tick host (λ _. disk) none (61 * 10 ^ 9) running).runs ≡ some 0)
    × (lookup 0 (scheduler_tick host (λ _. disk) none (61 * 10 ^ 9) running).states
        ≡ some running_state)
    × (next_wake_delay (62 * 10 ^ 9) (scheduler_tick host (λ _. disk) none (61 * 10 ^ 9) running)
        ≡ 0)
scheduler_tick-spins_example =
    scheduler_tick-spins host (λ _. disk) none (61 * 10 ^ 9) (62 * 10 ^ 9) name entry 0
      running_state running running-IsBusy (omega arith) (omega arith)

abbrev scheduled : Runner
scheduled = record empty { schedules = (name, entry) ∷ []; saved = some ((name, entry) ∷ []) }

scheduled_run :
    set_schedule host disk none name (codes "* * * * *") (5 * 10 ^ 9) empty ≡ (scheduled, none)
unfolding set_schedule valid_name text_eq lookup insert parse_cron fields parse_cron_field split cut
    atoi join next next_loop fires match_field match_step restricted
    yyb_go.ScriptRunner.Runner.Schedules.entry_for
    yyb_go.ScriptRunner.Runner.Schedules.save_schedules
scheduled_run = refl

set_schedule-survives_example :
    AreEntries host scheduled.schedules
    × ((entry : ScheduleEntry) × (lookup name (load_schedules host (new scheduled.saved)).schedules
          ≡ some entry)
        × IsEntryFor host (codes "* * * * *") (5 * 10 ^ 9) entry)
    × ((other_name : Text)
        → ¬ (name ≡ other_name)
        → lookup other_name (load_schedules host (new scheduled.saved)).schedules
          ≡ lookup other_name empty.schedules)
set_schedule-survives_example =
    set_schedule-survives host disk none name (codes "* * * * *") (5 * 10 ^ 9) empty scheduled
      (tt, tt) scheduled_run
