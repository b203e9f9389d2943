-- ===== src/ScriptRunner/Runner/Steps.antt =====
-- internal/scriptrunner/runner.go: sequences of calls of a runner.
use yyb_go.Prelude.{ℕ, List, [], map, Option, none, some}
use yyb_go.Prelude.Map.{nat_eq, lookup}
use yyb_go.Prelude.Text.{Text, text_eq_instance}
use yyb_go.ScriptRunner.Runner.{
  Host, Disk, Runner, Ending, ScheduleEntry, run_args, run_ended, stop_run, stop,
}
use yyb_go.ScriptRunner.Runner.Schedules.{
  WriteFault, set_schedule, clear_schedule, delete, load_entries, load_schedules, new,
  scheduler_tick,
}
use yyb_go.ScriptRunner.Runner.Tracked.{
  IsTracked, stop_run-IsTracked, run_args-IsTracked, run_ended-IsTracked, stop_names-IsTracked,
}
use yyb_go.ScriptRunner.Runner.Untouched.{
  run_ended-schedules, run_args-schedules, stop_names-schedules, stop_run-schedules,
}
use yyb_go.ScriptRunner.Runner.Sound.{
  IsSound, same_schedules_lem, clear_schedule-IsSound, set_schedule-IsSound, delete-IsSound,
  run_due-IsSound, save_changed-IsSound, load_entries-AreEntries, with_schedules-IsTracked,
}

-- One call of a runner.
pub data Step (h : Host) : Runner → Runner → Type 0 where
  started : (d : Disk) (name : Text) (now : ℕ) (r : Runner) → Step h r (run_args h d name now r).0
  ended : (id : ℕ) (ending : Ending) (now : ℕ) (r : Runner) → Step h r (run_ended id ending now r)
  stopped_run : (name : Text) (r : Runner) → Step h r (stop_run name r).0
  stopped : (r : Runner) → Step h r (stop r)
  schedule_set :
      (d : Disk) (write_error : Option WriteFault) (name cron : Text) (now : ℕ) (r : Runner)
      → Step h r (set_schedule h d write_error name cron now r).0
  schedule_cleared :
      (write_error : Option WriteFault) (name : Text) (r : Runner)
      → Step h r (clear_schedule write_error name r).0
  deleted :
      (remove_error : Option Text) (write_error : Option WriteFault) (name : Text) (r : Runner)
      → Step h r (delete h remove_error write_error name r).0
  ticked :
      (disk : Text → Disk) (write_error : Option WriteFault) (now : ℕ) (r : Runner)
      → Step h r (scheduler_tick h disk write_error now r)

-- A runner that has read the file, and what it becomes.
pub data Reachable (h : Host) : Runner → Type 0 where
  begun :
      (saved : Option (List (Text × ScheduleEntry))) → Reachable h (load_schedules h (new saved))
  stepped : (r r' : Runner) → Reachable h r → Step h r r' → Reachable h r'

new-IsTracked : (saved : Option (List (Text × ScheduleEntry))) → IsTracked (new saved)
unfolding lookup
new-IsTracked saved = record {
  runs_below = λ name id e. absurd (cc);
  states_below = λ id s e. absurd (cc);
  tracked = λ id s e running. absurd (cc);
  one_name = λ name other id e _. absurd (cc);
}

load_schedules-IsSound :
    (h : Host) (saved : Option (List (Text × ScheduleEntry)))
    → IsSound h (load_schedules h (new saved))
unfolding load_schedules
load_schedules-IsSound h none = (new-IsTracked none, (tt, tt))
load_schedules-IsSound h (some raw) = (
  with_schedules-IsTracked (new (some raw)) (load_entries h raw []) (some raw)
      (new-IsTracked (some raw)),
  load_entries-AreEntries h raw [] (tt, tt),
)

Step-IsSound : (h : Host) (r r' : Runner) → Step h r r' → IsSound h r → IsSound h r'
unfolding stop scheduler_tick
Step-IsSound h _ _ (started d name now r) (t, a) =
    same_schedules_lem h r _ a (run_args-IsTracked h d name now r t)
      (run_args-schedules h d name now r)
Step-IsSound h _ _ (ended id ending now r) (t, a) =
    same_schedules_lem h r _ a (run_ended-IsTracked id ending now r t)
      (run_ended-schedules id ending now r)
Step-IsSound h _ _ (stopped_run name r) (t, a) =
    same_schedules_lem h r _ a (stop_run-IsTracked name r t) (stop_run-schedules name r)
Step-IsSound h _ _ (stopped r) (t, a) =
    same_schedules_lem h r _ a
      (stop_names-IsTracked (map (λ (entry : Text × ℕ). entry.0) r.runs) r t)
      (stop_names-schedules (map (λ (entry : Text × ℕ). entry.0) r.runs) r)
Step-IsSound h _ _ (schedule_set d write_error name cron now r) sound =
    set_schedule-IsSound h d write_error name cron now r sound
Step-IsSound h _ _ (schedule_cleared write_error name r) sound =
    clear_schedule-IsSound h write_error name r sound
Step-IsSound h _ _ (deleted remove_error write_error name r) sound =
    delete-IsSound h remove_error write_error name r sound
Step-IsSound h _ _ (ticked disk write_error now r) sound =
    save_changed-IsSound h write_error _ (run_due-IsSound h disk now _ r sound)

-- After any sequence of calls, from the start of the runner with any file of schedules, every run that
-- has not finished stands in the map of the runs, under one name and no other, and every schedule has a
-- valid name and an expression that is accepted, so that a restart would keep it.
pub Reachable-IsSound : (h : Host) (r : Runner) → Reachable h r → IsSound h r
Reachable-IsSound h _ (begun saved) = load_schedules-IsSound h saved
Reachable-IsSound h _ (stepped r r' reached step) =
    Step-IsSound h r r' step (Reachable-IsSound h r reached)
