-- ===== src/ScriptRunner/Runner/Schedules.antt =====
-- internal/scriptrunner/runner.go: the schedules, their file, and the scheduler.
use yyb_go.Prelude.{
  ℕ, ◌-◌, ◌*◌, ◌/◌, ◌^◌, Bool, true, false, not, ◌&&◌, ◌||◌, List, [], ◌∷◌, Option, none, some, min,
  ltb, ◌==◌, if◌then◌else◌,
}
use yyb_go.Prelude.Map.{lookup, insert, remove}
use yyb_go.Prelude.Outcome.{Outcome, ok, err, panic}
use yyb_go.Prelude.Text.{Text, text_eq_instance}
use yyb_go.ScriptRunner.Cron.{Schedule, parse_cron, Error}
use yyb_go.ScriptRunner.Cron.Next.{next}
use yyb_go.ScriptRunner.Runner.{
  Host, Disk, Runner, RunError, ScheduleEntry, invalid_name, no_script, bad_cron, never_fires,
  panicked, io_error, valid_name, is_running, run_args, stop_run,
}

-- `t.Unix()` of a time.
abbrev pub unix : ℕ → ℕ
unix now = now / 10 ^ 9

-- A write of the file that fails: the error, and what the file then holds, which may be what it held,
-- or no schedules that can be read, as os.WriteFile empties the file first.
abbrev pub WriteFault : Type 0
WriteFault = Text × Option (List (Text × ScheduleEntry))

-- `saveSchedules`
unfoldable pub save_schedules : Option WriteFault → Runner → Runner × Option RunError
save_schedules none r = (record r { saved = some r.schedules }, none)
save_schedules (some (message, left)) r = (record r { saved = left }, some (io_error message))

-- The entry that a cron expression gives.
unfoldable pub timed : Schedule → Option ℕ → Outcome RunError ScheduleEntry
timed schedule none = err never_fires
timed schedule (some t) = ok (record { cron = schedule.raw; next_at = t })

unfoldable pub entry_of : Host → ℕ → Outcome Error Schedule → Outcome RunError ScheduleEntry
unfolding timed
entry_of h now (ok schedule) = timed schedule (next h.calendar schedule (unix now))
entry_of h now (err _) = err bad_cron
entry_of h now panic = panic

unfoldable pub entry_for : Host → Text → ℕ → Outcome RunError ScheduleEntry
unfolding entry_of
entry_for h cron now = entry_of h now (parse_cron cron)

unfoldable pub store_entry :
    Text → Outcome RunError ScheduleEntry → Option WriteFault → Runner → Runner × Option RunError
unfolding save_schedules
store_entry name (ok entry) write_error r =
    save_schedules write_error (record r { schedules = insert name entry r.schedules })
store_entry name (err e) write_error r = (r, some e)
store_entry name panic write_error r = (r, some panicked)

unfoldable pub set_schedule :
    Host → Disk → Option WriteFault → Text → Text → ℕ → Runner → Runner × Option RunError
unfolding store_entry
set_schedule h d write_error name cron now r =
    if not (valid_name h name)
    then (r, some invalid_name)
    else if not d.script_exists
    then (r, some no_script)
    else store_entry name (entry_for h cron now) write_error r

unfoldable pub clear_schedule : Option WriteFault → Text → Runner → Runner × Option RunError
unfolding save_schedules
clear_schedule write_error name r =
    save_schedules write_error (record r { schedules = remove name r.schedules })

-- `Delete`; the only error of `StopRun` is that the script does not run, which it passes over.
-- `remove_error` is that of removing the script, if it is not that there is none.
unfoldable pub delete_script :
    Option Text → Option WriteFault → Text → Runner → Runner × Option RunError
unfolding clear_schedule
delete_script (some message) write_error name r = (r, some (io_error message))
delete_script none write_error name r = clear_schedule write_error name r

unfoldable pub delete :
    Host → Option Text → Option WriteFault → Text → Runner → Runner × Option RunError
unfolding delete_script
delete h remove_error write_error name r =
    if not (valid_name h name)
    then (r, some invalid_name)
    else delete_script remove_error write_error name (stop_run name r).0

-- An entry of the file is kept if its name is valid and its cron expression is.
unfoldable pub parses : Outcome Error Schedule → Bool
parses (ok _) = true
parses (err _) = false
parses panic = false

unfoldable pub load_entries :
    Host → List (Text × ScheduleEntry) → List (Text × ScheduleEntry) → List (Text × ScheduleEntry)
unfolding parses
load_entries h [] schedules = schedules
load_entries h ((name, entry) ∷ raw) schedules = load_entries h raw (
    if valid_name h name && parses (parse_cron entry.cron)
    then insert name entry schedules
    else schedules)

unfoldable pub load_saved : Host → Option (List (Text × ScheduleEntry)) → Runner → Runner
unfolding load_entries
load_saved h none r = r
load_saved h (some raw) r = record r { schedules = load_entries h raw r.schedules }

unfoldable pub load_schedules : Host → Runner → Runner
unfolding load_saved
load_schedules h r = load_saved h r.saved r

-- `New`, with the file that an earlier runner left.
abbrev pub new : Option (List (Text × ScheduleEntry)) → Runner
new saved = record { runs = []; states = []; next_id = 0; schedules = []; saved = saved }

-- The first loop of `schedulerTick`.
unfoldable pub is_due : ℕ → Text → ScheduleEntry → Runner → Bool
is_due now name entry r =
    not (entry.next_at == 0 || ltb (unix now) entry.next_at) && not (is_running name r)

unfoldable pub due_names : ℕ → List (Text × ScheduleEntry) → Runner → List Text
unfolding is_due
due_names now [] r = []
due_names now ((name, entry) ∷ entries) r =
    let names = due_names now entries r in if is_due now name entry r then name ∷ names else names

unfoldable pub move : Text → ScheduleEntry → Outcome RunError ScheduleEntry → Runner → Runner × Bool
move name entry (ok later) r = (
  record r { schedules = insert name (record entry { next_at = later.next_at }) r.schedules },
  true,
)
move name entry (err _) r = (r, false)
move name entry panic r = (r, false)

-- The entry with its next time, where its expression has one.
unfoldable pub advance : Host → ℕ → Text → Option ScheduleEntry → Runner → Runner × Bool
unfolding entry_for move
advance h now name none r = (r, false)
advance h now name (some entry) r = move name entry (entry_for h entry.cron now) r

-- One name of the second loop; a run that cannot be started leaves its entry as it is.
unfoldable pub after_start : Host → ℕ → Text → Runner × Outcome RunError ℕ → Runner × Bool
unfolding advance
after_start h now name (r, ok _) = advance h now name (lookup name r.schedules) r
after_start h now name (r, err _) = (r, false)
after_start h now name (r, panic) = (r, false)

unfoldable pub run_due : Host → (Text → Disk) → ℕ → List Text → Runner → Runner × Bool
unfolding after_start
run_due h disk now [] r = (r, false)
run_due h disk now (name ∷ names) r =
    let (r₁, changed) = after_start h now name (run_args h (disk name) name now r) in
    let (r₂, more) = run_due h disk now names r₁ in (r₂, changed || more)

unfoldable pub save_changed : Option WriteFault → Runner × Bool → Runner
unfolding save_schedules
save_changed write_error (r, true) = (save_schedules write_error r).0
save_changed write_error (r, false) = r

unfoldable pub scheduler_tick : Host → (Text → Disk) → Option WriteFault → ℕ → Runner → Runner
unfolding save_changed
scheduler_tick h disk write_error now r =
    save_changed write_error (run_due h disk now (due_names now r.schedules r) r)

-- The earliest time that is set; 0 is none.
unfoldable pub earliest : List (Text × ScheduleEntry) → ℕ → ℕ
earliest [] found = found
earliest ((name, entry) ∷ entries) found = earliest entries (
    if ltb 0 entry.next_at && (found == 0 || ltb entry.next_at found) then entry.next_at else found)

-- 60 * time.Second
abbrev pub max_delay : ℕ
max_delay = 60 * 10 ^ 9

-- `time.Until` of the first time, which is 0 for one that has passed, up to a minute.
unfoldable pub delay : ℕ → ℕ → ℕ
delay now first = if first == 0 then max_delay else min (first * 10 ^ 9 - now) max_delay

unfoldable pub next_wake_delay : ℕ → Runner → ℕ
unfolding delay
next_wake_delay now r = delay now (earliest r.schedules 0)
