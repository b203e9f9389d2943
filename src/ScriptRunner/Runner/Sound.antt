-- ===== src/ScriptRunner/Runner/Sound.antt =====
-- internal/scriptrunner/runner.go: the runs and the schedules under each call.
use yyb_go.Prelude.{
  ℕ, ◌≡◌, refl, ap, sym, ◌∙◌, subst, Bool, true, false, not, ◌&&◌, List, [], ◌∷◌, Option, none,
  some, arith, if-both, and_split,
}
use yyb_go.Prelude.Map.{
  nat_eq, lookup, insert, remove, insert-IsMap, remove-IsMap, All-insert, All-remove, All-lookup,
}
use yyb_go.Prelude.Outcome.{Outcome, ok, err, panic}
use yyb_go.Prelude.Text.{Text, text_eq_instance}
use yyb_go.ScriptRunner.Cron.{Schedule, parse_cron, Error}
use yyb_go.ScriptRunner.Cron.Parse.{parse_cron-raw}
use yyb_go.ScriptRunner.Runner.{
  Host, Disk, Runner, RunError, ScheduleEntry, valid_name, run_args, stop_run,
}
use yyb_go.ScriptRunner.Runner.Schedules.{
  WriteFault, save_schedules, store_entry, entry_for, set_schedule, clear_schedule, delete_script,
  delete, parses, load_entries, move, advance, after_start, run_due, save_changed,
}
use yyb_go.ScriptRunner.Runner.Tracked.{IsTracked, stop_run-IsTracked, run_args-IsTracked}
use yyb_go.ScriptRunner.Runner.Restart.{AreEntries, IsEntry, entry_for_lem}
use yyb_go.ScriptRunner.Runner.Untouched.{run_args-schedules, stop_run-schedules}

-- The runs are tracked, and the schedules could be loaded again.
abbrev pub IsSound : Host → Runner → Type 0
IsSound h r = IsTracked r × AreEntries h r.schedules

-- The maps of the runs do not know the schedules, nor the file.
pub with_schedules-IsTracked :
    (r : Runner) (schedules : List (Text × ScheduleEntry))
    (saved : Option (List (Text × ScheduleEntry)))
    → IsTracked r
    → IsTracked (record r { schedules = schedules; saved = saved })
with_schedules-IsTracked r schedules saved t = record {
  runs_below = t.runs_below;
  states_below = t.states_below;
  tracked = t.tracked;
  one_name = t.one_name;
}

module _ (h : Host) where
  save_schedules-IsSound :
      (write_error : Option WriteFault) (r : Runner) (schedules : List (Text × ScheduleEntry))
      → IsTracked r
      → AreEntries h schedules
      → IsSound h (save_schedules write_error (record r { schedules = schedules })).0
  unfolding save_schedules
  save_schedules-IsSound none r schedules t a =
      (with_schedules-IsTracked r schedules (some schedules) t, a)
  save_schedules-IsSound (some (message, left)) r schedules t a =
      (with_schedules-IsTracked r schedules left t, a)

  insert-AreEntries :
      (name : Text) (entry : ScheduleEntry) (schedules : List (Text × ScheduleEntry))
      → IsEntry h (name, entry)
      → AreEntries h schedules
      → AreEntries h (insert name entry schedules)
  insert-AreEntries name entry schedules e (distinct, entries) = (
    insert-IsMap name entry schedules distinct,
    All-insert (IsEntry h) name entry schedules e entries,
  )

  pub clear_schedule-IsSound :
      (write_error : Option WriteFault) (name : Text) (r : Runner)
      → IsSound h r
      → IsSound h (clear_schedule write_error name r).0
  unfolding clear_schedule
  clear_schedule-IsSound write_error name r (t, (distinct, entries)) =
      save_schedules-IsSound write_error r (remove name r.schedules) t
        (remove-IsMap name r.schedules distinct, All-remove (IsEntry h) name r.schedules entries)

  pub set_schedule-IsSound :
      (d : Disk) (write_error : Option WriteFault) (name cron : Text) (now : ℕ) (r : Runner)
      → IsSound h r
      → IsSound h (set_schedule h d write_error name cron now r).0
  unfolding set_schedule store_entry
  set_schedule-IsSound d write_error name cron now r (t, a) =
      if-both Sound (not (valid_name h name)) (λ _. (t, a))
        (λ valid.
          if-both Sound (not d.script_exists) (λ _. (t, a))
            (λ _. stored (ground arith) (entry_for h cron now) refl))
    where
      Sound : Runner × Option RunError → Type 0
      Sound result = IsSound h result.0

      stored :
          valid_name h name ≡ true
          → (found : Outcome RunError ScheduleEntry) → entry_for h cron now ≡ found
          → Sound (store_entry name found write_error r)
      stored valid (ok entry) e =
          let (s, parsed, kept, _) = entry_for_lem h cron now entry e in
          save_schedules-IsSound write_error r (insert name entry r.schedules) t (
            insert-AreEntries name entry r.schedules
              (valid, (s, ap parse_cron kept ∙ parse_cron-raw cron s parsed)) a)
      stored valid (err _) e = (t, a)
      stored valid panic e = (t, a)

  pub same_schedules_lem :
      (r r' : Runner)
      → AreEntries h r.schedules
      → IsTracked r'
      → r'.schedules ≡ r.schedules
      → IsSound h r'
  same_schedules_lem r r' a t e = (t, subst (AreEntries h) (sym e) a)

  pub delete-IsSound :
      (remove_error : Option Text) (write_error : Option WriteFault) (name : Text) (r : Runner)
      → IsSound h r
      → IsSound h (delete h remove_error write_error name r).0
  unfolding delete delete_script
  delete-IsSound remove_error write_error name r (t, a) =
      if-both (λ (result : Runner × Option RunError). IsSound h result.0) (not (valid_name h name))
        (λ _. (t, a)) (λ _. go remove_error)
    where
      stopped_sound : IsSound h (stop_run name r).0
      stopped_sound =
          same_schedules_lem r (stop_run name r).0 a (stop_run-IsTracked name r t)
            (stop_run-schedules name r)

      go :
          (error : Option Text)
          → IsSound h (delete_script error write_error name (stop_run name r).0).0
      go none = clear_schedule-IsSound write_error name (stop_run name r).0 stopped_sound
      go (some message) = stopped_sound

  move-IsSound :
      (name : Text) (entry : ScheduleEntry) (later : Outcome RunError ScheduleEntry) (r : Runner)
      → IsEntry h (name, entry)
      → IsSound h r
      → IsSound h (move name entry later r).0
  unfolding move
  move-IsSound name entry (ok later) r is_entry (t, a) =
      let moved = record entry { next_at = later.next_at } in
      (
        with_schedules-IsTracked r (insert name moved r.schedules) r.saved t,
        insert-AreEntries name moved r.schedules is_entry a,
      )
  move-IsSound name entry (err _) r is_entry sound = sound
  move-IsSound name entry panic r is_entry sound = sound

  after_start-IsSound :
      (now : ℕ) (name : Text) (result : Runner × Outcome RunError ℕ)
      → IsSound h result.0
      → IsSound h (after_start h now name result).0
  unfolding after_start advance
  after_start-IsSound now name (r, err _) sound = sound
  after_start-IsSound now name (r, panic) sound = sound
  after_start-IsSound now name (r, ok _) sound = go (lookup name r.schedules) refl
    where
      go :
          (found : Option ScheduleEntry)
          → lookup name r.schedules ≡ found
          → IsSound h (advance h now name found r).0
      go none e = sound
      go (some entry) e =
          move-IsSound name entry (entry_for h entry.cron now) r
            (All-lookup (IsEntry h) name entry r.schedules sound.1.1 e) sound

  pub run_due-IsSound :
      (disk : Text → Disk) (now : ℕ) (names : List Text) (r : Runner)
      → IsSound h r
      → IsSound h (run_due h disk now names r).0
  unfolding run_due
  run_due-IsSound disk now [] r sound = sound
  run_due-IsSound disk now (name ∷ names) r (t, a) = run_due-IsSound disk now names _ (
      after_start-IsSound now name (run_args h (disk name) name now r) (
        same_schedules_lem r (run_args h (disk name) name now r).0 a
          (run_args-IsTracked h (disk name) name now r t)
          (run_args-schedules h (disk name) name now r)))

  pub save_changed-IsSound :
      (write_error : Option WriteFault) (result : Runner × Bool)
      → IsSound h result.0
      → IsSound h (save_changed write_error result)
  unfolding save_changed
  save_changed-IsSound write_error (r, false) sound = sound
  save_changed-IsSound write_error (r, true) (t, a) =
      save_schedules-IsSound write_error r r.schedules t a

  pub load_entries-AreEntries :
      (raw acc : List (Text × ScheduleEntry))
      → AreEntries h acc
      → AreEntries h (load_entries h raw acc)
  unfolding load_entries
  load_entries-AreEntries [] acc a = a
  load_entries-AreEntries ((name, entry) ∷ raw) acc a = load_entries-AreEntries raw _ (
      if-both (AreEntries h) (valid_name h name && parses (parse_cron entry.cron))
        (λ both.
          let (valid, readable) =
            and_split (valid_name h name) (parses (parse_cron entry.cron)) both in
          insert-AreEntries name entry acc (valid, parsed (parse_cron entry.cron) readable) a)
        (λ _. a))
    where
      parsed :
          (found : Outcome Error Schedule) → parses found ≡ true → (s : Schedule) × (found ≡ ok s)
      parsed (ok s) e = (s, refl)
      parsed (err _) e = absurd (cc)
      parsed panic e = absurd (cc)
