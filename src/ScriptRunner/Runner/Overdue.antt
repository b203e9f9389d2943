-- ===== src/ScriptRunner/Runner/Overdue.antt =====
-- internal/scriptrunner/runner.go: a script that is still running when its schedule fires again.
use yyb_go.Prelude.{
  ℕ, ◌≤◌, ◌<◌, ◌≡◌, ap, ◌∙◌, inl, inr, Bool, true, false, not, List, [], ◌∷◌, Option, none, some,
  arith, ◌==◌, if-both, Bool-cases, All,
}
use yyb_go.Prelude.Map.{lookup, nat_eq, lookup-insert_other}
use yyb_go.Prelude.Outcome.{Outcome, ok, err, panic}
use yyb_go.Prelude.Text.{Text, text_eq, text_eq_iff, text_eq_instance}
use yyb_go.ScriptRunner.Runner.{
  Host, Disk, Runner, RunState, RunError, ScheduleEntry, is_running, valid_name, update_state,
  finish, finish_state, register, start_log, run_args,
}
use yyb_go.ScriptRunner.Runner.Tracked.{is_running_lem}
use yyb_go.ScriptRunner.Runner.Schedules.{
  WriteFault, unix, entry_for, is_due, due_names, move, advance, after_start, run_due,
  save_schedules, save_changed, scheduler_tick, next_wake_delay,
}
use yyb_go.ScriptRunner.Runner.Wake.{next_wake_delay-in_time}

-- The script has the schedule, and the run with this number and this state, which has not finished.
pub record IsBusy (name : Text) (entry : ScheduleEntry) (id : ℕ) (state : RunState) (r : Runner)
    : Type 0 where
  pub scheduled : lookup name r.schedules ≡ some entry
  pub known : lookup name r.runs ≡ some id
  pub stored : lookup id r.states ≡ some state
  pub unfinished : state.finished ≡ false
  pub below : id < r.next_id

module _ (name : Text) (entry : ScheduleEntry) (busy_id : ℕ) (busy_state : RunState) where
  -- Neither a change of another script's run nor of its schedule matters.
  finish-IsBusy :
      (id now : ℕ) (code : _) (message : Text) (r : Runner)
      → (b : IsBusy name entry busy_id busy_state r) → (id == busy_id) ≡ false
      → IsBusy name entry busy_id busy_state (finish id now code message r)
  unfolding finish
  finish-IsBusy id now code message r b differs = go (lookup id r.states)
    where
      go :
          (found : Option RunState)
          → IsBusy name entry busy_id busy_state
              (update_state id found (finish_state now code message) r)
      go none = b
      go (some s) = record {
        scheduled = b.scheduled;
        known = b.known;
        stored = lookup-insert_other id busy_id _ r.states differs ∙ b.stored;
        unfinished = b.unfinished;
        below = b.below;
      }

  start-IsBusy :
      (n : Text) (now : ℕ) (error : Option Text) (r : Runner)
      → text_eq n name ≡ false
      → IsBusy name entry busy_id busy_state r
      → IsBusy name entry busy_id busy_state (start_log error r.next_id now (register n now r)).0
  unfolding register start_log
  start-IsBusy n now error r differs b = go error
    where
      other_id : (r.next_id == busy_id) ≡ false
      other_id = let below = b.below in ground arith

      registered : IsBusy name entry busy_id busy_state (register n now r)
      registered = record {
        scheduled = b.scheduled;
        known = lookup-insert_other n name r.next_id r.runs differs ∙ b.known;
        stored = lookup-insert_other r.next_id busy_id _ r.states other_id ∙ b.stored;
        unfinished = b.unfinished;
        below = let below = b.below in omega arith;
      }

      go :
          (error : Option Text)
          → IsBusy name entry busy_id busy_state
              (start_log error r.next_id now (register n now r)).0
      go none = registered
      go (some message) =
          finish-IsBusy r.next_id now _ message (register n now r) registered other_id

  run_args-IsBusy :
      (h : Host) (d : Disk) (n : Text) (now : ℕ) (r : Runner)
      → text_eq n name ≡ false
      → IsBusy name entry busy_id busy_state r
      → IsBusy name entry busy_id busy_state (run_args h d n now r).0
  unfolding run_args
  run_args-IsBusy h d n now r differs b =
      if-both Still (not (valid_name h n)) (λ _. b)
        (λ _.
          if-both Still (not d.script_exists) (λ _. b)
            (λ _.
              if-both Still (not d.python_found) (λ _. b)
                (λ _.
                  if-both Still (is_running n r) (λ _. b)
                    (λ _. start-IsBusy n now d.log_error r differs b))))
    where
      Still : Runner × Outcome RunError ℕ → Type 0
      Still result = IsBusy name entry busy_id busy_state result.0

  move-IsBusy :
      (n : Text) (e : ScheduleEntry) (later : Outcome RunError ScheduleEntry) (r : Runner)
      → text_eq n name ≡ false
      → IsBusy name entry busy_id busy_state r
      → IsBusy name entry busy_id busy_state (move n e later r).0
  unfolding move
  move-IsBusy n e (ok later) r differs b = record {
    scheduled = lookup-insert_other n name _ r.schedules differs ∙ b.scheduled;
    known = b.known;
    stored = b.stored;
    unfinished = b.unfinished;
    below = b.below;
  }
  move-IsBusy n e (err _) r differs b = b
  move-IsBusy n e panic r differs b = b

  after_start-IsBusy :
      (h : Host) (now : ℕ) (n : Text) (result : Runner × Outcome RunError ℕ)
      → text_eq n name ≡ false
      → IsBusy name entry busy_id busy_state result.0
      → IsBusy name entry busy_id busy_state (after_start h now n result).0
  unfolding after_start advance
  after_start-IsBusy h now n (r, ok _) differs b = go (lookup n r.schedules)
    where
      go :
          (found : Option ScheduleEntry)
          → IsBusy name entry busy_id busy_state (advance h now n found r).0
      go none = b
      go (some e) = move-IsBusy n e (entry_for h e.cron now) r differs b
  after_start-IsBusy h now n (r, err _) differs b = b
  after_start-IsBusy h now n (r, panic) differs b = b

  run_due-IsBusy :
      (h : Host) (disk : Text → Disk) (now : ℕ) (names : List Text) (r : Runner)
      → All (λ (n : Text). text_eq n name ≡ false) names
      → IsBusy name entry busy_id busy_state r
      → IsBusy name entry busy_id busy_state (run_due h disk now names r).0
  unfolding run_due
  run_due-IsBusy h disk now [] r _ b = b
  run_due-IsBusy h disk now (n ∷ names) r (differs, rest) b =
      run_due-IsBusy h disk now names _ rest (
        after_start-IsBusy h now n (run_args h (disk n) n now r) differs
          (run_args-IsBusy h (disk n) n now r differs b))

  due_names_idle :
      (now : ℕ) (entries : List (Text × ScheduleEntry)) (r : Runner)
      → is_running name r ≡ true
      → All (λ (n : Text). text_eq n name ≡ false) (due_names now entries r)
  unfolding due_names
  due_names_idle now [] r busy = tt
  due_names_idle now ((n, e) ∷ entries) r busy =
      if-both (All (λ (n : Text). text_eq n name ≡ false)) (is_due now n e r)
        (λ due. (not_name due, due_names_idle now entries r busy))
        (λ _. due_names_idle now entries r busy)
    where
      idle : is_due now n e r ≡ true → is_running n r ≡ false
      idle due = ground arith

      not_name : is_due now n e r ≡ true → text_eq n name ≡ false
      not_name due = elim (Bool-cases (text_eq n name)) [
        | inr differs ↦ differs
        | inl same ↦
            let busy_n = ap (λ (x : Text). is_running x r) ((text_eq_iff n name).0 same) ∙ busy in
            let idle_n = idle due in absurd (cc)
      ]

  save_changed-IsBusy :
      (write_error : Option WriteFault) (result : Runner × Bool)
      → IsBusy name entry busy_id busy_state result.0
      → IsBusy name entry busy_id busy_state (save_changed write_error result)
  unfolding save_changed save_schedules
  save_changed-IsBusy write_error (r, false) b = b
  save_changed-IsBusy none (r, true) b = record {
    scheduled = b.scheduled;
    known = b.known;
    stored = b.stored;
    unfinished = b.unfinished;
    below = b.below;
  }
  save_changed-IsBusy (some (message, left)) (r, true) b = record {
    scheduled = b.scheduled;
    known = b.known;
    stored = b.stored;
    unfinished = b.unfinished;
    below = b.below;
  }

-- While a script runs beyond its next time, a round of the scheduler leaves its run, with the run's
-- state, and its schedule as they were, and asks for the next round without any delay.
pub scheduler_tick-spins :
    (h : Host) (disk : Text → Disk) (write_error : Option WriteFault) (now later : ℕ) (name : Text)
    (entry : ScheduleEntry) (id : ℕ) (state : RunState) (r : Runner)
    → IsBusy name entry id state r
    → 0 < entry.next_at
    → entry.next_at ≤ unix later
    → (lookup name (scheduler_tick h disk write_error now r).schedules ≡ some entry)
      × (lookup name (scheduler_tick h disk write_error now r).runs ≡ some id)
      × (lookup id (scheduler_tick h disk write_error now r).states ≡ some state)
      × (next_wake_delay later (scheduler_tick h disk write_error now r) ≡ 0)
unfolding scheduler_tick
scheduler_tick-spins h disk write_error now later name entry id state r b set due =
    let running = is_running_lem name id state r b.known b.stored b.unfinished in
    let still =
      save_changed-IsBusy name entry id state write_error
        (run_due h disk now (due_names now r.schedules r) r)
        (run_due-IsBusy name entry id state h disk now (due_names now r.schedules r) r
          (due_names_idle name entry id state now r.schedules r running) b) in
    let (_, at_once) =
      (next_wake_delay-in_time later (scheduler_tick h disk write_error now r)).1 name entry
        still.scheduled set in
    (still.scheduled, still.known, still.stored, at_once due)
