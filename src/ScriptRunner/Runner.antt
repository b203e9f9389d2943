-- ===== src/ScriptRunner/Runner.antt =====
-- internal/scriptrunner/runner.go: the runs of the scripts. A run state is shared by the map of the
-- runs and by the goroutine that waits for the process, so it stands in a store under a number, and
-- both hold the number. Times are numbers of nanoseconds since 1970.
pub mod Schedules
pub mod Tracked
pub mod Stop
pub mod Restart
pub mod Steps
pub mod Sound
pub mod Untouched
pub mod Wake
pub mod Overdue
mod Tests
use yyb_go.Prelude.{
  ℕ, suc, ◌+◌, ◌-◌, ◌≡◌, Bool, true, false, not, ◌&&◌, ◌||◌, List, [], ◌∷◌, ◌++◌, Option, none,
  some, ltb, leb, ◌==◌, if◌then◌else◌, length, take, drop, map, codes,
}
use yyb_go.Prelude.Map.{lookup, insert, nat_eq}
use yyb_go.Prelude.Outcome.{Outcome, ok, err}
use yyb_go.Prelude.Text.{Text, text_eq, text_eq_instance, ℤ, pos, negsuc}
use yyb_go.ScriptRunner.Cron.Next.{Calendar}

-- What the host of the program decides: which code points are letters or numbers, and the local time.
pub record Host : Type 0 where
  pub is_letter_or_number : ℕ → Bool
  pub calendar : Calendar

pub record ScheduleEntry : Type 0 where
  pub cron : Text
  pub next_at : ℕ

-- `cancelled` says that the context was cancelled.
pub record RunState : Type 0 where
  pub cancelled : Bool
  pub started_at : ℕ
  pub finished_at : ℕ
  pub finished : Bool
  pub exit_code : ℤ
  pub err_msg : Text

-- `saved` is the file of the schedules, `none` while there is none.
pub record Runner : Type 0 where
  pub runs : List (Text × ℕ)
  pub states : List (ℕ × RunState)
  pub next_id : ℕ
  pub schedules : List (Text × ScheduleEntry)
  pub saved : Option (List (Text × ScheduleEntry))

pub data RunError : Type 0 where
  invalid_name no_script no_python already_running not_running never_fires bad_cron panicked :
      RunError
  io_error : Text → RunError

-- How the process of a run ended.
pub data Ending : Type 0 where
  success : Ending
  exit_error : ℤ → Ending
  other_error : Text → Ending

-- What a call finds on the disk: whether the script and an interpreter are there, and the error that
-- making the log gives, if any.
pub record Disk : Type 0 where
  pub script_exists : Bool
  pub python_found : Bool
  pub log_error : Option Text

name_char : Host → ℕ → Bool
name_char h c = h.is_letter_or_number c || (c == b'.' || (c == b'_' || c == b'-'))

name_chars : Host → Text → Bool
unfolding name_char
name_chars h [] = true
name_chars h (c ∷ s) = name_char h c && name_chars h s

-- `^[\p{L}\p{N}][\p{L}\p{N}._-]{0,127}\.py$`: the last three code points are ".py".
unfoldable pub valid_name : Host → Text → Bool
unfolding name_chars
valid_name h [] = false
valid_name h (c ∷ name) =
    let stem = length name - 3 in
    h.is_letter_or_number c
    && (text_eq (drop stem name) (codes ".py") && (leb stem 127 && name_chars h (take stem name)))

unfoldable pub unfinished : Option RunState → Bool
unfinished none = false
unfinished (some state) = not state.finished

unfoldable pub state_of : Option ℕ → Runner → Option RunState
state_of none r = none
state_of (some id) r = lookup id r.states

-- `state, ok := r.runs[name]; ok && !state.finished`
unfoldable pub is_running : Text → Runner → Bool
unfolding unfinished state_of
is_running name r = unfinished (state_of (lookup name r.runs) r)

unfoldable pub finish_state : ℕ → ℤ → Text → RunState → RunState
finish_state now code message state = record state {
  finished = true;
  finished_at = now;
  exit_code = code;
  err_msg = message;
}

unfoldable pub update_state : ℕ → Option RunState → (RunState → RunState) → Runner → Runner
update_state id none change r = r
update_state id (some state) change r = record r { states = insert id (change state) r.states }

unfoldable pub finish : ℕ → ℕ → ℤ → Text → Runner → Runner
unfolding finish_state update_state
finish id now code message r =
    update_state id (lookup id r.states) (finish_state now code message) r

-- The state of a new run is stored, and the map of the runs points to it.
unfoldable pub register : Text → ℕ → Runner → Runner
register name now r = record r {
  runs = insert name r.next_id r.runs;
  states =
      insert r.next_id
        (record {
          cancelled = false;
          started_at = now;
          finished_at = 0;
          finished = false;
          exit_code = pos 0;
          err_msg = [];
        })
        r.states;
  next_id = suc r.next_id;
}

-- The number of the new run is returned: its goroutine calls `run_ended` with it later.
unfoldable pub start_log : Option Text → ℕ → ℕ → Runner → Runner × Outcome RunError ℕ
start_log none id now r = (r, ok id)
start_log (some message) id now r = (finish id now (negsuc 0) message r, err (io_error message))

unfoldable pub run_args : Host → Disk → Text → ℕ → Runner → Runner × Outcome RunError ℕ
unfolding start_log
run_args h d name now r =
    if not (valid_name h name)
    then (r, err invalid_name)
    else if not d.script_exists
    then (r, err no_script)
    else if not d.python_found
    then (r, err no_python)
    else if is_running name r
    then (r, err already_running)
    else start_log d.log_error r.next_id now (register name now r)

ending_code : Ending → Bool → ℤ × Text
ending_code success cancelled = (pos 0, [])
ending_code _ true = (negsuc 0, codes "已停止")
ending_code (exit_error code) false = (code, [])
ending_code (other_error message) false = (negsuc 0, message)

unfoldable pub end_state : ℕ → Ending → Option RunState → ℕ → Runner → Runner
unfolding ending_code
end_state id ending none now r = r
end_state id ending (some state) now r =
    let (code, message) = ending_code ending state.cancelled in finish id now code message r

-- The goroutine of `RunArgs`, once the process has ended.
unfoldable pub run_ended : ℕ → Ending → ℕ → Runner → Runner
unfolding end_state
run_ended id ending now r = end_state id ending (lookup id r.states) now r

unfoldable pub cancel_run : Option ℕ → Runner → Runner
unfolding update_state
cancel_run none r = r
cancel_run (some id) r =
    update_state id (lookup id r.states) (λ state. record state { cancelled = true }) r

-- The error, if any, stands beside the new state.
unfoldable pub stop_run : Text → Runner → Runner × Option RunError
unfolding cancel_run
stop_run name r =
    if not (is_running name r)
    then (r, some not_running)
    else (cancel_run (lookup name r.runs) r, none)

unfoldable pub stop_names : List Text → Runner → Runner
stop_names [] r = r
stop_names (name ∷ names) r = stop_names names (stop_run name r).0

-- `Stop`, once the scheduler has ended.
unfoldable pub stop : Runner → Runner
unfolding stop_names
stop r = stop_names (map (λ (entry : Text × ℕ). entry.0) r.runs) r
