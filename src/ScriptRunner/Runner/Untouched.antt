-- ===== src/ScriptRunner/Runner/Untouched.antt =====
-- internal/scriptrunner/runner.go: the schedules under the calls about runs.
use yyb_go.Prelude.{ℕ, ◌≡◌, refl, ◌∙◌, not, List, [], ◌∷◌, Option, none, some, if-both}
use yyb_go.Prelude.Map.{nat_eq, lookup}
use yyb_go.Prelude.Outcome.{Outcome}
use yyb_go.Prelude.Text.{Text, text_eq_instance}
use yyb_go.ScriptRunner.Runner.{
  Host, Disk, Runner, RunError, Ending, valid_name, is_running, cancel_run, RunState, update_state,
  finish, register, start_log, run_args, end_state, run_ended, stop_run, stop_names,
}

update_state-schedules :
    (id : ℕ) (found : Option RunState) (change : RunState → RunState) (r : Runner)
    → (update_state id found change r).schedules ≡ r.schedules
unfolding update_state
update_state-schedules id none change r = refl
update_state-schedules id (some state) change r = refl

pub run_ended-schedules :
    (id : ℕ) (ending : Ending) (now : ℕ) (r : Runner)
    → (run_ended id ending now r).schedules ≡ r.schedules
unfolding run_ended end_state finish
run_ended-schedules id ending now r = go (lookup id r.states)
  where
    go : (found : Option RunState) → (end_state id ending found now r).schedules ≡ r.schedules
    go none = refl
    go (some state) = update_state-schedules id (lookup id r.states) _ r

pub stop_run-schedules : (name : Text) (r : Runner) → (stop_run name r).0.schedules ≡ r.schedules
unfolding stop_run cancel_run
stop_run-schedules name r =
    if-both (λ (result : Runner × Option RunError). result.0.schedules ≡ r.schedules)
      (not (is_running name r)) (λ _. refl) (λ _. go (lookup name r.runs))
  where
    go : (found : Option ℕ) → (cancel_run found r).schedules ≡ r.schedules
    go none = refl
    go (some id) = update_state-schedules id (lookup id r.states) _ r

pub stop_names-schedules :
    (names : List Text) (r : Runner) → (stop_names names r).schedules ≡ r.schedules
unfolding stop_names
stop_names-schedules [] r = refl
stop_names-schedules (name ∷ names) r =
    stop_names-schedules names (stop_run name r).0 ∙ stop_run-schedules name r

pub run_args-schedules :
    (h : Host) (d : Disk) (name : Text) (now : ℕ) (r : Runner)
    → (run_args h d name now r).0.schedules ≡ r.schedules
unfolding run_args start_log register finish
run_args-schedules h d name now r =
    if-both Same (not (valid_name h name)) (λ _. refl)
      (λ _.
        if-both Same (not d.script_exists) (λ _. refl)
          (λ _.
            if-both Same (not d.python_found) (λ _. refl)
              (λ _. if-both Same (is_running name r) (λ _. refl) (λ _. go d.log_error))))
  where
    Same : Runner × Outcome RunError ℕ → Type 0
    Same result = result.0.schedules ≡ r.schedules

    go : (error : Option Text) → Same (start_log error r.next_id now (register name now r))
    go none = refl
    go (some message) =
        update_state-schedules r.next_id (lookup r.next_id (register name now r).states) _
          (register name now r)
