-- ===== src/ScriptRunner/Runner/Tracked.antt =====
-- internal/scriptrunner/runner.go: the map of the runs and the store of their states.
use yyb_go.Prelude.{
  ℕ, ◌<◌, ◌≡◌, refl, ap, ◌∙◌, subst, inl, inr, true, false, not, List, [], ◌∷◌, Option, none, some,
  arith, if-both, Bool-cases,
}
use yyb_go.Prelude.Map.{
  lookup, insert, nat_eq, lookup-insert_cases, lookup-insert_other, lookup-insert_self,
}
use yyb_go.Prelude.Outcome.{Outcome}
use yyb_go.Prelude.Text.{Text, ℤ, text_eq, text_eq_iff, text_eq_instance}
use yyb_go.ScriptRunner.Runner.{
  RunError, Ending, Host, Disk, Runner, RunState, valid_name, is_running, update_state, finish,
  finish_state, register, start_log, run_args, end_state, run_ended, cancel_run, stop_run,
  stop_names,
}

-- Every number is below the next one, every run that has not finished stands in the map, and no two
-- names of the map have the same run.
pub record IsTracked (r : Runner) : Type 0 where
  pub runs_below : (name : Text) (id : ℕ) → lookup name r.runs ≡ some id → id < r.next_id
  pub states_below : (id : ℕ) (s : RunState) → lookup id r.states ≡ some s → id < r.next_id
  pub tracked :
      (id : ℕ) (s : RunState)
      → lookup id r.states ≡ some s
      → s.finished ≡ false
      → (name : Text) × (lookup name r.runs ≡ some id)
  pub one_name :
      (name other : Text) (id : ℕ)
      → lookup name r.runs ≡ some id
      → lookup other r.runs ≡ some id
      → name ≡ other

-- A change that does not take a finished run up again.
abbrev pub KeepsFinished : (RunState → RunState) → Type 0
KeepsFinished change = (s : RunState) → (change s).finished ≡ false → s.finished ≡ false

update_state-IsTracked :
    (id : ℕ) (change : RunState → RunState) (r : Runner)
    → KeepsFinished change
    → IsTracked r
    → (found : Option RunState) → lookup id r.states ≡ found
    → IsTracked (update_state id found change r)
unfolding update_state
update_state-IsTracked id change r keeps t none e = t
update_state-IsTracked id change r keeps t (some s) e = record {
  runs_below = t.runs_below;
  states_below = λ j u h. elim (lookup-insert_cases id j (change s) u r.states h) [
    | inl (same, _) ↦ subst (λ (i : ℕ). i < r.next_id) same (t.states_below id s e)
    | inr (_, before) ↦ t.states_below j u before
  ];
  tracked = λ j u h running. elim (lookup-insert_cases id j (change s) u r.states h) [
    | inl (same, now_is) ↦
        let (name, at_id) = t.tracked id s e (keeps s (ap (λ x. x.finished) now_is ∙ running)) in
        (name, at_id ∙ ap some same)
    | inr (_, before) ↦ t.tracked j u before running
  ];
  one_name = t.one_name;
}

finish-IsTracked :
    (id now : ℕ) (code : ℤ) (message : Text) (r : Runner)
    → IsTracked r
    → IsTracked (finish id now code message r)
unfolding finish finish_state
finish-IsTracked id now code message r t =
    update_state-IsTracked id (finish_state now code message) r (λ s h. absurd (cc)) t
      (lookup id r.states) refl

cancel_run-IsTracked :
    (found : Option ℕ) (r : Runner) → IsTracked r → IsTracked (cancel_run found r)
unfolding cancel_run
cancel_run-IsTracked none r t = t
cancel_run-IsTracked (some id) r t =
    update_state-IsTracked id (λ s. record s { cancelled = true }) r (λ s h. h) t
      (lookup id r.states) refl

pub run_ended-IsTracked :
    (id : ℕ) (ending : Ending) (now : ℕ) (r : Runner)
    → IsTracked r
    → IsTracked (run_ended id ending now r)
unfolding run_ended end_state
run_ended-IsTracked id ending now r t = go (lookup id r.states)
  where
    go : (found : Option RunState) → IsTracked (end_state id ending found now r)
    go none = t
    go (some s) = finish-IsTracked id now _ _ r t

pub stop_run-IsTracked : (name : Text) (r : Runner) → IsTracked r → IsTracked (stop_run name r).0
unfolding stop_run
stop_run-IsTracked name r t = elim (Bool-cases (is_running name r)) [
  | inl running ↦ rw (stop_run, running) (cancel_run-IsTracked (lookup name r.runs) r t)
  | inr idle ↦ rw (stop_run, idle) t
]

-- A running script is found as such through the map.
pub is_running_lem :
    (name : Text) (id : ℕ) (s : RunState) (r : Runner)
    → lookup name r.runs ≡ some id
    → lookup id r.states ≡ some s
    → s.finished ≡ false
    → is_running name r ≡ true
unfolding is_running
is_running_lem name id s r e f h = rw (is_running, e, f, h) refl

register-IsTracked :
    (name : Text) (now : ℕ) (r : Runner)
    → is_running name r ≡ false
    → IsTracked r
    → IsTracked (register name now r)
unfolding register
register-IsTracked name now r idle t = record {
  runs_below = λ owner j h. elim (lookup-insert_cases name owner r.next_id j r.runs h) [
    | inl (_, same) ↦ omega arith
    | inr (_, before) ↦ let below = t.runs_below owner j before in omega arith
  ];
  states_below = λ j u h. elim (lookup-insert_cases r.next_id j _ u r.states h) [
    | inl (same, _) ↦ omega arith
    | inr (_, before) ↦ let below = t.states_below j u before in omega arith
  ];
  tracked = λ j u h running. elim (lookup-insert_cases r.next_id j _ u r.states h) [
    | inl (same, _) ↦ (name, lookup-insert_self name r.next_id r.runs ∙ ap some same)
    | inr (_, before) ↦
        let (owner, at_j) = t.tracked j u before running in
        (owner, still_there owner j u before running at_j)
  ];
  one_name = λ a b j at_a at_b. elim (lookup-insert_cases name a r.next_id j r.runs at_a) [
    | inl (name_a, new_a) ↦ elim (lookup-insert_cases name b r.next_id j r.runs at_b) [
      | inl (name_b, _) ↦ cc
      | inr (_, before) ↦ let below = t.runs_below b j before in absurd (omega (arith, new_a))
    ]
    | inr (_, before_a) ↦ elim (lookup-insert_cases name b r.next_id j r.runs at_b) [
      | inl (_, new_b) ↦ let below = t.runs_below a j before_a in absurd (omega (arith, new_b))
      | inr (_, before_b) ↦ t.one_name a b j before_a before_b
    ]
  ];
}
  where
    still_there :
        (owner : Text) (j : ℕ) (u : RunState)
        → lookup j r.states ≡ some u
        → u.finished ≡ false
        → lookup owner r.runs ≡ some j
        → lookup owner (insert name r.next_id r.runs) ≡ some j
    still_there owner j u before running at_j = elim (Bool-cases (text_eq name owner)) [
      | inl same ↦
          let at_name : lookup name r.runs ≡ some j =
            ap (λ n. lookup n r.runs) ((text_eq_iff name owner).0 same) ∙ at_j in
          let busy = is_running_lem name j u r at_name before running in absurd (cc)
      | inr differs ↦ lookup-insert_other name owner r.next_id r.runs differs ∙ at_j
    ]

start_log-IsTracked :
    (error : Option Text) (id now : ℕ) (r : Runner)
    → IsTracked r
    → IsTracked (start_log error id now r).0
unfolding start_log
start_log-IsTracked none id now r t = t
start_log-IsTracked (some message) id now r t = finish-IsTracked id now _ message r t

pub run_args-IsTracked :
    (h : Host) (d : Disk) (name : Text) (now : ℕ) (r : Runner)
    → IsTracked r
    → IsTracked (run_args h d name now r).0
unfolding run_args
run_args-IsTracked h d name now r t =
    if-both Good (not (valid_name h name)) (λ _. t)
      (λ _.
        if-both Good (not d.script_exists) (λ _. t)
          (λ _.
            if-both Good (not d.python_found) (λ _. t)
              (λ _.
                if-both Good (is_running name r) (λ _. t)
                  (λ idle.
                    start_log-IsTracked d.log_error r.next_id now (register name now r)
                      (register-IsTracked name now r idle t)))))
  where
    Good : Runner × Outcome RunError ℕ → Type 0
    Good result = IsTracked result.0

pub stop_names-IsTracked :
    (names : List Text) (r : Runner) → IsTracked r → IsTracked (stop_names names r)
unfolding stop_names
stop_names-IsTracked [] r t = t
stop_names-IsTracked (name ∷ names) r t =
    stop_names-IsTracked names (stop_run name r).0 (stop_run-IsTracked name r t)
