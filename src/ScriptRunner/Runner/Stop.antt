-- ===== src/ScriptRunner/Runner/Stop.antt =====
-- internal/scriptrunner/runner.go: `StopRun` and `Stop`, seen from one run.
use yyb_go.Prelude.{
  ℕ, ◌≡◌, refl, ap, sym, ◌∙◌, ◌⊎◌, inl, inr, true, not, List, [], ◌∷◌, Option, none, some, arith,
  map, Bool-cases, Option-cases, if-both,
}
use mathlib.Core.List.{Memᴰ}
use mathlib.Core.List.Memᴰ
use yyb_go.Prelude.Map.{lookup, nat_eq, lookup-insert_cases, lookup-insert_self}
use yyb_go.Prelude.Text.{Text, text_eq, text_eq_iff, text_eq_instance}
use yyb_go.ScriptRunner.Runner.{
  Runner, RunState, RunError, is_running, update_state, cancel_run, stop_run, stop_names, stop,
}
use yyb_go.ScriptRunner.Runner.Tracked.{IsTracked, is_running_lem}

-- The run has finished or its context is cancelled.
abbrev pub IsStopped : RunState → Type 0
IsStopped s = (s.finished ≡ true) ⊎ (s.cancelled ≡ true)

abbrev pub IsDone : ℕ → Runner → Type 0
IsDone id r = (s : RunState) → lookup id r.states ≡ some s → IsStopped s

cancel_run-IsDone :
    (found : Option ℕ) (id : ℕ) (r : Runner) → IsDone id r → IsDone id (cancel_run found r)
unfolding cancel_run update_state
cancel_run-IsDone none id r done = done
cancel_run-IsDone (some other_id) id r done = go (lookup other_id r.states)
  where
    go :
        (found : Option RunState)
        → IsDone id (update_state other_id found (λ state. record state { cancelled = true }) r)
    go none = done
    go (some state) = λ s h.
        elim (lookup-insert_cases other_id id (record state { cancelled = true }) s r.states h) [
          | inl (_, same) ↦ inr (sym (ap (λ x. x.cancelled) same))
          | inr (_, before) ↦ done s before
        ]

stop_run-IsDone : (name : Text) (id : ℕ) (r : Runner) → IsDone id r → IsDone id (stop_run name r).0
unfolding stop_run
stop_run-IsDone name id r done =
    if-both (λ (result : Runner × Option RunError). IsDone id result.0) (not (is_running name r))
      (λ _. done) (λ _. cancel_run-IsDone (lookup name r.runs) id r done)

cancel_run_self : (id : ℕ) (r : Runner) → IsDone id (cancel_run (some id) r)
unfolding cancel_run update_state
cancel_run_self id r = go (lookup id r.states) refl
  where
    go :
        (found : Option RunState)
        → lookup id r.states ≡ found
        → IsDone id (update_state id found (λ state. record state { cancelled = true }) r)
    go none missing = λ s h. absurd (cc)
    go (some state) _ = λ s h.
        let stored : some (record state { cancelled = true }) ≡ some s =
          sym (lookup-insert_self id (record state { cancelled = true }) r.states) ∙ h in
        let same : record state { cancelled = true } ≡ s = cc in
        inr (sym (ap (λ x. x.cancelled) same))

-- A run that the map knows is stopped by its name.
stop_run_self :
    (name : Text) (id : ℕ) (r : Runner)
    → lookup name r.runs ≡ some id
    → IsDone id (stop_run name r).0
unfolding stop_run
stop_run_self name id r e =
    if-both (λ (result : Runner × Option RunError). IsDone id result.0) (not (is_running name r))
      (λ idle s h. elim (Bool-cases s.finished) [
        | inl finished ↦ inl finished
        | inr running ↦ let busy = is_running_lem name id s r e h running in absurd (ground arith)
      ])
      (λ _. rw e (cancel_run_self id r))

cancel_run-runs : (found : Option ℕ) (r : Runner) → (cancel_run found r).runs ≡ r.runs
unfolding cancel_run update_state
cancel_run-runs none r = refl
cancel_run-runs (some id) r = go (lookup id r.states)
  where
    go :
        (found : Option RunState)
        → (update_state id found (λ state. record state { cancelled = true }) r).runs ≡ r.runs
    go none = refl
    go (some state) = refl

stop_run-runs : (name : Text) (r : Runner) → (stop_run name r).0.runs ≡ r.runs
unfolding stop_run
stop_run-runs name r =
    if-both (λ (result : Runner × Option RunError). result.0.runs ≡ r.runs)
      (not (is_running name r)) (λ _. refl) (λ _. cancel_run-runs (lookup name r.runs) r)

stop_names-IsDone :
    (names : List Text) (id : ℕ) (r : Runner) → IsDone id r → IsDone id (stop_names names r)
unfolding stop_names
stop_names-IsDone [] id r done = done
stop_names-IsDone (name ∷ names) id r done =
    stop_names-IsDone names id (stop_run name r).0 (stop_run-IsDone name id r done)

stop_names_all :
    (names : List Text) (name : Text) (id : ℕ) (r : Runner)
    → Memᴰ name names
    → lookup name r.runs ≡ some id
    → IsDone id (stop_names names r)
unfolding stop_names
stop_names_all [] name id r mem e = absurd (Memᴰ.not-nil mem)
stop_names_all (n ∷ names) name id r (Memᴰ.head same) e =
    stop_names-IsDone names id (stop_run n r).0
      (stop_run_self n id r (ap (λ x. lookup x r.runs) (sym same) ∙ e))
stop_names_all (n ∷ names) name id r (Memᴰ.tail mem) e =
    stop_names_all names name id (stop_run n r).0 mem
      (ap (λ m. lookup name m) (stop_run-runs n r) ∙ e)

Memᴰ-lookup :
    (name : Text) (id : ℕ) (runs : List (Text × ℕ))
    → lookup name runs ≡ some id
    → Memᴰ name (map (λ (entry : Text × ℕ). entry.0) runs)
unfolding lookup
Memᴰ-lookup name id [] e = absurd (cc)
Memᴰ-lookup name id ((n, i) ∷ runs) e = elim (Bool-cases (text_eq n name)) [
  | inl same ↦ Memᴰ.head (sym ((text_eq_iff n name).0 same))
  | inr differs ↦ Memᴰ.tail (Memᴰ-lookup name id runs (sym (rw differs refl) ∙ e))
]

stop-IsDone : (r : Runner) (id : ℕ) → IsTracked r → IsDone id (stop r)
unfolding stop
stop-IsDone r id t =
    let names = map (λ (entry : Text × ℕ). entry.0) r.runs in
    elim (Option-cases (lookup id r.states)) [
      | inl missing ↦ stop_names-IsDone names id r (λ s h. absurd (cc))
      | inr (found, at_id) ↦ elim (Bool-cases found.finished) [
        | inl finished ↦
            stop_names-IsDone names id r
              (λ s h. let same : found ≡ s = cc in inl (ap (λ x. x.finished) (sym same) ∙ finished))
        | inr running ↦
            let (name, known) = t.tracked id found at_id running in
            stop_names_all names name id r (Memᴰ-lookup name id r.runs known) known
      ]
    ]

-- After `Stop` each run has finished or has its context cancelled, if before it the runner's map knew
-- the runs that had not finished.
pub stop-IsStopped :
    (r : Runner) (id : ℕ) (s : RunState)
    → IsTracked r
    → lookup id (stop r).states ≡ some s
    → IsStopped s
stop-IsStopped r id s t h = stop-IsDone r id t s h
