-- ===== src/ScriptRunner/Runner/Wake.antt =====
-- internal/scriptrunner/runner.go: how long the scheduler sleeps.
use yyb_go.Prelude.{
  ℕ, ◌-◌, ◌*◌, ◌^◌, ◌≤◌, ◌<◌, ◌≡◌, false, ◌&&◌, ◌||◌, List, [], ◌∷◌, some, arith, ltb, ◌==◌,
  if◌then◌else◌, All,
}
use yyb_go.Prelude.Map.{lookup, All-lookup}
use yyb_go.Prelude.Text.{Text, text_eq_instance}
use yyb_go.ScriptRunner.Runner.{Runner, ScheduleEntry}
use yyb_go.ScriptRunner.Runner.Schedules.{earliest, delay, max_delay, next_wake_delay, unix}

-- `first` is set where `t` is, and no later.
abbrev pub IsBefore : ℕ → ℕ → Type 0
IsBefore first t = 0 < t → (0 < first) × (first ≤ t)

-- One round of the loop.
earlier : ℕ → ℕ → ℕ
earlier t found = if ltb 0 t && (found == 0 || ltb t found) then t else found

earlier_lem : (t found : ℕ) → IsBefore (earlier t found) t × IsBefore (earlier t found) found
unfolding earlier
earlier_lem t found = (λ h. (ground arith, ground arith), λ h. (ground arith, ground arith))

IsBefore-trans : (a b c : ℕ) → IsBefore a b → IsBefore b c → IsBefore a c
IsBefore-trans a b c f g h =
    let (set, le) = g h in let (set_first, first_le) = f set in (set_first, omega arith)

earliest-IsBefore :
    (entries : List (Text × ScheduleEntry)) (found : ℕ)
    → IsBefore (earliest entries found) found
      × All (λ (x : Text × ScheduleEntry). IsBefore (earliest entries found) x.1.next_at) entries
unfolding earliest earlier
earliest-IsBefore [] found = (λ h. (h, omega arith), tt)
earliest-IsBefore ((name, entry) ∷ entries) found =
    let (step_t, step_found) = earlier_lem entry.next_at found in
    let (start, rest) = earliest-IsBefore entries (earlier entry.next_at found) in
    let first = earliest entries (earlier entry.next_at found) in
    (
      IsBefore-trans first (earlier entry.next_at found) found start step_found,
      (IsBefore-trans first (earlier entry.next_at found) entry.next_at start step_t, rest),
    )

delay_lem :
    (now first t : ℕ)
    → 0 < first
    → first ≤ t
    → (delay now first ≤ max_delay)
      × (delay now first ≤ t * 10 ^ 9 - now)
      × (t ≤ unix now → delay now first ≡ 0)
unfolding delay
delay_lem now first t set le =
    let some_time : (first == 0) ≡ false = ground arith in
    rw some_time (omega arith, omega arith, λ h. omega arith)

delay_max : (now first : ℕ) → delay now first ≤ max_delay
unfolding delay
delay_max now first = ground arith

-- The scheduler never sleeps longer than 60 seconds, whatever the schedules. It does not sleep beyond the
-- time of a schedule that is set; if such a time has been reached it does not sleep at all.
pub next_wake_delay-in_time :
    (now : ℕ) (r : Runner)
    → (next_wake_delay now r ≤ 60 * 10 ^ 9)
      × ((name : Text) (entry : ScheduleEntry)
          → lookup name r.schedules ≡ some entry
          → 0 < entry.next_at
          → (next_wake_delay now r ≤ entry.next_at * 10 ^ 9 - now)
            × (entry.next_at ≤ unix now → next_wake_delay now r ≡ 0))
unfolding next_wake_delay
next_wake_delay-in_time now r = (
  delay_max now (earliest r.schedules 0),
  λ name entry e h.
      let (set, le) =
        All-lookup (λ (x : Text × ScheduleEntry). IsBefore (earliest r.schedules 0) x.1.next_at)
          name entry r.schedules (earliest-IsBefore r.schedules 0).1 e h in
      let (_, in_time, at_once) = delay_lem now (earliest r.schedules 0) entry.next_at set le in
      (in_time, at_once),
)
