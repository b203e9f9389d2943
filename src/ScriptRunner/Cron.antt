-- ===== src/ScriptRunner/Cron.antt =====
-- internal/scriptrunner/cron.go: five-field cron expressions. A time is a number of seconds since
-- 1970-01-01; its calendar fields in the local zone are a parameter of `Next`.
pub mod Parse
pub mod Next
mod Tests
use yyb_go.Prelude.{
  ℕ, ◌+◌, ◌-◌, ◌%◌, Bool, true, false, not, ◌&&◌, ◌||◌, List, [], ◌∷◌, ◌++◌, Option, none, some,
  ltb, leb, ◌==◌, if◌then◌else◌,
}
use yyb_go.Prelude.Outcome.{Outcome, ok, err, ◌>>=◌}
use yyb_go.Prelude.Text.{Text, fields, join, split, cut, text_eq, ℤ, pos, negsuc, atoi}

pub record CronStep : Type 0 where
  pub start : ℕ
  pub end : ℕ
  pub step : ℕ

pub record CronField : Type 0 where
  pub min : ℕ
  pub max : ℕ
  pub steps : List CronStep

pub record Schedule : Type 0 where
  pub raw : Text
  pub minutes : CronField
  pub hours : CronField
  pub days : CronField
  pub months : CronField
  pub weekdays : CronField

pub data Error : Type 0 where
  wrong_part_count empty_part bad_step bad_range bad_value out_of_range : Error

-- The part before a slash, and the step behind it; with no slash the step is 1.
parse_step : Text → Outcome Error (Text × ℕ)
parse_step part = elim (cut part b'/') [
  | none ↦ ok (part, 1)
  | some (base, behind) ↦ elim (atoi behind) [
    | some (pos n) ↦ if n == 0 then err bad_step else ok (base, n)
    | some (negsuc n) ↦ err bad_step
    | none ↦ err bad_step
  ]
]

abbrev or_fail : Option ℤ → Error → Outcome Error ℤ
or_fail none e = err e
or_fail (some n) e = ok n

-- `*` and `?` are the whole range; else two numbers with a dash between them, or one number.
parse_base : Text → ℕ → ℕ → Outcome Error (ℤ × ℤ)
parse_base base min max =
    if text_eq base (b'*' ∷ []) || text_eq base (b'?' ∷ [])
    then ok (pos min, pos max)
    else (elim (cut base b'-') [
      | some (lo, hi) ↦ do
        start ← or_fail (atoi lo) bad_range
        end ← or_fail (atoi hi) bad_range
        ok (start, end)
      | none ↦ do value ← or_fail (atoi base) bad_value; ok (value, value)
    ])

-- `if start < min || end > max || start > end { … }`; what is left is not negative.
check_range : ℕ → ℕ → ℕ → ℤ → ℤ → Outcome Error CronStep
check_range min max step (pos start) (pos end) =
    if ltb start min || (ltb max end || ltb end start)
    then err out_of_range
    else ok (record { start = start; end = end; step = step })
check_range min max step (negsuc start) end = err out_of_range
check_range min max step (pos start) (negsuc end) = err out_of_range

parse_part : ℕ → ℕ → Text → Outcome Error CronStep
unfolding parse_step parse_base check_range
parse_part min max [] = err empty_part
parse_part min max (c ∷ part) = do
  (base, step) ← parse_step (c ∷ part)
  (start, end) ← parse_base base min max
  check_range min max step start end

parse_parts : ℕ → ℕ → List Text → List CronStep → Outcome Error (List CronStep)
parse_parts min max [] steps = ok steps
parse_parts min max (part ∷ parts) steps = do
  step ← parse_part min max part
  parse_parts min max parts (steps ++ step ∷ [])

unfoldable pub parse_cron_field : Text → ℕ → ℕ → Outcome Error CronField
unfolding parse_parts parse_part
parse_cron_field raw min max = do
  steps ← parse_parts min max (split raw b',') []
  ok (record { min = min; max = max; steps = steps })

parse_five : Text → Text → Text → Text → Text → Outcome Error Schedule
parse_five m h d mo w = do
  minutes ← parse_cron_field m 0 59
  hours ← parse_cron_field h 0 23
  days ← parse_cron_field d 1 31
  months ← parse_cron_field mo 1 12
  weekdays ← parse_cron_field w 0 6
  ok (record {
    raw = join (m ∷ h ∷ d ∷ mo ∷ w ∷ []) (b' ' ∷ []);
    minutes = minutes;
    hours = hours;
    days = days;
    months = months;
    weekdays = weekdays;
  })

parse_fields : List Text → Outcome Error Schedule
unfolding parse_five
parse_fields (m ∷ h ∷ d ∷ mo ∷ w ∷ []) = parse_five m h d mo w
parse_fields _ = err wrong_part_count

unfoldable pub parse_cron : Text → Outcome Error Schedule
unfolding parse_fields
parse_cron raw = parse_fields (fields raw)

-- `value >= step.start && value <= step.end && (value-step.start)%step.step == 0`
unfoldable pub match_step : CronStep → ℕ → Bool
match_step s value = leb s.start value && (leb value s.end && (value - s.start) % s.step == 0)

unfoldable pub match_steps : List CronStep → ℕ → Bool
match_steps [] value = false
match_steps (s ∷ steps) value = match_step s value || match_steps steps value

unfoldable pub match_field : CronField → ℕ → Bool
unfolding match_steps
match_field f value = match_steps f.steps value

restricted_steps : ℕ → ℕ → List CronStep → Bool
restricted_steps min max (s ∷ []) =
    not (s.start == min) || (not (s.end == max) || not (s.step == 1))
restricted_steps min max _ = true

unfoldable pub restricted : CronField → Bool
unfolding restricted_steps
restricted f = restricted_steps f.min f.max f.steps
