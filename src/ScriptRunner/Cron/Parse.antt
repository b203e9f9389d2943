-- ===== src/ScriptRunner/Cron/Parse.antt =====
-- internal/scriptrunner/cron.go: what `parseCron` accepts.
use yyb_go.Prelude.{
  ℕ, ◌+◌, ◌≤◌, ◌<◌, ◌≡◌, refl, subst, ap, ◌∙◌, List, [], ◌∷◌, ◌++◌, arith, length, All, All-append,
  length-append,
}
use yyb_go.Prelude.Outcome.{ok, bind-ok, ok-injective}
use yyb_go.Prelude.Text.{
  Text, fields, join, split, split-ne-nil, fields-join, fields-IsWord, ℤ, pos, negsuc,
}
use yyb_go.ScriptRunner.Cron.{
  CronStep, CronField, Schedule, parse_step, parse_base, check_range, parse_part, parse_parts,
  parse_cron_field, parse_five, parse_fields, parse_cron,
}

-- The step fits the field's range and advances.
pub record IsStep (min max : ℕ) (s : CronStep) : Type 0 where
  pub above : min ≤ s.start
  pub ordered : s.start ≤ s.end
  pub below : s.end ≤ max
  pub advances : 0 < s.step

pub record IsField (min max : ℕ) (f : CronField) : Type 0 where
  pub min_kept : f.min ≡ min
  pub max_kept : f.max ≡ max
  pub some_step : 0 < length f.steps
  pub steps_fit : All (IsStep min max) f.steps

parse_step_pos : (part base : Text) (n : ℕ) → parse_step part ≡ ok (base, n) → 0 < n
unfolding parse_step
parse_step_pos part base n e = ground arith

check_range-IsStep :
    (min max step : ℕ) (start end : ℤ) (s : CronStep)
    → 0 < step
    → check_range min max step start end ≡ ok s
    → IsStep min max s
unfolding check_range
check_range-IsStep min max step (pos start) (pos end) s h e = ground arith
check_range-IsStep min max step (negsuc start) (pos end) s h e = absurd (cc)
check_range-IsStep min max step (negsuc start) (negsuc end) s h e = absurd (cc)
check_range-IsStep min max step (pos start) (negsuc end) s h e = absurd (cc)

parse_part-IsStep :
    (min max : ℕ) (part : Text) (s : CronStep) → parse_part min max part ≡ ok s → IsStep min max s
unfolding parse_part
parse_part-IsStep min max [] s e = absurd (cc)
parse_part-IsStep min max (c ∷ part) s e =
    let ((base, step), e₁, found) = bind-ok _ (parse_step (c ∷ part)) e in
    let ((start, end), e₂, _) = bind-ok _ (parse_base base min max) e₁ in
    check_range-IsStep min max step start end s (parse_step_pos (c ∷ part) base step found) e₂

parse_parts-IsStep :
    (min max : ℕ) (parts : List Text) (steps out : List CronStep)
    → All (IsStep min max) steps
    → parse_parts min max parts steps ≡ ok out
    → All (IsStep min max) out × (length out ≡ length steps + length parts)
unfolding parse_parts
parse_parts-IsStep min max [] steps out h e =
    let same = ok-injective e in
    (subst (All (IsStep min max)) same h, omega (arith, ap length same))
parse_parts-IsStep min max (part ∷ parts) steps out h e =
    let (s, e₁, found) = bind-ok _ (parse_part min max part) e in
    let (fit, len) =
      parse_parts-IsStep min max parts (steps ++ s ∷ []) out
        (All-append (IsStep min max) steps (s ∷ []) h (parse_part-IsStep min max part s found, tt))
        e₁ in
    (fit, omega (arith, length-append steps (s ∷ [])))

parse_cron_field-IsField :
    (raw : Text) (min max : ℕ) (f : CronField)
    → parse_cron_field raw min max ≡ ok f
    → IsField min max f
unfolding parse_cron_field
parse_cron_field-IsField raw min max f e =
    let (steps, e₁, found) = bind-ok _ (parse_parts min max (split raw b',') []) e in
    let (fit, len) = parse_parts-IsStep min max (split raw b',') [] steps tt found in
    subst (IsField min max) (ok-injective e₁) (record {
      min_kept = refl;
      max_kept = refl;
      some_step = omega (arith, split-ne-nil raw b',');
      steps_fit = fit;
    })

-- Every field of the schedule is in the range of its calendar field.
pub record IsSchedule (s : Schedule) : Type 0 where
  pub minutes_fit : IsField 0 59 s.minutes
  pub hours_fit : IsField 0 23 s.hours
  pub days_fit : IsField 1 31 s.days
  pub months_fit : IsField 1 12 s.months
  pub weekdays_fit : IsField 0 6 s.weekdays

parse_five-IsSchedule :
    (m h d mo w : Text) (s : Schedule)
    → parse_five m h d mo w ≡ ok s
    → IsSchedule s × (s.raw ≡ join (m ∷ h ∷ d ∷ mo ∷ w ∷ []) (b' ' ∷ []))
unfolding parse_five
parse_five-IsSchedule m h d mo w s e =
    let (minutes, e₁, f₁) = bind-ok _ (parse_cron_field m 0 59) e in
    let (hours, e₂, f₂) = bind-ok _ (parse_cron_field h 0 23) e₁ in
    let (days, e₃, f₃) = bind-ok _ (parse_cron_field d 1 31) e₂ in
    let (months, e₄, f₄) = bind-ok _ (parse_cron_field mo 1 12) e₃ in
    let (weekdays, e₅, f₅) = bind-ok _ (parse_cron_field w 0 6) e₄ in
    subst (λ (x : Schedule). IsSchedule x × (x.raw ≡ join (m ∷ h ∷ d ∷ mo ∷ w ∷ []) (b' ' ∷ [])))
      (ok-injective e₅)
      (
        record {
          minutes_fit = parse_cron_field-IsField m 0 59 minutes f₁;
          hours_fit = parse_cron_field-IsField h 0 23 hours f₂;
          days_fit = parse_cron_field-IsField d 1 31 days f₃;
          months_fit = parse_cron_field-IsField mo 1 12 months f₄;
          weekdays_fit = parse_cron_field-IsField w 0 6 weekdays f₅;
        },
        refl,
      )

-- The text of an accepted schedule is its five fields with spaces between them.
parse_fields-IsSchedule :
    (parts : List Text) (s : Schedule)
    → parse_fields parts ≡ ok s
    → IsSchedule s × (s.raw ≡ join parts (b' ' ∷ []))
unfolding parse_fields
parse_fields-IsSchedule [] s e = absurd (cc)
parse_fields-IsSchedule (_ ∷ []) s e = absurd (cc)
parse_fields-IsSchedule (_ ∷ _ ∷ []) s e = absurd (cc)
parse_fields-IsSchedule (_ ∷ _ ∷ _ ∷ []) s e = absurd (cc)
parse_fields-IsSchedule (_ ∷ _ ∷ _ ∷ _ ∷ []) s e = absurd (cc)
parse_fields-IsSchedule (m ∷ h ∷ d ∷ mo ∷ w ∷ []) s e = parse_five-IsSchedule m h d mo w s e
parse_fields-IsSchedule (_ ∷ _ ∷ _ ∷ _ ∷ _ ∷ _ ∷ _) s e = absurd (cc)

-- A schedule that `parseCron` accepts has, for each of its five fields, at least one step, and every
-- step lies in the range of that field, from its start to its end, and advances by 1 or more.
pub parse_cron-IsSchedule : (raw : Text) (s : Schedule) → parse_cron raw ≡ ok s → IsSchedule s
unfolding parse_cron
parse_cron-IsSchedule raw s e = (parse_fields-IsSchedule (fields raw) s e).0

-- The text that a schedule keeps, `Raw()`, is parsed to the same schedule again.
pub parse_cron-raw : (raw : Text) (s : Schedule) → parse_cron raw ≡ ok s → parse_cron s.raw ≡ ok s
unfolding parse_cron
parse_cron-raw raw s e =
    let kept = (parse_fields-IsSchedule (fields raw) s e).1 in
    ap (λ (x : Text). parse_fields (fields x)) kept
    ∙ ap parse_fields (fields-join (fields raw) (fields-IsWord raw))
    ∙ e
