-- ===== src/ScriptRunner/Cron/Next.antt =====
-- internal/scriptrunner/cron.go: `matchDay` and `next`.
use yyb_go.Prelude.{
  ℕ, zero, suc, ◌+◌, ◌*◌, ◌/◌, ◌%◌, ◌≤◌, ◌<◌, ◌≡◌, ◌⊎◌, inl, inr, Bool, true, false, ◌&&◌, ◌||◌,
  Option, none, some, arith, ltb, if◌then◌else◌, Bool-cases,
}
use yyb_go.ScriptRunner.Cron.{Schedule, match_field, restricted}

-- The calendar fields of a time in the local zone, as `time.Time` gives them.
pub record Calendar : Type 0 where
  pub month : ℕ → ℕ
  pub day : ℕ → ℕ
  pub hour : ℕ → ℕ
  pub minute : ℕ → ℕ
  pub weekday : ℕ → ℕ

-- Whole minutes are sixty seconds apart.
next_minute : (t v : ℕ) → t % 60 ≡ zero → v % 60 ≡ zero → t ≤ v → (t ≡ v) ⊎ (t + 60 ≤ v)
next_minute t v gt gv h = elim (Bool-cases (ltb v (t + 60))) [
  | inl near ↦ inl (ground arith)
  | inr far ↦ inr (ground arith)
]

abbrev pub window : ℕ
window = 366 * 24 * 3600

module _ (c : Calendar) (s : Schedule) where
  unfoldable pub match_day : ℕ → Bool
  match_day t =
      let day_ok = match_field s.days (c.day t) in
      let weekday_ok = match_field s.weekdays (c.weekday t) in
      if restricted s.days && restricted s.weekdays
      then day_ok || weekday_ok
      else day_ok && weekday_ok

  -- The test of the loop.
  unfoldable pub fires : ℕ → Bool
  unfolding match_day
  fires t =
      match_field s.months (c.month t)
      && (match_day t && (match_field s.hours (c.hour t) && match_field s.minutes (c.minute t)))

  -- `for !t.After(limit) { … t = t.Add(time.Minute) }`; `none` is the zero time.
  unfoldable pub next_loop : ℕ → ℕ → ℕ → Option ℕ
  next_loop zero limit t = none
  next_loop (suc fuel) limit t =
      let later = next_loop fuel limit (t + 60) in
      if ltb limit t then none else if fires t then some t else later

  -- There are 366 * 24 * 60 minutes in the window, and one more round to leave it.
  unfoldable pub next : ℕ → Option ℕ
  next after = next_loop (366 * 24 * 60 + 1) (after + window) ((after / 60 + 1) * 60)

  -- No minute of the loop's grid from `t` on, up to but not at `u`, fires.
  abbrev pub Quiet : ℕ → ℕ → Type 0
  Quiet t u = (v : ℕ) → t ≤ v → v < u → v % 60 ≡ 0 → fires v ≡ false

  -- What the loop may return: the first firing minute of the window, or none if there is none.
  abbrev pub IsFirst : ℕ → ℕ → Option ℕ → Type 0
  IsFirst t limit none = (v : ℕ) → t ≤ v → v ≤ limit → v % 60 ≡ 0 → fires v ≡ false
  IsFirst t limit (some u) = (t ≤ u) × (u ≤ limit) × (u % 60 ≡ 0) × (fires u ≡ true) × Quiet t u

  later-IsFirst :
      (t limit : ℕ) (r : Option ℕ)
      → t % 60 ≡ 0
      → fires t ≡ false
      → IsFirst (t + 60) limit r
      → IsFirst t limit r
  later-IsFirst t limit none grid e h = λ v lo hi g. elim (next_minute t v grid g lo) [
    | inl same ↦ rw (← same) e
    | inr far ↦ h v far hi g
  ]
  later-IsFirst t limit (some u) grid e (lo, hi, g, f, quiet) = (
    omega arith,
    hi,
    g,
    f,
    λ v lo_v hi_v g_v. elim (next_minute t v grid g_v lo_v) [
      | inl same ↦ rw (← same) e
      | inr far ↦ quiet v far hi_v g_v
    ],
  )

  next_loop-IsFirst :
      (fuel limit t : ℕ)
      → limit < t + 60 * fuel
      → t % 60 ≡ 0
      → IsFirst t limit (next_loop fuel limit t)
  unfolding next_loop
  next_loop-IsFirst zero limit t h grid = λ v lo hi _. absurd (omega arith)
  next_loop-IsFirst (suc fuel) limit t h grid = elim (Bool-cases (ltb limit t)) [
    | inl over ↦ rw (over, next_loop) (λ v lo hi _. absurd (ground arith))
    | inr inside ↦ elim (Bool-cases (fires t)) [
      | inl now ↦
          rw (inside, next_loop, now)
            (omega arith, ground arith, grid, now, λ v lo hi _. absurd (omega arith))
      | inr quiet ↦
          rw (inside, next_loop, quiet)
            (later-IsFirst t limit (next_loop fuel limit (t + 60)) grid quiet
              (next_loop-IsFirst fuel limit (t + 60) (omega arith) (omega arith)))
    ]
  ]

  -- A start that is moved back over no whole minute changes nothing.
  earlier-IsFirst :
      (a t limit : ℕ) (r : Option ℕ)
      → a ≤ t
      → ((v : ℕ) → a ≤ v → v % 60 ≡ 0 → t ≤ v)
      → IsFirst t limit r
      → IsFirst a limit r
  earlier-IsFirst a t limit none h grid first = λ v lo hi g. first v (grid v lo g) hi g
  earlier-IsFirst a t limit (some u) h grid (lo, hi, g, f, quiet) =
      (omega arith, hi, g, f, λ v lo_v hi_v g_v. quiet v (grid v lo_v g_v) hi_v g_v)

  -- The loop's start and fuel, for a window of any number of minutes.
  from-IsFirst :
      (after minutes : ℕ)
      → IsFirst
          (after + 1)
          (after + minutes * 60)
          (next_loop (minutes + 1) (after + minutes * 60) ((after / 60 + 1) * 60))
  from-IsFirst after minutes =
      earlier-IsFirst (after + 1) ((after / 60 + 1) * 60) (after + minutes * 60)
        (next_loop (minutes + 1) (after + minutes * 60) ((after / 60 + 1) * 60)) (omega arith)
        (λ v lo g. omega arith)
        (next_loop-IsFirst (minutes + 1) (after + minutes * 60) ((after / 60 + 1) * 60)
          (omega arith) (omega arith))

  -- `next` returns the first whole minute behind `after` at which the schedule fires, among those up
  -- to 366 days later; it returns the zero time only if the schedule fires at none of them.
  pub next-IsFirst : (after : ℕ) → IsFirst (after + 1) (after + window) (next after)
  unfolding next
  next-IsFirst after = from-IsFirst after (366 * 24 * 60)
