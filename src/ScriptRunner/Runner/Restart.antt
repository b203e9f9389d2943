-- ===== src/ScriptRunner/Runner/Restart.antt =====
-- internal/scriptrunner/runner.go: what a schedule that was set becomes after a restart.
use yyb_go.Prelude.{
  ℕ, ◌+◌, ◌≡◌, refl, ap, sym, ◌∙◌, subst, inl, inr, true, not, List, [], ◌∷◌, Option, none, some,
  if-both, Bool-cases, All, arith,
}
use yyb_go.Prelude.Map.{
  lookup, insert, IsMap, insert-IsMap, All-insert, lookup-insert, lookup-insert_self,
  lookup-insert_other,
}
use yyb_go.Prelude.Outcome.{Outcome, ok, err, panic}
use yyb_go.Prelude.Text.{Text, text_eq, text_eq_iff, text_eq_instance}
use yyb_go.ScriptRunner.Cron.{Schedule, parse_cron, Error}
use yyb_go.ScriptRunner.Cron.Parse.{parse_cron-raw}
use yyb_go.ScriptRunner.Cron.Next.{next, IsFirst, window, next-IsFirst}
use yyb_go.ScriptRunner.Runner.{Host, Disk, Runner, RunError, ScheduleEntry, valid_name}
use yyb_go.ScriptRunner.Runner.Schedules.{
  WriteFault, unix, save_schedules, timed, entry_of, entry_for, store_entry, set_schedule,
  load_entries, load_schedules, new,
}

-- An entry that the loading of the file would not drop.
abbrev pub IsEntry : Host → Text × ScheduleEntry → Type 0
IsEntry h (name, entry) =
    (valid_name h name ≡ true) × ((s : Schedule) × (parse_cron entry.cron ≡ ok s))

-- One entry for a name, and each could be loaded again.
abbrev pub AreEntries : Host → List (Text × ScheduleEntry) → Type 0
AreEntries h schedules = IsMap schedules × All (IsEntry h) schedules

or_else : Option ScheduleEntry → Option ScheduleEntry → Option ScheduleEntry
or_else none b = b
or_else (some e) b = some e

-- An entry that stands in front of the others is found in their place.
front_lem :
    (n name : Text) (entry : ScheduleEntry) (raw acc : List (Text × ScheduleEntry))
    → lookup n raw ≡ none
    → or_else (lookup name raw) (lookup name (insert n entry acc))
      ≡ or_else (lookup name ((n, entry) ∷ raw)) (lookup name acc)
unfolding or_else lookup
front_lem n name entry raw acc fresh = elim (Bool-cases (text_eq n name)) [
  | inl same ↦
      let gone : lookup name raw ≡ none =
        subst (λ (x : Text). lookup x raw ≡ none) ((text_eq_iff n name).0 same) fresh in
      rw (lookup-insert n name entry acc, same, gone) refl
  | inr differs ↦ rw (lookup-insert n name entry acc, differs) refl
]

load_step :
    (h : Host) (n : Text) (entry : ScheduleEntry) (raw acc : List (Text × ScheduleEntry))
    → IsEntry h (n, entry)
    → load_entries h ((n, entry) ∷ raw) acc ≡ load_entries h raw (insert n entry acc)
unfolding load_entries
load_step h n entry raw acc (valid, (s, parsed)) = rw (load_entries, valid, parsed) refl

load_entries-lookup :
    (h : Host) (raw acc : List (Text × ScheduleEntry))
    → AreEntries h raw
    → (name : Text)
    → lookup name (load_entries h raw acc) ≡ or_else (lookup name raw) (lookup name acc)
unfolding load_entries or_else lookup
load_entries-lookup h [] acc _ name = refl
load_entries-lookup h ((n, entry) ∷ raw) acc ((fresh, distinct), (is_entry, rest)) name =
    ap (λ m. lookup name m) (load_step h n entry raw acc is_entry)
    ∙ load_entries-lookup h raw (insert n entry acc) (distinct, rest) name
    ∙ front_lem n name entry raw acc fresh

-- A runner that starts with the file has the schedules that were saved.
restart_lem :
    (h : Host) (schedules : List (Text × ScheduleEntry))
    → AreEntries h schedules
    → (name : Text)
    → lookup name (load_schedules h (new (some schedules))).schedules ≡ lookup name schedules
unfolding load_schedules or_else lookup
restart_lem h schedules kept name =
    load_entries-lookup h schedules [] kept name ∙ or_else-none (lookup name schedules)
  where
    or_else-none : (o : Option ScheduleEntry) → or_else o none ≡ o
    or_else-none none = refl
    or_else-none (some entry) = refl

-- Where the entry of a cron expression comes from.
pub entry_for_lem :
    (h : Host) (cron : Text) (now : ℕ) (entry : ScheduleEntry)
    → entry_for h cron now ≡ ok entry
    → (s : Schedule) × (parse_cron cron ≡ ok s)
      × (entry.cron ≡ s.raw)
      × (next h.calendar s (unix now) ≡ some entry.next_at)
unfolding entry_for entry_of timed
entry_for_lem h cron now entry e = go (parse_cron cron) refl e
  where
    at :
        (s : Schedule) (t : Option ℕ)
        → timed s t ≡ ok entry
        → (entry.cron ≡ s.raw) × (t ≡ some entry.next_at)
    at s none e = absurd (cc)
    at s (some t) e =
        let same : record { cron = s.raw; next_at = t } ≡ entry = cc in
        (ap (λ x. x.cron) (sym same), ap (λ (x : ScheduleEntry). some x.next_at) same)

    go :
        (parsed : Outcome Error Schedule)
        → parse_cron cron ≡ parsed
        → entry_of h now parsed ≡ ok entry
        → (s : Schedule) × (parse_cron cron ≡ ok s)
          × (entry.cron ≡ s.raw)
          × (next h.calendar s (unix now) ≡ some entry.next_at)
    go (ok s) p e = let (kept, due) = at s (next h.calendar s (unix now)) e in (s, p, kept, due)
    go (err _) p e = absurd (cc)
    go panic p e = absurd (cc)

-- The state with an entry set and saved.
abbrev pub with_entry : Text → ScheduleEntry → Runner → Runner
with_entry name entry r =
    let schedules = insert name entry r.schedules in
    record r { schedules = schedules; saved = some schedules }

-- What a call that reports no error has done.
set_schedule_lem :
    (h : Host) (d : Disk) (write_error : Option WriteFault) (name cron : Text) (now : ℕ)
    (r r' : Runner)
    → set_schedule h d write_error name cron now r ≡ (r', none)
    → (valid_name h name ≡ true)
      × ((entry : ScheduleEntry) × (entry_for h cron now ≡ ok entry)
          × (with_entry name entry r ≡ r'))
unfolding set_schedule store_entry save_schedules
set_schedule_lem h d write_error name cron now r r' e =
    if-both Stored (not (valid_name h name)) (λ _ q. absurd (cc))
      (λ valid.
        if-both Stored (not d.script_exists) (λ _ q. absurd (cc))
          (λ _ q. (ground arith, stored (entry_for h cron now) write_error refl q)))
      e
  where
    Stored : Runner × Option RunError → Type 0
    Stored result =
        result ≡ (r', none)
        → (valid_name h name ≡ true)
          × ((entry : ScheduleEntry) × (entry_for h cron now ≡ ok entry)
              × (with_entry name entry r ≡ r'))

    stored :
        (found : Outcome RunError ScheduleEntry) (error : Option WriteFault)
        → entry_for h cron now ≡ found
        → store_entry name found error r ≡ (r', none)
        → (entry : ScheduleEntry) × (entry_for h cron now ≡ ok entry)
          × (with_entry name entry r ≡ r')
    stored (ok entry) none p q = (entry, p, ap (λ x. x.0) q)
    stored (ok entry) (some (message, left)) p q = absurd (cc)
    stored (err _) error p q = absurd (cc)
    stored panic error p q = absurd (cc)

-- What `SetSchedule` promises of an entry: it is the expression's, in a form that is parsed the same,
-- with the first minute after the call at which it fires.
abbrev pub IsEntryFor : Host → Text → ℕ → ScheduleEntry → Type 0
IsEntryFor h cron now entry =
    (s : Schedule) × (parse_cron cron ≡ ok s)
    × (parse_cron entry.cron ≡ ok s)
    × IsFirst h.calendar s (unix now + 1) (unix now + window) (some entry.next_at)

entry_for-IsEntryFor :
    (h : Host) (cron : Text) (now : ℕ) (entry : ScheduleEntry)
    → entry_for h cron now ≡ ok entry
    → IsEntryFor h cron now entry
entry_for-IsEntryFor h cron now entry e =
    let (s, parsed, kept, due) = entry_for_lem h cron now entry e in
    (
      s,
      parsed,
      ap parse_cron kept ∙ parse_cron-raw cron s parsed,
      subst (IsFirst h.calendar s (unix now + 1) (unix now + window)) due
          (next-IsFirst h.calendar s (unix now)),
    )

with_entry-AreEntries :
    (h : Host) (name cron : Text) (now : ℕ) (entry : ScheduleEntry) (r : Runner)
    → valid_name h name ≡ true
    → IsEntryFor h cron now entry
    → AreEntries h r.schedules
    → AreEntries h (with_entry name entry r).schedules
with_entry-AreEntries h name cron now entry r valid (s, _, parsed, _) (distinct, entries) = (
  insert-IsMap name entry r.schedules distinct,
  All-insert (IsEntry h) name entry r.schedules (valid, (s, parsed)) entries,
)

-- A schedule that `SetSchedule` accepts is there after a restart, with the first minute after the call
-- at which its expression fires, and so are the other schedules, as they were. It is enough that the
-- schedules before the call could be loaded again.
pub set_schedule-survives :
    (h : Host) (d : Disk) (write_error : Option WriteFault) (name cron : Text) (now : ℕ)
    (r r' : Runner)
    → AreEntries h r.schedules
    → set_schedule h d write_error name cron now r ≡ (r', none)
    → AreEntries h r'.schedules
      × ((entry : ScheduleEntry) × (lookup name (load_schedules h (new r'.saved)).schedules
            ≡ some entry)
          × IsEntryFor h cron now entry)
      × ((other_name : Text)
          → ¬ (name ≡ other_name)
          → lookup other_name (load_schedules h (new r'.saved)).schedules
            ≡ lookup other_name r.schedules)
set_schedule-survives h d write_error name cron now r r' kept e =
    let (valid, (entry, found, same)) = set_schedule_lem h d write_error name cron now r r' e in
    subst Survives same (survives valid entry (entry_for-IsEntryFor h cron now entry found))
  where
    Survives : Runner → Type 0
    Survives after =
        AreEntries h after.schedules
        × ((entry : ScheduleEntry) × (lookup name (load_schedules h (new after.saved)).schedules
              ≡ some entry)
            × IsEntryFor h cron now entry)
        × ((other_name : Text)
            → ¬ (name ≡ other_name)
            → lookup other_name (load_schedules h (new after.saved)).schedules
              ≡ lookup other_name r.schedules)

    survives :
        valid_name h name ≡ true
        → (entry : ScheduleEntry) → IsEntryFor h cron now entry
        → Survives (with_entry name entry r)
    survives valid entry for_cron =
        let still = with_entry-AreEntries h name cron now entry r valid for_cron kept in
        let schedules = insert name entry r.schedules in
        (
          still,
          (
            entry,
            restart_lem h schedules still name ∙ lookup-insert_self name entry r.schedules,
            for_cron,
          ),
          λ other_name differs.
              restart_lem h schedules still other_name
              ∙ lookup-insert_other name other_name entry r.schedules
                  (ground (arith, text_eq_iff name other_name, differs)),
        )
