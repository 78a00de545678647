-- ===== src/Scheduler/Once.antt =====
-- src/dudamel/scheduler.py: a second start of the process.
use native.Mathlib.Nat.{zero-div}
use dudamel.Prelude.{
  ℕ, zero, suc, ◌+◌, ◌-◌, ◌*◌, ◌^◌, ◌/◌, ◌≤◌, ◌<◌, ◌≡◌, ◌⊎◌, ◌∙◌, ap, sym, refl, subst, min, true,
  false, Option, none, some, inl, inr, List, [], ◌∷◌, Text, All, All-append, map, Bool-cases, leb,
  text_eq, arith,
}
use dudamel.Scheduler.{
  ℤ, Status, Detail, JobRun, Runs, add_row, record_run, interrupt, mark_interrupted, Trigger,
  interval, cron, count_fires, count_missed, intervals, missed_count_cap, Scheduled, last_started,
  report_since, Startup, record_report, record_downtime, reconcile_history,
}
use dudamel.Scheduler.Reported.{is_running, reconcile-is_running}
use dudamel.Scheduler.Latest.{NotLater, text_eq_refl, last_started-now, last_started-other}

-- The documented promise of a trigger: no fire before the moment that it is asked about.
abbrev pub IsForward : Trigger → Type 0
IsForward (interval seconds) = Unit
IsForward (cron next) = (t f : ℕ) → next t ≡ some f → t ≤ f

none_due :
    (left now : ℕ) (next : ℕ → Option ℕ) (o : Option ℕ)
    → ((f : ℕ) → o ≡ some f → now < f)
    → count_fires left next now o ≡ 0
unfolding count_fires
none_due zero now next o h = refl
none_due (suc left) now next none h = refl
none_due (suc left) now next (some f) h =
    let over : leb f now ≡ false = ground (arith, h f refl) in rw over refl

zero_intervals : (seconds now : ℕ) → intervals (suc seconds * 10 ^ 6) now now ≡ ℤ.pos 0
zero_intervals seconds now =
    let step = suc seconds * 10 ^ 6 in
    let due : leb now now ≡ true = ground arith in
    let span : now - now ≡ 0 = omega arith in
    let none_past : (now - now) / step ≡ 0 = ap (λ n. n / step) span ∙ zero-div step in
    rw due (ap (λ n. ℤ.pos (min n (missed_count_cap + 1))) none_past)

count_missed-now :
    (trigger : Trigger) (now : ℕ) → IsForward trigger → count_missed trigger now now ≡ ℤ.pos 0
unfolding count_missed
count_missed-now (interval zero) now h = refl
count_missed-now (interval (suc seconds)) now h = zero_intervals seconds now
count_missed-now (cron next) now h = ap ℤ.pos (
    none_due (missed_count_cap + 1) now next (next (now + 1))
      (λ f e. omega (arith, h (now + 1) f e)))

report-now :
    (trigger : Trigger) (now : ℕ) → IsForward trigger → report_since trigger now (some now) ≡ none
report-now trigger now h = rw (count_missed-now trigger now h) refl

module _ (startup : Startup) (writes : (id : Text) → startup.writes id ≡ true) where
  -- The latest start of a job is as it was, or is this one.
  abbrev Tracks : Text → Option ℕ → Runs → Type 0
  Tracks id x runs =
      (last_started id runs.rows ≡ x) ⊎ (last_started id runs.rows ≡ some startup.now)

  abbrev reported_row : Text → Detail → Runs → Runs
  reported_row id detail runs =
      add_row id Status.misfired startup.now (some (startup.finished id)) (some detail) runs

  record_report-add :
      (id : Text) (detail : Detail) (runs : Runs)
      → record_report startup id (some detail) runs ≡ reported_row id detail runs
  unfolding record_run
  record_report-add id detail runs = simp (writes id) refl

  reported_row-NotLater :
      (id : Text) (detail : Detail) (runs : Runs)
      → NotLater startup.now runs.rows
      → NotLater startup.now (reported_row id detail runs).rows
  reported_row-NotLater id detail runs h =
      All-append (λ (r : JobRun). r.started_at ≤ startup.now) runs.rows _ h (omega arith, tt)

  reported_row-Tracks :
      (id other : Text) (x : Option ℕ) (detail : Detail) (runs : Runs)
      → NotLater startup.now runs.rows
      → Tracks id x runs
      → Tracks id x (reported_row other detail runs)
  reported_row-Tracks id other x detail runs h t = elim (Bool-cases (text_eq other id)) [
    | inl e ↦ inr (last_started-now startup.now id runs.rows _ h refl e)
    | inr e ↦
        subst (λ o. (o ≡ x) ⊎ (o ≡ some startup.now))
          (sym (last_started-other startup.now id runs.rows _ e)) t
  ]

  record_report-NotLater :
      (id : Text) (o : Option Detail) (runs : Runs)
      → NotLater startup.now runs.rows
      → NotLater startup.now (record_report startup id o runs).rows
  record_report-NotLater id none runs h = h
  record_report-NotLater id (some detail) runs h =
      subst (λ (t : Runs). NotLater startup.now t.rows) (sym (record_report-add id detail runs))
        (reported_row-NotLater id detail runs h)

  record_report-Tracks :
      (id other : Text) (x : Option ℕ) (o : Option Detail) (runs : Runs)
      → NotLater startup.now runs.rows
      → Tracks id x runs
      → Tracks id x (record_report startup other o runs)
  record_report-Tracks id other x none runs h t = t
  record_report-Tracks id other x (some detail) runs h t =
      subst (Tracks id x) (sym (record_report-add other detail runs))
        (reported_row-Tracks id other x detail runs h t)

  record_report-settled :
      (id : Text) (detail : Detail) (runs : Runs)
      → NotLater startup.now runs.rows
      → last_started id (record_report startup id (some detail) runs).rows ≡ some startup.now
  record_report-settled id detail runs h =
      subst (λ (t : Runs). last_started id t.rows ≡ some startup.now)
        (sym (record_report-add id detail runs))
        (last_started-now startup.now id runs.rows _ h refl (text_eq_refl id))

  module _ (rows : List JobRun) where
    downtime-Tracks :
        (id : Text) (x : Option ℕ) (jobs : List Scheduled) (runs : Runs)
        → NotLater startup.now runs.rows
        → Tracks id x runs
        → Tracks id x (record_downtime startup rows jobs runs)
    unfolding record_downtime
    downtime-Tracks id x [] runs h t = t
    downtime-Tracks id x (job ∷ jobs) runs h t =
        let o = report_since job.trigger startup.now (last_started job.id rows) in
        downtime-Tracks id x jobs _ (record_report-NotLater job.id o runs h)
          (record_report-Tracks id job.id x o runs h t)

    -- The job has nothing more to report.
    abbrev IsQuiet : Runs → Scheduled → Type 0
    IsQuiet runs job = report_since job.trigger startup.now (last_started job.id runs.rows) ≡ none

    IsQuiet-after :
        (job : Scheduled) (jobs : List Scheduled) (o : Option Detail) (runs : Runs)
        → IsForward job.trigger
        → NotLater startup.now runs.rows
        → Tracks job.id (last_started job.id rows) runs
        → report_since job.trigger startup.now (last_started job.id rows) ≡ o
        → IsQuiet (record_downtime startup rows jobs (record_report startup job.id o runs)) job
    IsQuiet-after job jobs none runs forward h t e =
        elim (downtime-Tracks job.id (last_started job.id rows) jobs runs h t) [
          | inl same ↦ rw same e
          | inr now ↦ rw now (report-now job.trigger startup.now forward)
        ]
    IsQuiet-after job jobs (some detail) runs forward h t e =
        elim (downtime-Tracks job.id (some startup.now) jobs
          (record_report startup job.id (some detail) runs)
          (record_report-NotLater job.id (some detail) runs h)
          (inl (record_report-settled job.id detail runs h))) [
            | inl now ↦ rw now (report-now job.trigger startup.now forward)
            | inr now ↦ rw now (report-now job.trigger startup.now forward)
          ]

    downtime-IsQuiet :
        (jobs : List Scheduled) (runs : Runs)
        → All (λ (job : Scheduled). IsForward job.trigger) jobs
        → NotLater startup.now runs.rows
        → ((id : Text) → Tracks id (last_started id rows) runs)
        → All (IsQuiet (record_downtime startup rows jobs runs)) jobs
    unfolding record_downtime
    downtime-IsQuiet [] runs forward h t = tt
    downtime-IsQuiet (job ∷ jobs) runs forward h t =
        let o = report_since job.trigger startup.now (last_started job.id rows) in
        (
          IsQuiet-after job jobs o runs forward.0 h (t job.id) refl,
          downtime-IsQuiet jobs _ forward.1 (record_report-NotLater job.id o runs h)
              (λ id. record_report-Tracks id job.id (last_started id rows) o runs h (t id)),
        )

  -- Where every job is quiet, nothing is recorded.
  quiet-downtime :
      (rows : List JobRun) (jobs : List Scheduled) (runs : Runs)
      → All
          (λ (job : Scheduled).
            report_since job.trigger startup.now (last_started job.id rows) ≡ none)
          jobs
      → record_downtime startup rows jobs runs ≡ runs
  unfolding record_downtime
  quiet-downtime rows [] runs h = refl
  quiet-downtime rows (job ∷ jobs) runs h = simp h.0 (quiet-downtime rows jobs runs h.1)

interrupt-idle : (now : ℕ) (r : JobRun) → is_running r ≡ false → interrupt now r ≡ r
interrupt-idle now r h = ground arith

map-idle :
    (now : ℕ) (rows : List JobRun)
    → All (λ (r : JobRun). is_running r ≡ false) rows
    → map (interrupt now) rows ≡ rows
map-idle now [] h = refl
map-idle now (r ∷ rows) h = rw (interrupt-idle now r h.0, map-idle now rows h.1) refl

mark-idle :
    (now : ℕ) (runs : Runs)
    → All (λ (r : JobRun). is_running r ≡ false) runs.rows
    → mark_interrupted now runs ≡ runs
unfolding mark_interrupted
mark-idle now runs h = ap (λ rows. record runs { rows = rows }) (map-idle now runs.rows h)

interrupt-started_at : (now : ℕ) (r : JobRun) → (interrupt now r).started_at ≡ r.started_at
interrupt-started_at now r = ground arith

mark-NotLater :
    (marked now : ℕ) (rows : List JobRun)
    → NotLater now rows
    → NotLater now (map (interrupt marked) rows)
mark-NotLater marked now [] h = tt
mark-NotLater marked now (r ∷ rows) h = (
  subst (λ t. t ≤ now) (sym (interrupt-started_at marked r)) h.0,
  mark-NotLater marked now rows h.1,
)

-- A second start at the same readings of the clock records nothing: the downtime that the first one
-- reported is not reported again, if no run is recorded as started in the future, the database
-- takes every write, and no trigger answers with a fire before the moment it is asked about.
pub reconcile-reconcile :
    (startup : Startup) (jobs : List Scheduled) (runs : Runs)
    → startup.marks ≡ true
    → startup.reads ≡ true
    → ((id : Text) → startup.writes id ≡ true)
    → All (λ (job : Scheduled). IsForward job.trigger) jobs
    → All (λ (r : JobRun). r.started_at ≤ startup.now) runs.rows
    → reconcile_history startup jobs (reconcile_history startup jobs runs)
      ≡ reconcile_history startup jobs runs
reconcile-reconcile startup jobs runs marks reads writes forward past =
    let marked = mark_interrupted startup.marked_at runs in
    let after = record_downtime startup marked.rows jobs marked in
    let idle : All (λ (r : JobRun). is_running r ≡ false) after.rows =
      subst (λ (t : Runs). All (λ (r : JobRun). is_running r ≡ false) t.rows) (once runs)
        (reconcile-is_running startup jobs runs marks) in
    let quiet =
      downtime-IsQuiet startup writes marked.rows jobs marked forward
        (unfold mark_interrupted in mark-NotLater startup.marked_at startup.now runs.rows past)
        (λ id. inl refl) in
    ap (reconcile_history startup jobs) (once runs)
    ∙ once after
    ∙ ap (λ (t : Runs). record_downtime startup t.rows jobs t)
        (mark-idle startup.marked_at after idle)
    ∙ quiet-downtime startup writes after.rows jobs after quiet
    ∙ sym (once runs)
  where
    once :
        (rs : Runs)
        → reconcile_history startup jobs rs
          ≡ record_downtime startup
              (mark_interrupted startup.marked_at rs).rows
              jobs
              (mark_interrupted startup.marked_at rs)
    once rs = unfold reconcile_history in simp (marks, reads) refl
