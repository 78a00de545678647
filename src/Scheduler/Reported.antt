-- ===== src/Scheduler/Reported.antt =====
-- src/dudamel/scheduler.py: what the history says after a start.
use dudamel.Prelude.{
  ℕ, ◌≡◌, refl, Bool, true, false, Option, none, some, inl, inr, List, [], ◌∷◌, Text, All,
  All-append, map, Bool-cases, arith,
}
use dudamel.Scheduler.{
  Status, Detail, JobRun, Runs, record_run, interrupt, mark_interrupted, Scheduled, last_started,
  report_since, Startup, record_report, record_downtime, downtime_read, reconcile_history,
}

abbrev pub is_running : JobRun → Bool
is_running r = elim r.status [ Status.running ↦ true | _ ↦ false ]

abbrev NoneRunning : Runs → Type 0
NoneRunning runs = All (λ (r : JobRun). is_running r ≡ false) runs.rows

interrupt-is_running : (now : ℕ) (r : JobRun) → is_running (interrupt now r) ≡ false
interrupt-is_running now r = ground arith

mark-NoneRunning : (now : ℕ) (runs : Runs) → NoneRunning (mark_interrupted now runs)
unfolding mark_interrupted
mark-NoneRunning now runs = over runs.rows
  where
    over :
        (rows : List JobRun) → All (λ (r : JobRun). is_running r ≡ false) (map (interrupt now) rows)
    over [] = tt
    over (r ∷ rows) = (interrupt-is_running now r, over rows)

record_report-NoneRunning :
    (startup : Startup) (job_id : Text) (o : Option Detail) (runs : Runs)
    → NoneRunning runs
    → NoneRunning (record_report startup job_id o runs)
unfolding record_run
record_report-NoneRunning startup job_id none runs h = h
record_report-NoneRunning startup job_id (some detail) runs h =
    elim (Bool-cases (startup.writes job_id)) [
      | inl e ↦ rw e (All-append (λ (r : JobRun). is_running r ≡ false) runs.rows _ h (refl, tt))
      | inr e ↦ rw e h
    ]

module _ (startup : Startup) (rows : List JobRun) where
  downtime-NoneRunning :
      (jobs : List Scheduled) (runs : Runs)
      → NoneRunning runs
      → NoneRunning (record_downtime startup rows jobs runs)
  unfolding record_downtime
  downtime-NoneRunning [] runs h = h
  downtime-NoneRunning (job ∷ jobs) runs h = downtime-NoneRunning jobs _ (
      record_report-NoneRunning startup job.id
        (report_since job.trigger startup.now (last_started job.id rows)) runs h)

-- After a start no run is left `running`, whatever an earlier process left behind and whichever of
-- the later writes fail, if the database takes the update of the left-over rows.
pub reconcile-is_running :
    (startup : Startup) (jobs : List Scheduled) (runs : Runs)
    → startup.marks ≡ true
    → All (λ (r : JobRun). is_running r ≡ false) (reconcile_history startup jobs runs).rows
unfolding reconcile_history
reconcile-is_running startup jobs runs marks = simp marks (after startup.reads)
  where
    after :
        (reads : Bool)
        → NoneRunning (downtime_read reads startup jobs (mark_interrupted startup.marked_at runs))
    after false = mark-NoneRunning startup.marked_at runs
    after true = downtime-NoneRunning startup _ jobs _ (mark-NoneRunning startup.marked_at runs)
