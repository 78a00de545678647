-- ===== src/Tests/SchedulerTests.antt =====
-- src/dudamel/scheduler.py with one job.
use dudamel.Prelude.{
  ℕ, ◌+◌, ◌-◌, ◌*◌, ◌^◌, ◌≡◌, refl, min, true, false, none, some, List, [], ◌∷◌, codes, All, leb,
  nat_eq, if◌then◌else◌, Option, text_eq, arith,
}
use dudamel.Scheduler.{
  ℤ, Status, Detail, JobRun, Runs, interval, cron, missed_count_cap, count_missed, Scheduled,
  Startup, reconcile_history, record_run, mark_interrupted, record_downtime, last_started,
}
use dudamel.Scheduler.Counted.{fires_in, IsFirstFire, count_missed-fires_in}
use dudamel.Scheduler.Meanwhile.{Event, begins, notes}
use dudamel.Scheduler.Reported.{is_running, reconcile-is_running}
use dudamel.Scheduler.Once.{reconcile-reconcile}

-- A trigger that fires at 50, and never again.
abbrev at_fifty : ℕ → Option ℕ
at_fifty t = if leb t 50 then some 50 else none

at_fifty-IsFirstFire : IsFirstFire at_fifty (λ u. nat_eq u 50)
at_fifty-IsFirstFire = record {
  absent = λ t u e le. ground arith;
  after = λ t f e. ground arith;
  fires = λ t f e. ground arith;
  first = λ t f u e le lt. ground arith;
}

count_missed-fires_in_example :
    count_missed (cron at_fifty) 40 60
    ≡ ℤ.pos (min (missed_count_cap + 1) (fires_in (λ u. nat_eq u 50) (40 + 1) (60 - 40)))
count_missed-fires_in_example =
    count_missed-fires_in at_fifty (λ u. nat_eq u 50) at_fifty-IsFirstFire 40 60 (omega arith)

-- A run that a crash left behind.
abbrev left_over : Runs
left_over = record {
  rows =
      record {
        id = 1;
        job_id = codes "notes.tick";
        status = Status.running;
        started_at = 100;
        finished_at = none;
        detail = none;
      }
      ∷ [];
  next_id = 2;
}

abbrev meanwhile : List Event
meanwhile =
    begins true (codes "notes.tock") 210
    ∷ notes true (codes "notes.tick") Status.skipped 220 Detail.max_instances 220
    ∷ []

-- Every minute, and the process comes back three minutes after the last start.
abbrev jobs : List Scheduled
jobs = record { id = codes "notes.tick"; trigger = interval 60 } ∷ []

abbrev startup : Startup
startup = record {
  marks = true;
  marked_at = 180 * 10 ^ 6 + 100;
  reads = true;
  now = 180 * 10 ^ 6 + 100;
  writes = λ id. true;
  finished = λ id. 180 * 10 ^ 6 + 100;
}

-- The crash is told, and three fires that were missed.
restarted :
    (reconcile_history startup jobs left_over).rows
    ≡ record {
      id = 1;
      job_id = codes "notes.tick";
      status = Status.interrupted;
      started_at = 100;
      finished_at = some (180 * 10 ^ 6 + 100);
      detail = some Detail.process_ended;
    }
      ∷ record {
        id = 2;
        job_id = codes "notes.tick";
        status = Status.misfired;
        started_at = 180 * 10 ^ 6 + 100;
        finished_at = some (180 * 10 ^ 6 + 100);
        detail = some (Detail.missed_some (ℤ.pos 3) 100);
      }
      ∷ []
unfolding reconcile_history mark_interrupted record_downtime last_started count_missed record_run
    text_eq
restarted = refl

-- A clock that was set back: minus one run was missed.
set_back : count_missed (interval 60) 200 100 ≡ ℤ.negsuc 0
unfolding count_missed
set_back = refl

reconcile-is_running_example :
    All (λ (r : JobRun). is_running r ≡ false) (reconcile_history startup jobs left_over).rows
reconcile-is_running_example = reconcile-is_running startup jobs left_over refl

reconcile-reconcile_example :
    reconcile_history startup jobs (reconcile_history startup jobs left_over)
    ≡ reconcile_history startup jobs left_over
reconcile-reconcile_example =
    reconcile-reconcile startup jobs left_over refl refl (λ id. refl) (tt, tt) (omega arith, tt)
