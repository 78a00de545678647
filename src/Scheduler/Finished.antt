-- ===== src/Scheduler/Finished.antt =====
-- src/dudamel/scheduler.py: the end of a run.
use dudamel.Prelude.{
  ℕ, ◌+◌, ◌≡◌, Bool, false, Option, none, some, List, Text, All, length, if◌then◌else◌,
}
use dudamel.Scheduler.{Status, JobRun, Runs, get_row, Exit, status_of, detail_of}
use dudamel.Scheduler.Meanwhile.{Event, ends_run}

-- A row as a run that started then and ended so leaves it.
pub record IsRunOf (job_id : Text) (started : ℕ) (exit : Exit) (finished : ℕ) (r : JobRun)
    : Type 0 where
  job : r.job_id ≡ job_id
  begun : r.started_at ≡ started
  status : r.status ≡ status_of exit
  ended : r.finished_at ≡ some finished
  detail : r.detail ≡ detail_of exit

-- The table before the end of a run and after it, where the start of the run was written or not.
pub record IsRecorded (begun : Bool) (job_id : Text) (started : ℕ) (exit : Exit) (finished : ℕ)
    (runs runs' : Runs) : Type 0 where
  row : JobRun
  stored : get_row row.id runs'.rows ≡ some row
  outcome : IsRunOf job_id started exit finished row
  rows : length runs'.rows ≡ length runs.rows + (if begun then 0 else 1)

module _ (job_id : Text) (started finished : ℕ) (exit : Exit) where
  abbrev begun_row : ℕ → JobRun
  begun_row i = record {
    id = i;
    job_id = job_id;
    status = Status.running;
    started_at = started;
    finished_at = none;
    detail = none;
  }

  abbrev ended_row : ℕ → JobRun
  ended_row i = record {
    id = i;
    job_id = job_id;
    status = status_of exit;
    started_at = started;
    finished_at = some finished;
    detail = detail_of exit;
  }

-- The events between the start of a run and its end do not end this run.
abbrev pub IsMeanwhile : Option ℕ → List Event → Type 0
IsMeanwhile none es = Unit
IsMeanwhile (some i) es = All (λ e. ends_run i e ≡ false) es
