-- ===== src/Scheduler.antt =====
-- src/dudamel/scheduler.py: the history of the jobs' runs, table `job_runs`.
-- Times are in microseconds since an epoch, as `datetime` keeps them. When a job fires is APScheduler's
-- and a parameter; a write that the database refuses is told by a Boolean.
pub mod Counted
pub mod Meanwhile
pub mod Finished
pub mod Reported
pub mod Latest
pub mod Once
use dudamel.Prelude.{
  ℕ, zero, suc, ◌+◌, ◌-◌, ◌*◌, ◌/◌, ◌^◌, min, max, Bool, true, false, not, ◌&&◌, ◌||◌, Option, none,
  some, List, [], ◌∷◌, ◌++◌, Text, map, take, leb, ltb, nat_eq, text_eq, if◌then◌else◌,
}

-- The integers, over the native numbers.
pub data ℤ : Type 0 where
  pos negsuc : ℕ → ℤ

pub data Status : Type 0 where
  running ok error timeout skipped misfired cancelled interrupted : Status

-- The texts of the column `detail`, before they are formatted; a raised one is cut.
pub data Detail : Type 0 where
  timed_out was_cancelled process_ended max_instances : Detail
  raised : Text → Detail
  missed_at : ℕ → Detail
  -- More than the cap, or how many, and since when.
  missed_many : ℕ → Detail
  missed_some : ℤ → ℕ → Detail

pub record JobRun : Type 0 where
  pub id : ℕ
  pub job_id : Text
  pub status : Status
  pub started_at : ℕ
  pub finished_at : Option ℕ
  pub detail : Option Detail

-- The table, and the id that the next row gets.
pub record Runs : Type 0 where
  pub rows : List JobRun
  pub next_id : ℕ

abbrev pub detail_cap : ℕ
detail_cap = 4000

abbrev pub missed_count_cap : ℕ
missed_count_cap = 1000

abbrev pub add_row : Text → Status → ℕ → Option ℕ → Option Detail → Runs → Runs
add_row job_id status started finished detail runs = record {
  rows =
      runs.rows
      ++ (record {
        id = runs.next_id;
        job_id = job_id;
        status = status;
        started_at = started;
        finished_at = finished;
        detail = detail;
      }
          ∷ []);
  next_id = runs.next_id + 1;
}

-- `_begin`
unfoldable pub begin : Bool → Text → ℕ → Runs → Option ℕ × Runs
begin false job_id started runs = (none, runs)
begin true job_id started runs =
    (some runs.next_id, add_row job_id Status.running started none none runs)

-- `s.get(JobRun, run_id)`
abbrev pub get_row : ℕ → List JobRun → Option JobRun
get_row i [] = none
get_row i (r ∷ rows) = if nat_eq r.id i then some r else get_row i rows

abbrev pub finish_row : ℕ → Status → ℕ → Option Detail → JobRun → JobRun
finish_row i status finished detail r =
    if nat_eq r.id i
    then record r { status = status; finished_at = some finished; detail = detail }
    else r

abbrev pub row_named : Option ℕ → List JobRun → Option JobRun
row_named none rows = none
row_named (some i) rows = get_row i rows

abbrev pub finish_or_add : Option JobRun → Text → Status → ℕ → Option Detail → ℕ → Runs → Runs
finish_or_add none job_id status started detail finished runs =
    add_row job_id status started (some finished) detail runs
finish_or_add (some r) job_id status started detail finished runs = record runs {
  rows = map (finish_row r.id status finished detail) runs.rows;
}

-- `_record`
unfoldable pub record_run : Bool → Text → Status → ℕ → Option Detail → Option ℕ → ℕ → Runs → Runs
record_run false job_id status started detail run_id finished runs = runs
record_run true job_id status started detail run_id finished runs =
    finish_or_add (row_named run_id runs.rows) job_id status started detail finished runs

-- How a job's function ends; a `TimeoutError` may be the job's own.
pub data Exit : Type 0 where
  returned stopped : Exit
  timeout_error : Bool → Text → Exit
  failed : Text → Exit

abbrev pub status_of : Exit → Status
status_of returned = Status.ok
status_of stopped = Status.cancelled
status_of (timeout_error true text) = Status.timeout
status_of (timeout_error false text) = Status.error
status_of (failed text) = Status.error

abbrev pub detail_of : Exit → Option Detail
detail_of returned = none
detail_of stopped = some Detail.was_cancelled
detail_of (timeout_error true text) = some Detail.timed_out
detail_of (timeout_error false text) = some (Detail.raised (take detail_cap text))
detail_of (failed text) = some (Detail.raised (take detail_cap text))

-- What `_run_job` does after the function has ended.
unfoldable pub end_run : Bool → Text → ℕ → Exit → Option ℕ → ℕ → Runs → Runs
unfolding record_run
end_run written job_id started exit run_id finished runs =
    record_run written job_id (status_of exit) started (detail_of exit) run_id finished runs

-- `_mark_interrupted`
abbrev pub interrupt : ℕ → JobRun → JobRun
interrupt now r = elim r.status [
  | Status.running ↦ record r {
    status = Status.interrupted;
    finished_at = some now;
    detail = some Detail.process_ended;
  }
  | _ ↦ r
]

unfoldable pub mark_interrupted : ℕ → Runs → Runs
mark_interrupted now runs = record runs { rows = map (interrupt now) runs.rows }

-- A job's trigger: seconds, or APScheduler's `get_next_fire_time`, without the previous fire.
pub data Trigger : Type 0 where
  interval : ℕ → Trigger
  cron : (ℕ → Option ℕ) → Trigger

-- The loop's test is `count <= _MISSED_COUNT_CAP`: the first argument is how many turns are left.
unfoldable pub count_fires : ℕ → (ℕ → Option ℕ) → ℕ → Option ℕ → ℕ
count_fires zero next now fire = 0
count_fires (suc left) next now none = 0
count_fires (suc left) next now (some fire) =
    let rest = count_fires left next now (next (fire + 1)) in if leb fire now then suc rest else 0

-- `(now - last) // step`, for a step that is not zero: Python rounds to the lower integer.
abbrev pub intervals : ℕ → ℕ → ℕ → ℤ
intervals step last now =
    if leb last now
    then ℤ.pos (min ((now - last) / step) (missed_count_cap + 1))
    else ℤ.negsuc ((last - now - 1) / step)

-- `_count_missed`
unfoldable pub count_missed : Trigger → ℕ → ℕ → ℤ
unfolding count_fires
count_missed (interval zero) last now = ℤ.pos 0
count_missed (interval (suc seconds)) last now = intervals (suc seconds * 10 ^ 6) last now
count_missed (cron next) last now =
    ℤ.pos (count_fires (missed_count_cap + 1) next now (next (last + 1)))

-- A job as the scheduler has registered it.
pub record Scheduled : Type 0 where
  pub id : Text
  pub trigger : Trigger

abbrev pub later : ℕ → Option ℕ → Option ℕ
later t none = some t
later t (some u) = some (max t u)

-- `select(JobRun.job_id, func.max(JobRun.started_at)).group_by(JobRun.job_id)`, at one job
unfoldable pub last_started : Text → List JobRun → Option ℕ
unfolding text_eq
last_started job_id [] = none
last_started job_id (r ∷ rows) =
    let rest = last_started job_id rows in
    if text_eq r.job_id job_id then later r.started_at rest else rest

-- The detail of a `misfired` row, where a run was missed.
abbrev pub report : ℤ → ℕ → Option Detail
report (ℤ.pos zero) last = none
report (ℤ.pos (suc n)) last =
    if ltb missed_count_cap (suc n)
    then some (Detail.missed_many last)
    else some (Detail.missed_some (ℤ.pos (suc n)) last)
report (ℤ.negsuc n) last = some (Detail.missed_some (ℤ.negsuc n) last)

abbrev pub report_since : Trigger → ℕ → Option ℕ → Option Detail
report_since trigger now none = none
report_since trigger now (some last) = report (count_missed trigger last now) last

-- The clock, and the answers of the database, when the scheduler starts.
pub record Startup : Type 0 where
  pub marks : Bool
  pub marked_at : ℕ
  pub reads : Bool
  pub now : ℕ
  pub writes : Text → Bool
  pub finished : Text → ℕ

abbrev pub record_report : Startup → Text → Option Detail → Runs → Runs
record_report startup job_id none runs = runs
record_report startup job_id (some detail) runs =
    record_run (startup.writes job_id) job_id Status.misfired startup.now (some detail) none
      (startup.finished job_id) runs

-- The loop of `_record_downtime_misfires`; `rows` is what the query saw before it.
unfoldable pub record_downtime : Startup → List JobRun → List Scheduled → Runs → Runs
unfolding record_run last_started count_missed
record_downtime startup rows [] runs = runs
record_downtime startup rows (job ∷ jobs) runs = record_downtime startup rows jobs (
    record_report startup job.id (report_since job.trigger startup.now (last_started job.id rows))
      runs)

abbrev pub downtime_read : Bool → Startup → List Scheduled → Runs → Runs
downtime_read false startup jobs runs = runs
downtime_read true startup jobs runs = record_downtime startup runs.rows jobs runs

-- `_reconcile_history`: a refused write or query ends it.
unfoldable pub reconcile_history : Startup → List Scheduled → Runs → Runs
unfolding mark_interrupted record_downtime
reconcile_history startup jobs runs =
    if startup.marks
    then downtime_read startup.reads startup jobs (mark_interrupted startup.marked_at runs)
    else runs
