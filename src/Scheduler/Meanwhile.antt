-- ===== src/Scheduler/Meanwhile.antt =====
-- src/dudamel/scheduler.py: what is recorded while a run goes on.
use dudamel.Prelude.{
  ℕ, ◌+◌, ◌<◌, ◌≡◌, ◌∙◌, ap, sym, refl, subst, Bool, true, false, Option, none, some, inl, inr,
  List, [], ◌∷◌, ◌++◌, Text, All, All-append, All-imp, map, Bool-cases, nat_eq, arith,
}
use dudamel.Scheduler.{
  Status, Detail, JobRun, Runs, add_row, begin, get_row, finish_row, row_named, finish_or_add,
  record_run, Exit, status_of, detail_of, end_run,
}

-- What is recorded between the start and the end of a run: other runs, and the listeners' rows for
-- runs that were missed or skipped.
pub data Event : Type 0 where
  begins : Bool → Text → ℕ → Event
  ends : Bool → Text → ℕ → Exit → Option ℕ → ℕ → Event
  notes : Bool → Text → Status → ℕ → Detail → ℕ → Event

unfoldable pub recorded : Event → Runs → Runs
unfolding begin end_run record_run
recorded (begins written job_id started) runs = (begin written job_id started runs).1
recorded (ends written job_id started exit run_id finished) runs =
    end_run written job_id started exit run_id finished runs
recorded (notes written job_id status started detail finished) runs =
    record_run written job_id status started (some detail) none finished runs

unfoldable pub recorded_all : List Event → Runs → Runs
unfolding recorded
recorded_all [] runs = runs
recorded_all (e ∷ es) runs = recorded_all es (recorded e runs)

abbrev is_run : ℕ → Option ℕ → Bool
is_run i none = false
is_run i (some j) = nat_eq j i

-- The event ends the run with this id.
abbrev pub ends_run : ℕ → Event → Bool
ends_run i (begins written job_id started) = false
ends_run i (ends written job_id started exit run_id finished) = is_run i run_id
ends_run i (notes written job_id status started detail finished) = false

-- The ids are below the one that comes next.
abbrev pub IsTable : Runs → Type 0
IsTable runs = All (λ (r : JobRun). r.id < runs.next_id) runs.rows

some-injective : {A : Type 0} {a b : A} → some a ≡ some b → a ≡ b
some-injective h = cc

get_row-append :
    (i : ℕ) (r : JobRun) (rows more : List JobRun)
    → get_row i rows ≡ some r
    → get_row i (rows ++ more) ≡ some r
get_row-append i r [] more h = absurd (ground arith)
get_row-append i r (s ∷ rows) more h = ground (arith, get_row-append i r rows more)

pub get_row-new :
    (i : ℕ) (r : JobRun) (rows : List JobRun)
    → All (λ (s : JobRun). s.id < i) rows
    → r.id ≡ i
    → get_row i (rows ++ (r ∷ [])) ≡ some r
get_row-new i r [] h e = ground arith
get_row-new i r (s ∷ rows) h e = ground (arith, get_row-new i r rows h.1 e)

get_row-id : (i : ℕ) (r : JobRun) (rows : List JobRun) → get_row i rows ≡ some r → r.id ≡ i
get_row-id i r [] h = absurd (ground arith)
get_row-id i r (s ∷ rows) h = elim (Bool-cases (nat_eq s.id i)) [
  | inl e ↦
      let same : s ≡ r = some-injective (rw e at h) in
      ap (λ (t : JobRun). t.id) (sym same) ∙ ground arith
  | inr e ↦ get_row-id i r rows (rw e at h)
]

module _ (status : Status) (finished : ℕ) (detail : Option Detail) where
  get_row-finish_other :
      (i j : ℕ) (rows : List JobRun)
      → nat_eq j i ≡ false
      → get_row i (map (finish_row j status finished detail) rows) ≡ get_row i rows
  get_row-finish_other i j [] other = refl
  get_row-finish_other i j (s ∷ rows) other = elim (Bool-cases (nat_eq s.id j)) [
    | inl e ↦ rw e (ground (arith, get_row-finish_other i j rows other))
    | inr e ↦ rw e (ground (arith, get_row-finish_other i j rows other))
  ]

  pub get_row-finish :
      (i : ℕ) (r : JobRun) (rows : List JobRun)
      → get_row i rows ≡ some r
      → get_row i (map (finish_row i status finished detail) rows)
        ≡ some (finish_row i status finished detail r)
  get_row-finish i r [] h = absurd (ground arith)
  get_row-finish i r (s ∷ rows) h = elim (Bool-cases (nat_eq s.id i)) [
    | inl e ↦
        let same : s ≡ r = some-injective (rw e at h) in
        subst
          (λ t.
            get_row i (map (finish_row i status finished detail) (s ∷ rows))
            ≡ some (finish_row i status finished detail t))
          same (rw e (rw e refl))
    | inr e ↦ rw e (rw e (get_row-finish i r rows (rw e at h)))
  ]

  finish-All :
      (i n : ℕ) (rows : List JobRun)
      → All (λ (r : JobRun). r.id < n) rows
      → All (λ (r : JobRun). r.id < n) (map (finish_row i status finished detail) rows)
  finish-All i n [] h = tt
  finish-All i n (s ∷ rows) h = elim (Bool-cases (nat_eq s.id i)) [
    | inl e ↦ rw e (h.0, finish-All i n rows h.1)
    | inr e ↦ rw e (h.0, finish-All i n rows h.1)
  ]

add_row-IsTable :
    (job_id : Text) (status : Status) (started : ℕ) (finished : Option ℕ) (detail : Option Detail)
    (runs : Runs)
    → IsTable runs
    → IsTable (add_row job_id status started finished detail runs)
add_row-IsTable job_id status started finished detail runs h =
    All-append (λ (r : JobRun). r.id < runs.next_id + 1) runs.rows _
      (All-imp (λ (r : JobRun) lt. omega arith) runs.rows h) (omega arith, tt)

finish_or_add-IsTable :
    (o : Option JobRun) (job_id : Text) (status : Status) (started : ℕ) (detail : Option Detail)
    (finished : ℕ) (runs : Runs)
    → IsTable runs
    → IsTable (finish_or_add o job_id status started detail finished runs)
finish_or_add-IsTable none job_id status started detail finished runs h =
    add_row-IsTable job_id status started (some finished) detail runs h
finish_or_add-IsTable (some r) job_id status started detail finished runs h =
    finish-All status finished detail r.id runs.next_id runs.rows h

record_run-IsTable :
    (written : Bool) (job_id : Text) (status : Status) (started : ℕ) (detail : Option Detail)
    (run_id : Option ℕ) (finished : ℕ) (runs : Runs)
    → IsTable runs
    → IsTable (record_run written job_id status started detail run_id finished runs)
unfolding record_run
record_run-IsTable false job_id status started detail run_id finished runs h = h
record_run-IsTable true job_id status started detail run_id finished runs h =
    finish_or_add-IsTable (row_named run_id runs.rows) job_id status started detail finished runs h

begin-IsTable :
    (written : Bool) (job_id : Text) (started : ℕ) (runs : Runs)
    → IsTable runs
    → IsTable (begin written job_id started runs).1
unfolding begin
begin-IsTable false job_id started runs h = h
begin-IsTable true job_id started runs h =
    add_row-IsTable job_id Status.running started none none runs h

recorded-IsTable : (e : Event) (runs : Runs) → IsTable runs → IsTable (recorded e runs)
unfolding recorded end_run
recorded-IsTable (begins written job_id started) runs h =
    begin-IsTable written job_id started runs h
recorded-IsTable (ends written job_id started exit run_id finished) runs h =
    record_run-IsTable written job_id (status_of exit) started (detail_of exit) run_id finished runs
      h
recorded-IsTable (notes written job_id status started detail finished) runs h =
    record_run-IsTable written job_id status started (some detail) none finished runs h

-- A row stays as it is while another run is recorded.
finish_or_add-get_row :
    (i : ℕ) (kept : JobRun) (o : Option JobRun) (job_id : Text) (status : Status) (started : ℕ)
    (detail : Option Detail) (finished : ℕ) (runs : Runs)
    → ((r : JobRun) → o ≡ some r → nat_eq r.id i ≡ false)
    → get_row i runs.rows ≡ some kept
    → get_row i (finish_or_add o job_id status started detail finished runs).rows ≡ some kept
finish_or_add-get_row i kept none job_id status started detail finished runs other h =
    get_row-append i kept runs.rows _ h
finish_or_add-get_row i kept (some r) job_id status started detail finished runs other h =
    get_row-finish_other status finished detail i r.id runs.rows (other r refl) ∙ h

row_named-other :
    (i : ℕ) (run_id : Option ℕ) (rows : List JobRun) (r : JobRun)
    → is_run i run_id ≡ false
    → row_named run_id rows ≡ some r
    → nat_eq r.id i ≡ false
row_named-other i none rows r other h = absurd (ground arith)
row_named-other i (some j) rows r other h = rw (get_row-id j r rows h) other

record_run-get_row :
    (i : ℕ) (kept : JobRun) (written : Bool) (job_id : Text) (status : Status) (started : ℕ)
    (detail : Option Detail) (run_id : Option ℕ) (finished : ℕ) (runs : Runs)
    → is_run i run_id ≡ false
    → get_row i runs.rows ≡ some kept
    → get_row i (record_run written job_id status started detail run_id finished runs).rows
      ≡ some kept
unfolding record_run
record_run-get_row i kept false job_id status started detail run_id finished runs other h = h
record_run-get_row i kept true job_id status started detail run_id finished runs other h =
    finish_or_add-get_row i kept (row_named run_id runs.rows) job_id status started detail finished
      runs (λ r e. row_named-other i run_id runs.rows r other e) h

recorded-get_row :
    (i : ℕ) (kept : JobRun) (e : Event) (runs : Runs)
    → ends_run i e ≡ false
    → get_row i runs.rows ≡ some kept
    → get_row i (recorded e runs).rows ≡ some kept
unfolding recorded end_run begin
recorded-get_row i kept (begins false job_id started) runs other h = h
recorded-get_row i kept (begins true job_id started) runs other h =
    get_row-append i kept runs.rows _ h
recorded-get_row i kept (ends written job_id started exit run_id finished) runs other h =
    record_run-get_row i kept written job_id (status_of exit) started (detail_of exit) run_id
      finished runs other h
recorded-get_row i kept (notes written job_id status started detail finished) runs other h =
    record_run-get_row i kept written job_id status started (some detail) none finished runs refl h

module _ (i : ℕ) (kept : JobRun) where
  pub recorded_all-get_row :
      (es : List Event) (runs : Runs)
      → All (λ e. ends_run i e ≡ false) es
      → get_row i runs.rows ≡ some kept
      → get_row i (recorded_all es runs).rows ≡ some kept
  unfolding recorded_all
  recorded_all-get_row [] runs other h = h
  recorded_all-get_row (e ∷ es) runs other h =
      recorded_all-get_row es (recorded e runs) other.1 (recorded-get_row i kept e runs other.0 h)

pub recorded_all-IsTable :
    (es : List Event) (runs : Runs) → IsTable runs → IsTable (recorded_all es runs)
unfolding recorded_all
recorded_all-IsTable [] runs h = h
recorded_all-IsTable (e ∷ es) runs h =
    recorded_all-IsTable es (recorded e runs) (recorded-IsTable e runs h)
