-- ===== src/Scheduler/Latest.antt =====
-- src/dudamel/scheduler.py: the latest start of a job, which the next start of the process reads.
use dudamel.Prelude.{
  ℕ, ◌≤◌, ◌≡◌, refl, true, false, Option, none, some, inl, inr, List, [], ◌∷◌, ◌++◌, Text, All,
  Bool-cases, text_eq, arith,
}
use dudamel.Scheduler.{Status, Detail, JobRun, later, last_started, Startup}

-- The row that a report adds, where its write is taken.
abbrev misfire : Startup → Text → ℕ → Detail → JobRun
misfire startup job_id i detail = record {
  id = i;
  job_id = job_id;
  status = Status.misfired;
  started_at = startup.now;
  finished_at = some (startup.finished job_id);
  detail = some detail;
}

abbrev pub NotLater : ℕ → List JobRun → Type 0
NotLater now rows = All (λ (r : JobRun). r.started_at ≤ now) rows

abbrev IsBy : ℕ → Option ℕ → Type 0
IsBy now none = Unit
IsBy now (some t) = t ≤ now

later-IsBy : (now t : ℕ) (o : Option ℕ) → t ≤ now → IsBy now o → IsBy now (later t o)
later-IsBy now t none h k = h
later-IsBy now t (some u) h k = omega arith

pub text_eq_refl : (t : Text) → text_eq t t ≡ true
unfolding text_eq
text_eq_refl [] = refl
text_eq_refl (c ∷ t) = ground (arith, text_eq_refl t)

module _ (now : ℕ) (id : Text) where
  last_started-IsBy : (rows : List JobRun) → NotLater now rows → IsBy now (last_started id rows)
  unfolding last_started
  last_started-IsBy [] h = tt
  last_started-IsBy (r ∷ rows) h = elim (Bool-cases (text_eq r.job_id id)) [
    | inl e ↦
        rw e (later-IsBy now r.started_at (last_started id rows) h.0 (last_started-IsBy rows h.1))
    | inr e ↦ rw e (last_started-IsBy rows h.1)
  ]

  later-now : (t : ℕ) (o : Option ℕ) → t ≤ now → o ≡ some now → later t o ≡ some now
  later-now t none h e = absurd (ground arith)
  later-now t (some u) h e = ground arith

  -- A row of this moment is the latest one of its job.
  pub last_started-now :
      (rows : List JobRun) (r : JobRun)
      → NotLater now rows
      → r.started_at ≡ now
      → text_eq r.job_id id ≡ true
      → last_started id (rows ++ (r ∷ [])) ≡ some now
  unfolding last_started
  last_started-now [] r h e same = rw (same, e) refl
  last_started-now (s ∷ rows) r h e same = elim (Bool-cases (text_eq s.job_id id)) [
    | inl e' ↦ rw e' (later-now s.started_at _ h.0 (last_started-now rows r h.1 e same))
    | inr e' ↦ rw e' (last_started-now rows r h.1 e same)
  ]

  pub last_started-other :
      (rows : List JobRun) (r : JobRun)
      → text_eq r.job_id id ≡ false
      → last_started id (rows ++ (r ∷ [])) ≡ last_started id rows
  unfolding last_started
  last_started-other [] r other = rw other refl
  last_started-other (s ∷ rows) r other = rw (last_started-other rows r other) refl
