-- ===== src/Router/Once.antt =====
-- `Router.resolve_confirmation` of src/dudamel/router.py: a confirmation is resolved once.
use dudamel.Prelude.{
  ℕ, ◌+◌, ◌≡◌, refl, ap, sym, subst, ◌∙◌, Bool, true, false, String, ◌==◌, some, List, [], ◌∷◌,
  ◌++◌, arith, inl, inr, Bool-cases, ltb, eq_iff, codes,
}
use dudamel.Llm.{Message, ToolCall}
use dudamel.Store.{World, Confirmation, Status, is_pending, append_many}
use dudamel.Router.Env.{Env}
use dudamel.Router.Confirm.{execute_confirmed}
use dudamel.Router.Resolve.{
  find_confirmation, set_status, resolve_expired, resolve_declined, resolve_approved, settle,
  resolve_row, resolve_confirmation,
}
use dudamel.Router.Guard.{CompactorKeeps}
use dudamel.Router.History.{append_many-confirmations}
use dudamel.Router.Settle.{execute_confirmed-IsSame}
use dudamel.Router.Grows.{Grows, Grows-same, Grows-trans, loop-Grows, log-Grows}

-- What settling a row leaves: the row has a final status, and rows are only added.
record Settles (row : Confirmation) (w w' : World) : Type 0 where
  status : Status
  final : is_pending status ≡ false
  added : List Confirmation
  grown : w'.confirmations ≡ set_status row.id status w.confirmations ++ added

Grows-Settles :
    (row : Confirmation) (status : Status) (w w' : World)
    → is_pending status ≡ false
    → Grows (record w { confirmations = set_status row.id status w.confirmations }) w'
    → Settles row w w'
Grows-Settles row status w w' final grows = record {
  status = status;
  final = final;
  added = grows.added;
  grown = grows.grown;
}

module _ (env : Env) (keeps : CompactorKeeps env.compactor) (row : Confirmation)
    (user_id : String) where
  expired-Grows : (w : World) → Grows w (resolve_expired env row w).1
  unfolding resolve_expired
  expired-Grows w = log-Grows env row _ _ (codes "declined (expired)") w

  declined-Grows : (w : World) → Grows w (resolve_declined env row user_id w).1
  unfolding resolve_declined
  declined-Grows w =
      Grows-trans (log-Grows env row _ _ (codes "declined by user") w) (loop-Grows env _ _ keeps)

  approved-Grows : (w : World) → Grows w (resolve_approved env row user_id w).1
  unfolding resolve_approved
  approved-Grows w =
      let call : ToolCall = record {
        id = row.loop_state.pending_call_id;
        name = row.tool;
        args = row.args;
      } in
      let (result, w') = execute_confirmed env row.conversation_id call w in
      let messages : List Message =
        row.loop_state.assistant ∷ (row.loop_state.results ++ (result ∷ [])) in
      let (answer, same) = execute_confirmed-IsSame env row.conversation_id call w in
      Grows-trans {w' = append_many row.conversation_id messages w'}
        (Grows-same
          (append_many-confirmations row.conversation_id messages w' ∙ same.confirmations))
        (loop-Grows env _ _ keeps)

  settle-Settles :
      (approved : Bool) (now : ℕ) (w : World)
      → Settles row w (settle env row approved user_id now w).1
  unfolding settle
  settle-Settles approved now w = elim (Bool-cases (ltb row.expires_at now)) [
    | inl e ↦ rw e (Grows-Settles row Status.expired w _ refl (expired-Grows _))
    | inr e ↦ rw e (elim (Bool-cases approved) [
      | inl agreed ↦ rw agreed (Grows-Settles row Status.confirmed w _ refl (approved-Grows _))
      | inr refused ↦ rw refused (Grows-Settles row Status.declined w _ refl (declined-Grows _))
    ])
  ]

find_confirmation-id :
    (i : String) (rows : List Confirmation) (row : Confirmation)
    → find_confirmation i rows ≡ some row
    → row.id ≡ i
unfolding find_confirmation
find_confirmation-id i [] row found = ground arith
find_confirmation-id i (r ∷ rows) row found =
    ground (arith, eq_iff r.id i, find_confirmation-id i rows row)

-- The row of an id after its status is set, whatever rows follow.
find_confirmation-set_status :
    (i : String) (status : Status) (rows added : List Confirmation) (row : Confirmation)
    → find_confirmation i rows ≡ some row
    → find_confirmation i (set_status i status rows ++ added)
      ≡ some (record row { status = status })
unfolding find_confirmation set_status
find_confirmation-set_status i status [] added row found = ground arith
find_confirmation-set_status i status (r ∷ rows) added row found =
    ground (arith, find_confirmation-set_status i status rows added row)

-- A row that is not pending is refused without any effect.
resolved_row-inert :
    (env : Env) (approved : Bool) (user_id : String) (row : Confirmation) (w : World)
    → is_pending row.status ≡ false
    → (resolve_row env approved user_id (some row) w).1 ≡ w
unfolding resolve_row
resolved_row-inert env approved user_id row w settled = rw settled refl

Settles-inert :
    (env : Env) (i : String) (approved : Bool) (user_id : String) (row : Confirmation)
    (w w' : World)
    → find_confirmation i w.confirmations ≡ some row
    → Settles row w w'
    → (resolve_confirmation env i approved user_id w').1 ≡ w'
unfolding resolve_confirmation
Settles-inert env i approved user_id row w w' found settles =
    let table : w'.confirmations ≡ set_status i settles.status w.confirmations ++ settles.added =
      settles.grown
      ∙ ap (λ j. set_status j settles.status w.confirmations ++ settles.added)
          (find_confirmation-id i w.confirmations row found) in
    let again : find_confirmation i w'.confirmations
        ≡ some (record row { status = settles.status }) =
      ap (λ (rows : List Confirmation). find_confirmation i rows) table
      ∙ find_confirmation-set_status i settles.status w.confirmations settles.added row found in
    rw again (
      resolved_row-inert env approved user_id (record row { status = settles.status }) w'
        settles.final)

find_confirmation-resolved :
    (later : Env) (i : String) (again : Bool) (other : String) (row : Confirmation) (w : World)
    → find_confirmation i w.confirmations ≡ some row
    → is_pending row.status ≡ false
    → (resolve_confirmation later i again other w).1 ≡ w
unfolding resolve_confirmation
find_confirmation-resolved later i again other row w found settled =
    rw found (resolved_row-inert later again other row w settled)

resolved-inert :
    (env later : Env) (i : String) (approved again : Bool) (user_id other : String)
    (row : Confirmation) (w : World)
    → CompactorKeeps env.compactor
    → find_confirmation i w.confirmations ≡ some row
    → (row.user_id == user_id) ≡ true
    → let w' = (resolve_row env approved user_id (some row) w).1 in
      (resolve_confirmation later i again other w').1 ≡ w'
unfolding resolve_row
resolved-inert env later i approved again user_id other row w keeps found own =
    let read : World = record w { clock_reads = w.clock_reads + 1 } in
    let settles =
      settle-Settles env keeps row user_id approved (env.read_clock w.clock_reads) read in
    elim (Bool-cases (is_pending row.status)) [
      | inl waits ↦ rw (waits, own) (Settles-inert later i again other row read _ found settles)
      | inr settled ↦
          rw settled (find_confirmation-resolved later i again other row w found settled)
    ]

-- Once the requester has answered a stored confirmation, answering it again, by anyone and with
-- any answer, changes nothing at all: no tool is called, no message is stored, no clock is read. A
-- compactor is assumed to change neither the messages nor the confirmations.
pub resolve_confirmation-once :
    (env later : Env) (i : String) (approved again : Bool) (user_id other : String)
    (row : Confirmation) (w : World)
    → CompactorKeeps env.compactor
    → find_confirmation i w.confirmations ≡ some row
    → (row.user_id == user_id) ≡ true
    → let w' = (resolve_confirmation env i approved user_id w).1 in
      (resolve_confirmation later i again other w').1 ≡ w'
unfolding resolve_confirmation
resolve_confirmation-once env later i approved again user_id other row w keeps found own =
    subst
      (λ o.
        let w' = (resolve_row env approved user_id o w).1 in
        (resolve_confirmation later i again other w').1 ≡ w')
      (sym found) (resolved-inert env later i approved again user_id other row w keeps found own)
