-- ===== src/Router/Settle.antt =====
-- `Router.resolve_confirmation` of src/dudamel/router.py: what an answered confirmation leaves of
-- the stored histories.
use dudamel.Prelude.{
  ℕ, ◌+◌, refl, Bool, true, false, String, ◌==◌, Option, none, some, List, [], ◌∷◌, inl, inr,
  Bool-cases, ltb, Text, codes,
}
use dudamel.Dict.{lookup}
use dudamel.Llm.{ToolCall}
use dudamel.Window.Pairs.{IsAnswerTo}
use dudamel.Contract.{Tool}
use dudamel.Store.{World, Confirmation, Status, is_pending}
use dudamel.Router.Env.{Env, ToolAnswer}
use dudamel.Router.Confirm.{after_confirmed, confirmed_validation, run_confirmed, execute_confirmed}
use dudamel.Router.Resolve.{
  find_confirmation, set_status, resolve_expired, resolve_declined, resolve_approved, settle,
  resolve_row, resolve_confirmation,
}
use dudamel.Router.Guard.{CompactorKeeps}
use dudamel.Router.Answers.{truncated-IsAnswerTo}
use dudamel.Router.History.{
  IsSuspended, IsSuspended-close, IsSound, IsSame, IsSame-refl, IsSame-trans, IsSame-IsSound,
  append_many-IsSound,
}
use dudamel.Router.Sound.{loop-IsSound}
use dudamel.Router.Unchanged.{log-IsSame}
use dudamel.Router.Handled.{AllSuspended, log-IsSound, close-IsSound}

after_confirmed-IsSame :
    (env : Env) (conv : ℕ) (c : ToolCall) (answer : ToolAnswer) (w : World)
    → IsAnswerTo c.id (after_confirmed env conv c answer w).0
      × IsSame w (after_confirmed env conv c answer w).1
unfolding after_confirmed
after_confirmed-IsSame env conv c (ToolAnswer.returned_text t) w =
    (truncated-IsAnswerTo t c.id false env.config.tool_result_cap, log-IsSame env _ _ _ _ _ w)
after_confirmed-IsSame env conv c _ w =
    (truncated-IsAnswerTo _ c.id _ env.config.tool_result_cap, log-IsSame env _ _ _ _ _ w)

confirmed_validation-IsSame :
    (env : Env) (conv : ℕ) (c : ToolCall) (tool : Tool) (o : Option Text) (w : World)
    → IsAnswerTo c.id (confirmed_validation env conv c tool o w).0
      × IsSame w (confirmed_validation env conv c tool o w).1
unfolding confirmed_validation
confirmed_validation-IsSame env conv c tool (some e) w =
    (truncated-IsAnswerTo _ c.id true env.config.tool_result_cap, log-IsSame env _ _ _ _ _ w)
confirmed_validation-IsSame env conv c tool none w =
    let (answer, same) = after_confirmed-IsSame env conv c _ _ in
    (answer, IsSame-trans (record { rows = refl; confirmations = refl }) same)

-- The confirmed call is answered, and only answered.
pub execute_confirmed-IsSame :
    (env : Env) (conv : ℕ) (c : ToolCall) (w : World)
    → IsAnswerTo c.id (execute_confirmed env conv c w).0
      × IsSame w (execute_confirmed env conv c w).1
unfolding execute_confirmed
execute_confirmed-IsSame env conv c w = for_tool (lookup c.name env.tools)
  where
    for_tool :
        (o : Option Tool)
        → IsAnswerTo c.id (run_confirmed env conv c o w).0
          × IsSame w (run_confirmed env conv c o w).1
    for_tool none = unfold run_confirmed in ((refl, refl), IsSame-refl w)
    for_tool (some tool) = unfold run_confirmed in confirmed_validation-IsSame env conv c tool _ w

set_status-AllSuspended :
    (i : String) (status : Status) (rows : List Confirmation)
    → AllSuspended rows
    → AllSuspended (set_status i status rows)
unfolding set_status
set_status-AllSuspended i status [] h = tt
set_status-AllSuspended i status (row ∷ rows) h =
    let rest = set_status-AllSuspended i status rows h.1 in
    elim (Bool-cases (row.id == i)) [ inl e ↦ rw e (h.0, h.1) | inr e ↦ rw e (h.0, rest) ]

set_status-IsSound :
    (i : String) (status : Status) (w : World)
    → IsSound w
    → IsSound (record w { confirmations = set_status i status w.confirmations })
set_status-IsSound i status w h = record {
  closed = h.closed;
  suspended = set_status-AllSuspended i status w.confirmations h.suspended;
}

SuspendedOption : Option Confirmation → Type 0
SuspendedOption none = Unit
SuspendedOption (some row) = IsSuspended row.loop_state

find_confirmation-Suspended :
    (i : String) (rows : List Confirmation)
    → AllSuspended rows
    → SuspendedOption (find_confirmation i rows)
unfolding find_confirmation SuspendedOption
find_confirmation-Suspended i [] h = tt
find_confirmation-Suspended i (row ∷ rows) h =
    let rest = find_confirmation-Suspended i rows h.1 in
    elim (Bool-cases (row.id == i)) [ inl e ↦ rw e h.0 | inr e ↦ rw e rest ]

module _ (env : Env) (keeps : CompactorKeeps env.compactor) (row : Confirmation)
    (suspended : IsSuspended row.loop_state) (user_id : String) where
  resolve_expired-IsSound : (w : World) → IsSound w → IsSound (resolve_expired env row w).1
  unfolding resolve_expired
  resolve_expired-IsSound w h =
      log-IsSound env _ _ _ _ _ _ (close-IsSound row (codes "declined (expired)") w suspended h)

  resolve_declined-IsSound :
      (w : World) → IsSound w → IsSound (resolve_declined env row user_id w).1
  unfolding resolve_declined
  resolve_declined-IsSound w h =
      loop-IsSound env _ _ keeps
        (log-IsSound env _ _ _ _ _ _ (close-IsSound row (codes "declined by user") w suspended h))

  resolve_approved-IsSound :
      (w : World) → IsSound w → IsSound (resolve_approved env row user_id w).1
  unfolding resolve_approved
  resolve_approved-IsSound w h =
      let (answer, same) =
        execute_confirmed-IsSame env row.conversation_id
          (record { id = row.loop_state.pending_call_id; name = row.tool; args = row.args }) w in
      loop-IsSound env _ _ keeps (
        append_many-IsSound row.conversation_id _ _
          (IsSuspended-close row.loop_state _ suspended answer) (IsSame-IsSound same h))

  settle-IsSound :
      (approved : Bool) (now : ℕ) (w : World)
      → IsSound w
      → IsSound (settle env row approved user_id now w).1
  unfolding settle
  settle-IsSound approved now w h = elim (Bool-cases (ltb row.expires_at now)) [
    | inl e ↦ rw e (resolve_expired-IsSound _ (set_status-IsSound row.id Status.expired w h))
    | inr e ↦ rw e (elim (Bool-cases approved) [
      | inl agreed ↦
          rw agreed (resolve_approved-IsSound _ (set_status-IsSound row.id Status.confirmed w h))
      | inr refused ↦
          rw refused (resolve_declined-IsSound _ (set_status-IsSound row.id Status.declined w h))
    ])
  ]

resolve_row-IsSound :
    (env : Env) (approved : Bool) (user_id : String) (o : Option Confirmation) (w : World)
    → CompactorKeeps env.compactor
    → SuspendedOption o
    → IsSound w
    → IsSound (resolve_row env approved user_id o w).1
unfolding resolve_row SuspendedOption
resolve_row-IsSound env approved user_id none w keeps suspended h = h
resolve_row-IsSound env approved user_id (some row) w keeps suspended h =
    let settled =
      settle-IsSound env keeps row suspended user_id approved (env.read_clock w.clock_reads)
        (record w { clock_reads = w.clock_reads + 1 })
        (record { closed = h.closed; suspended = h.suspended }) in
    elim (Bool-cases (is_pending row.status)) [
      | inr e ↦ rw e h
      | inl e ↦ rw e (elim (Bool-cases (row.user_id == user_id)) [
        | inr other ↦ rw other h
        | inl own ↦ rw own settled
      ])
    ]

-- Answering a confirmation, on every path (an unknown id, a resolved row, another user, an expired
-- row, approval with any outcome of the tool, refusal), keeps the histories sound.
pub resolve_confirmation-IsSound :
    (env : Env) (i : String) (approved : Bool) (user_id : String) (w : World)
    → CompactorKeeps env.compactor
    → IsSound w
    → IsSound (resolve_confirmation env i approved user_id w).1
unfolding resolve_confirmation
resolve_confirmation-IsSound env i approved user_id w keeps h =
    resolve_row-IsSound env approved user_id (find_confirmation i w.confirmations) w keeps
      (find_confirmation-Suspended i w.confirmations h.suspended) h
