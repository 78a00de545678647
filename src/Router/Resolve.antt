-- ===== src/Router/Resolve.antt =====
-- `Router.resolve_confirmation` of src/dudamel/router.py. The read under the conversation's lock is
-- the one that is modelled; the first, unlocked read decides the same absence.
use dudamel.Prelude.{
  ℕ, ◌+◌, Bool, true, not, ◌||◌, String, ◌==◌, Option, none, some, List, [], ◌∷◌, ◌++◌, codes, ltb,
  any, if◌then◌else◌,
}
use dudamel.Llm.{Message, ToolCall}
use dudamel.Store.{World, Confirmation, Status, is_pending, append_many}
use dudamel.Router.Env.{Env, log}
use dudamel.Router.Gate.{untrusted_name}
use dudamel.Router.Replies.{ChatReply, say}
use dudamel.Router.Loop.{Start, loop}
use dudamel.Router.Confirm.{close_suspended_turn, status_name, execute_confirmed}

-- The row of an id, which is the table's primary key.
unfoldable pub find_confirmation : String → List Confirmation → Option Confirmation
find_confirmation i [] = none
find_confirmation i (row ∷ rows) = if row.id == i then some row else find_confirmation i rows

-- `row.status = ...`, committed
unfoldable pub set_status : String → Status → List Confirmation → List Confirmation
set_status i status [] = []
set_status i status (row ∷ rows) =
    if row.id == i then record row { status = status } ∷ rows else row ∷ set_status i status rows

abbrev pub results_have_success : List Message → Bool
results_have_success = any (λ m. not m.is_error)

-- The loop that goes on where the turn was suspended.
abbrev pub resumed : Confirmation → String → Bool → Bool → Start
resumed row user_id executed_any initial_taint = record {
  conv_id = row.conversation_id;
  tier = row.loop_state.tier;
  user_id = user_id;
  start_iteration = row.loop_state.iteration + 1;
  executed_any = executed_any;
  initial_taint = initial_taint;
  resumed_offered = row.loop_state.offered_tools;
  resumed_called = row.loop_state.called_tools;
}

unfoldable pub resolve_expired : Env → Confirmation → World → ChatReply × World
resolve_expired env row w = (
  say (codes "That confirmation expired; nothing was done."),
  log env row.tool row.args (status_name Status.expired) (some (codes "expired"))
      row.conversation_id (close_suspended_turn row (codes "declined (expired)") w),
)

unfoldable pub resolve_declined : Env → Confirmation → String → World → ChatReply × World
resolve_declined env row user_id w =
    loop env
      (resumed row user_id
        (row.loop_state.executed_any || results_have_success row.loop_state.results)
        row.loop_state.turn_tainted)
      (log env row.tool row.args "declined" none row.conversation_id
        (close_suspended_turn row (codes "declined by user") w))

-- The gated call runs now; then the suspended messages and its result are stored together.
unfoldable pub resolve_approved : Env → Confirmation → String → World → ChatReply × World
resolve_approved env row user_id w =
    let call : ToolCall = record {
      id = row.loop_state.pending_call_id;
      name = row.tool;
      args = row.args;
    } in
    let (result, w') = execute_confirmed env row.conversation_id call w in
    loop env
      (resumed row user_id
        (row.loop_state.executed_any
          || (results_have_success row.loop_state.results || not result.is_error))
        (row.loop_state.turn_tainted || untrusted_name env.tools row.tool))
      (append_many row.conversation_id
        (row.loop_state.assistant ∷ (row.loop_state.results ++ (result ∷ []))) w')

-- The requester has answered a pending row at the time `now`.
unfoldable pub settle : Env → Confirmation → Bool → String → ℕ → World → ChatReply × World
settle env row approved user_id now w =
    if ltb row.expires_at now
    then resolve_expired env row
        (record w { confirmations = set_status row.id Status.expired w.confirmations })
    else if approved
    then resolve_approved env row user_id
        (record w { confirmations = set_status row.id Status.confirmed w.confirmations })
    else resolve_declined env row user_id
        (record w { confirmations = set_status row.id Status.declined w.confirmations })

unfoldable pub resolve_row : Env → Bool → String → Option Confirmation → World → ChatReply × World
resolve_row env approved user_id none w =
    (say (codes "Unknown confirmation — it may already be resolved."), w)
resolve_row env approved user_id (some row) w =
    if not (is_pending row.status)
    then (
      say (
          codes "Unknown confirmation — already " ++ (codes (status_name row.status) ++ codes ".")),
      w,
    )
    else if not (row.user_id == user_id)
    then (
      record {
        text = codes "Only the requester can resolve this confirmation.";
        pending_confirmation_id = none;
        refused = true;
      },
      w,
    )
    else settle env row approved user_id (env.read_clock w.clock_reads)
        (record w { clock_reads = w.clock_reads + 1 })

unfoldable pub resolve_confirmation : Env → String → Bool → String → World → ChatReply × World
resolve_confirmation env i approved user_id w =
    resolve_row env approved user_id (find_confirmation i w.confirmations) w
