-- ===== src/Router/Confirm.antt =====
-- Confirmations in src/dudamel/router.py: `_auto_decline_pending`, `resolve_confirmation` and
-- `_execute_confirmed`, and `Router.handle`, which declines what a new message supersedes.
use dudamel.Prelude.{
  ℕ, ◌+◌, Bool, true, false, ◌&&◌, String, Option, none, some, List, [], ◌∷◌, ◌++◌, Text, codes,
  length, ltb, nat_eq, if◌then◌else◌,
}
use dudamel.Dict.{lookup}
use dudamel.Llm.{Message, Role, ToolCall}
use dudamel.Llm.Json.{dumps}
use dudamel.Contract.{Tool}
use dudamel.Window.{truncate_tool_result}
use dudamel.Store.{
  World, Confirmation, Status, is_pending, get_or_create, has_client_msg_id, append, append_many,
}
use dudamel.Router.Env.{Env, ToolAnswer, log}
use dudamel.Router.Batch.{tool_message, dispatch}
use dudamel.Router.Replies.{ChatReply, say, plain}
use dudamel.Router.Loop.{loop}

-- `_close_suspended_turn`: the assistant's message, the results that there are, and an error result
-- for the call that did not run, in one transaction.
unfoldable pub close_suspended_turn : Confirmation → Text → World → World
close_suspended_turn row note w =
    let state = row.loop_state in
    append_many row.conversation_id
      (state.assistant ∷ (state.results ++ (tool_message note state.pending_call_id true ∷ []))) w

abbrev pub status_name : Status → String
status_name Status.pending = "pending"
status_name Status.confirmed = "confirmed"
status_name Status.declined = "declined"
status_name Status.expired = "expired"

abbrev pub awaits : ℕ → Confirmation → Bool
awaits conv row = nat_eq row.conversation_id conv && is_pending row.status

-- What the first transaction of `_auto_decline_pending` leaves: the table, the rows that it closed,
-- and the readings of the clock, one for each of these.
pub record Sweep : Type 0 where
  pub table : List Confirmation
  pub closed : List Confirmation
  pub reads : ℕ

abbrev pub close_row : Env → ℕ → Confirmation → Confirmation
close_row env reads row = record row {
  status = if ltb row.expires_at (env.read_clock reads) then Status.expired else Status.declined;
}

unfoldable pub sweep : Env → ℕ → ℕ → List Confirmation → Sweep
sweep env conv reads [] = record { table = []; closed = []; reads = reads }
sweep env conv reads (row ∷ rows) =
    let found = awaits conv row in
    let rest = sweep env conv (if found then reads + 1 else reads) rows in
    if found
    then record {
      table = close_row env reads row ∷ rest.table;
      closed = close_row env reads row ∷ rest.closed;
      reads = rest.reads;
    }
    else record rest { table = row ∷ rest.table }

-- Its second half: each closed row's turn is closed, and logged under the row's status.
unfoldable pub close_all : Env → List Confirmation → World → World
close_all env [] w = w
close_all env (row ∷ rows) w = close_all env rows (
    log env row.tool row.args (status_name row.status) (some (codes "auto-declined"))
      row.conversation_id (close_suspended_turn row (codes "declined (superseded)") w))

-- `_auto_decline_pending`
unfoldable pub auto_decline_pending : Env → ℕ → World → World
auto_decline_pending env conv w =
    let swept = sweep env conv w.clock_reads w.confirmations in
    close_all env swept.closed (record w { confirmations = swept.table; clock_reads = swept.reads })

-- `handle`, after the duplicate check.
unfoldable pub handle_new :
    Env → ℕ → Text → String → Option String → String → World → ChatReply × World
handle_new env conv text user_id client_msg_id tier w =
    let (appended, w') =
      append conv (plain Role.user text) client_msg_id (auto_decline_pending env conv w) in
    if appended
    then loop env
        (record {
          conv_id = conv;
          tier = tier;
          user_id = user_id;
          start_iteration = 0;
          executed_any = false;
          initial_taint = false;
          resumed_offered = none;
          resumed_called = none;
        })
        w'
    else (say [], w')

unfoldable pub is_duplicate : ℕ → Option String → World → Bool
is_duplicate conv none w = false
is_duplicate conv (some i) w = has_client_msg_id conv i w

-- `handle`: a user's message.
unfoldable pub handle :
    Env → String → Text → String → Option String → String → World → ChatReply × World
handle env channel text user_id client_msg_id tier w =
    let (conv, w') = get_or_create channel w in
    if is_duplicate conv client_msg_id w'
    then (say [], w')
    else handle_new env conv text user_id client_msg_id tier w'

-- `_confirmed_error_text`
unfoldable pub confirmed_error_text : String → ToolAnswer → Text
confirmed_error_text name (ToolAnswer.unknown_outcome e) =
    codes "confirmed tool " ++ (codes name ++ (codes " did not report a definite outcome: " ++ e))
confirmed_error_text name (ToolAnswer.raised type_name e) =
    codes "confirmed tool "
    ++ (codes name ++ (codes " failed: " ++ (type_name ++ (codes ": " ++ e))))
confirmed_error_text name ToolAnswer.timed_out =
    codes "confirmed tool " ++ (codes name ++ codes " failed: TimeoutError: ")
confirmed_error_text name _ = []

abbrev pub confirmed_failure : Env → ℕ → ToolCall → Text → World → Message × World
confirmed_failure env conv call detail w = (
  truncate_tool_result (tool_message detail call.id true) env.config.tool_result_cap,
  log env call.name call.args "error" (some detail) conv w,
)

abbrev pub confirmed_success : Env → ℕ → ToolCall → Text → World → Message × World
confirmed_success env conv call text w = (
  truncate_tool_result (tool_message text call.id false) env.config.tool_result_cap,
  log env call.name call.args "confirmed" (some text) conv w,
)

unfoldable pub after_confirmed : Env → ℕ → ToolCall → ToolAnswer → World → Message × World
after_confirmed env conv call (ToolAnswer.returned_text text) w =
    confirmed_success env conv call text w
after_confirmed env conv call (ToolAnswer.returned_value v) w =
    confirmed_success env conv call (dumps v) w
after_confirmed env conv call answer w =
    confirmed_failure env conv call (confirmed_error_text call.name answer) w

unfoldable pub confirmed_validation :
    Env → ℕ → ToolCall → Tool → Option Text → World → Message × World
confirmed_validation env conv call tool (some e) w =
    confirmed_failure env conv call
      (confirmed_error_text call.name (ToolAnswer.raised (codes "ToolValidationError") e)) w
confirmed_validation env conv call tool none w =
    after_confirmed env conv call (env.call_tool (length w.ran) tool call.args) (dispatch call w)

unfoldable pub run_confirmed : Env → ℕ → ToolCall → Option Tool → World → Message × World
run_confirmed env conv call none w = (
  tool_message (codes "tool " ++ (env.repr (codes call.name) ++ codes " no longer exists")) call.id
      true,
  w,
)
run_confirmed env conv call (some tool) w =
    confirmed_validation env conv call tool (env.validate tool call.args) w

-- `_execute_confirmed`
unfoldable pub execute_confirmed : Env → ℕ → ToolCall → World → Message × World
execute_confirmed env conv call w = run_confirmed env conv call (lookup call.name env.tools) w
