-- ===== src/Router/Batch.antt =====
-- `Router._execute_batch` and `_collect_batch` of src/dudamel/router.py: one batch of tool calls.
-- The tasks of a batch start in the order of the plan; here each also ends before the next starts,
-- which decides only the order of the activity rows.
use dudamel.Prelude.{
  ℕ, ◌+◌, ◌-◌, Bool, true, false, ◌||◌, String, Option, none, some, List, [], ◌∷◌, ◌++◌, Text,
  codes, decimal, sorted, join_names, any, take, length, ltb, if◌then◌else◌,
}
use dudamel.Dict.{Dict, lookup, keys}
use dudamel.Llm.{Message, ToolCall, Role}
use dudamel.Llm.Json.{dumps}
use dudamel.Contract.{Tool, untrusted}
use dudamel.Store.{World}
use dudamel.Window.{truncate_tool_result}
use dudamel.Router.Env.{Env, ToolAnswer, log}
use dudamel.Router.Gate.{needs_confirm}

-- A call that runs carries the tool that the registry has for its name.
pub data Action : Type 0 where
  run : Tool → Action
  pending skip unknown : Action

abbrev pub Plan : Type 0
Plan = List (ToolCall × Action)

-- 1 for a call of an untrusted tool, 0 for a trusted or an unknown one
abbrev pub untrusted_count : Option Tool → ℕ
untrusted_count none = 0
untrusted_count (some tool) = if untrusted tool then 1 else 0

unfoldable pub untrusted_total : Dict Tool → List ToolCall → ℕ
untrusted_total tools [] = 0
untrusted_total tools (c ∷ cs) = untrusted_count (lookup c.name tools) + untrusted_total tools cs

-- The action for one call, given whether an earlier call is pending.
unfoldable pub action_for : Env → ℕ → Bool → Bool → Option Tool → Action
action_for env total turn_tainted waiting none = Action.unknown
action_for env total turn_tainted waiting (some tool) =
    if needs_confirm env.config tool turn_tainted (ltb 0 (total - untrusted_count (some tool)))
    then (if waiting then Action.skip else Action.pending)
    else Action.run tool

abbrev pub is_pending : Action → Bool
is_pending Action.pending = true
is_pending _ = false

unfoldable pub plan_calls : Env → ℕ → Bool → Bool → List ToolCall → Plan
plan_calls env total turn_tainted waiting [] = []
plan_calls env total turn_tainted waiting (c ∷ cs) =
    let action = action_for env total turn_tainted waiting (lookup c.name env.tools) in
    (c, action) ∷ plan_calls env total turn_tainted (waiting || is_pending action) cs

-- `outcome.pending_call`
unfoldable pub pending_call : Plan → Option ToolCall
pending_call [] = none
pending_call ((c, a) ∷ plan) = let rest = pending_call plan in if is_pending a then some c else rest

abbrev pub tool_message : Text → String → Bool → Message
tool_message text call_id is_error = record {
  role = Role.tool;
  text = text;
  tool_calls = [];
  tool_call_id = some call_id;
  is_error = is_error;
}

-- `_tool_error_text`
unfoldable pub tool_error_text : String → ToolAnswer → Text
tool_error_text name (ToolAnswer.unknown_outcome e) =
    codes "tool " ++ (codes name ++ (codes " did not report a definite outcome: " ++ e))
tool_error_text name (ToolAnswer.raised type_name e) =
    codes "tool " ++ (codes name ++ (codes " raised " ++ (type_name ++ (codes ": " ++ e))))
tool_error_text name _ = []

-- What `run_one` leaves: the message, and what it adds to the batch's two flags.
pub record Ran : Type 0 where
  pub message : Message
  pub executed : Bool
  pub untrusted_result : Bool

abbrev pub failed_call : Env → ℕ → ToolCall → Tool → Text → World → Ran × World
failed_call env conv call tool detail w = (
  record {
    message = truncate_tool_result (tool_message detail call.id true) env.config.tool_result_cap;
    executed = false;
    untrusted_result = untrusted tool;
  },
  log env call.name call.args "error" (some detail) conv w,
)

abbrev pub finished_call : Env → ℕ → ToolCall → Tool → Text → World → Ran × World
finished_call env conv call tool text w = (
  record {
    message = truncate_tool_result (tool_message text call.id false) env.config.tool_result_cap;
    executed = true;
    untrusted_result = untrusted tool;
  },
  log env call.name call.args "ok" (some text) conv w,
)

-- What follows the call of the tool's function.
unfoldable pub after_call : Env → ℕ → ToolCall → Tool → ToolAnswer → World → Ran × World
after_call env conv call tool (ToolAnswer.returned_text text) w =
    finished_call env conv call tool text w
after_call env conv call tool (ToolAnswer.returned_value v) w =
    finished_call env conv call tool (dumps v) w
after_call env conv call tool ToolAnswer.timed_out w =
    failed_call env conv call tool
      (codes "tool "
        ++ (codes call.name ++ (codes " timed out after " ++ (tool.timeout ++ codes "s"))))
      w
after_call env conv call tool answer w =
    failed_call env conv call tool (tool_error_text call.name answer) w

-- The function is called: the call is added to the trace.
abbrev pub dispatch : ToolCall → World → World
dispatch call w = record w { ran = w.ran ++ (call ∷ []) }

unfoldable pub after_validation : Env → ℕ → ToolCall → Tool → Option Text → World → Ran × World
after_validation env conv call tool (some e) w = failed_call env conv call tool e w
after_validation env conv call tool none w =
    after_call env conv call tool (env.call_tool (length w.ran) tool call.args) (dispatch call w)

unfoldable pub run_one : Env → ℕ → ToolCall → Tool → World → Ran × World
run_one env conv call tool w = after_validation env conv call tool (env.validate tool call.args) w

abbrev pub listed : ℕ
listed = 20

abbrev pub name_chars : ℕ
name_chars = 64

unfoldable pub more_names : ℕ → Text
more_names n = if ltb listed n then codes " and " ++ (decimal (n - listed) ++ codes " more") else []

-- The error for a name that the registry does not have.
unfoldable pub unknown_tool_text : Env → String → Text
unknown_tool_text env name =
    let names = sorted (keys env.tools) in
    codes "unknown tool "
    ++ (env.repr (take name_chars (codes name))
        ++ (codes "; available tools: "
            ++ (join_names (take listed names) ++ more_names (length names))))

-- The tasks: one for each call that runs, none for the others.
unfoldable pub run_tasks : Env → ℕ → Plan → World → List (Option Ran) × World
run_tasks env conv [] w = ([], w)
run_tasks env conv ((c, Action.run tool) ∷ plan) w =
    let (ran, w') = run_one env conv c tool w in
    let (rest, w'') = run_tasks env conv plan w' in (some ran ∷ rest, w'')
run_tasks env conv ((c, a) ∷ plan) w =
    let (rest, w') = run_tasks env conv plan w in (none ∷ rest, w')

-- The result of one entry of the plan; a pending call gets its result when it is resolved.
unfoldable pub result_for : Env → ToolCall → Action → Option Ran → List Message
result_for env c (Action.run tool) none = []
result_for env c (Action.run tool) (some ran) = ran.message ∷ []
result_for env c Action.pending ran = []
result_for env c Action.skip ran =
    tool_message (codes "not executed: another call in this batch awaits confirmation") c.id true
    ∷ []
result_for env c Action.unknown ran =
    truncate_tool_result (tool_message (unknown_tool_text env c.name) c.id true)
      env.config.tool_result_cap
    ∷ []

-- `_collect_batch`: the results in the order of the plan.
unfoldable pub collect_batch : Env → Plan → List (Option Ran) → List Message
collect_batch env ((c, a) ∷ plan) (ran ∷ tasks) =
    result_for env c a ran ++ collect_batch env plan tasks
collect_batch env _ _ = []

abbrev pub executed_option : Option Ran → Bool
executed_option none = false
executed_option (some ran) = ran.executed

abbrev pub untrusted_result_option : Option Ran → Bool
untrusted_result_option none = false
untrusted_result_option (some ran) = ran.untrusted_result

-- `_BatchOutcome`
pub record BatchOutcome : Type 0 where
  pub results : List Message
  pub pending : Option ToolCall
  pub executed_any : Bool
  pub saw_untrusted_result : Bool

abbrev pub plan_batch : Env → Bool → List ToolCall → Plan
plan_batch env turn_tainted calls =
    plan_calls env (untrusted_total env.tools calls) turn_tainted false calls

unfoldable pub execute_batch : Env → ℕ → Bool → List ToolCall → World → BatchOutcome × World
execute_batch env conv turn_tainted calls w =
    let plan = plan_batch env turn_tainted calls in
    let (tasks, w') = run_tasks env conv plan w in
    (
      record {
        results = collect_batch env plan tasks;
        pending = pending_call plan;
        executed_any = any executed_option tasks;
        saw_untrusted_result = any untrusted_result_option tasks;
      },
      w',
    )
