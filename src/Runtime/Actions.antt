-- ===== src/Runtime/Actions.antt =====
-- `run_action` of src/dudamel/runtime.py: an action is run without the model.
-- How a tool coerces its arguments and how its function ends are parameters, and so is whether the
-- database takes the row; where it does not, its error takes the place of the answer.
pub mod Audited
use dudamel.Prelude.{
  ℕ, ◌+◌, ◌-◌, Bool, true, false, String, ◌==◌, Option, none, some, List, [], ◌∷◌, ◌++◌, Text,
  codes, take, length, ltb, if◌then◌else◌,
}
use dudamel.Dict.{Dict, lookup}
use dudamel.Llm.Json.{Fields}
use dudamel.Contract.{Tool}
use dudamel.Registry.{Registry}
use dudamel.Store.{preview}
use dudamel.Window.Marker.{marker}

-- How the function ends: a text is its result as text, or what `str` gives of its error, or the
-- error's type where that is empty.
pub data ToolEnd : Type 0 where
  returned : Text → ToolEnd
  timeout_error : Bool → Text → ToolEnd
  failed : Text → ToolEnd

pub data Coerced : Type 0 where
  coerced : Fields → Coerced
  rejected : Text → Coerced

pub data ActionAnswer : Type 0 where
  answered : Text → ActionAnswer
  unknown_action log_failed : ActionAnswer
  bad_arguments timed_out raised : Text → ActionAnswer

-- A row of `activity` as an action writes it.
pub record ActionRow : Type 0 where
  pub tool : String
  pub args : Fields
  pub status : String
  pub result_preview : Option Text
  pub actor : String
  pub source : String

-- The rows, and the calls of tool functions.
pub record Audit : Type 0 where
  pub rows : List ActionRow
  pub calls : List (String × Fields)

pub record ActionEnv : Type 0 where
  pub coerce : Tool → Fields → Coerced
  pub call : Tool → Fields → ToolEnd
  pub written : Bool
  pub tool_result_cap : ℕ

-- Who asks for what.
pub record ActionCall : Type 0 where
  pub tool_name : String
  pub args : Fields
  pub actor : String
  pub source : String

abbrev pub action_row : ActionCall → String → Text → ActionRow
action_row c status text = record {
  tool = c.tool_name;
  args = c.args;
  status = status;
  result_preview = preview (some text);
  actor = c.actor;
  source = c.source;
}

-- `log_activity`, and what follows it
unfoldable pub logged : Bool → ActionRow → ActionAnswer → Audit → ActionAnswer × Audit
logged true row answer audit = (answer, record audit { rows = audit.rows ++ (row ∷ []) })
logged false row answer audit = (log_failed, audit)

unfoldable pub capped_result : ℕ → Text → Text
unfolding marker
capped_result cap t = if ltb cap (length t) then take cap t ++ marker (length t - cap) else t

abbrev pub deadline_detail : ActionCall → Tool → Text
deadline_detail c tool =
    codes "action "
    ++ (codes c.tool_name ++ (codes " timed out after " ++ (tool.timeout ++ codes "s")))

module _ (env : ActionEnv) (c : ActionCall) where
  unfoldable pub after_call : Tool → ToolEnd → Audit → ActionAnswer × Audit
  unfolding logged capped_result
  after_call tool (returned text) audit =
      let shown = capped_result env.tool_result_cap text in
      logged env.written (action_row c "ok" shown) (answered shown) audit
  after_call tool (timeout_error true text) audit =
      let detail = deadline_detail c tool in
      logged env.written (action_row c "error" detail) (timed_out detail) audit
  after_call tool (timeout_error false text) audit =
      logged env.written (action_row c "error" text) (raised text) audit
  after_call tool (failed text) audit =
      logged env.written (action_row c "error" text) (raised text) audit

  unfoldable pub with_arguments : Tool → Coerced → Audit → ActionAnswer × Audit
  unfolding after_call
  with_arguments tool (coerced kwargs) audit =
      after_call tool (env.call tool kwargs)
        (record audit { calls = audit.calls ++ ((c.tool_name, kwargs) ∷ []) })
  with_arguments tool (rejected text) audit =
      logged env.written (action_row c "error" text) (bad_arguments text) audit

  abbrev pub with_label : Tool → Option Text → Audit → ActionAnswer × Audit
  with_label tool none audit = (unknown_action, audit)
  with_label tool (some label) audit = with_arguments tool (env.coerce tool c.args) audit

  abbrev pub with_tool : Option Tool → Audit → ActionAnswer × Audit
  with_tool none audit = (unknown_action, audit)
  with_tool (some tool) audit = with_label tool tool.action audit

  unfoldable pub run_action : Registry → Audit → ActionAnswer × Audit
  unfolding with_arguments
  run_action r audit = with_tool (lookup c.tool_name r.tools) audit
