-- ===== src/Router/Env.antt =====
-- What a turn takes from outside src/dudamel/router.py: its configuration (config.py,
-- `RouterConfig`), the registered tools, and the answers of everything the repository only calls.
use dudamel.Prelude.{ℕ, ◌+◌, Bool, true, false, String, Option, List, Text, if◌then◌else◌}
use dudamel.Dict.{Dict}
use dudamel.Llm.{Message}
use dudamel.Llm.Json.{Json, Fields}
use dudamel.Contract.{Tool}
use dudamel.Store.{World, Summary, log_activity}

pub data TaintMode : Type 0 where
  turn window off : TaintMode

abbrev pub is_off : TaintMode → Bool
is_off off = true
is_off _ = false

abbrev pub is_window : TaintMode → Bool
is_window window = true
is_window _ = false

pub record Config : Type 0 where
  pub iteration_cap : ℕ
  pub window_tokens : ℕ
  pub tool_result_cap : ℕ
  pub max_tools : ℕ
  pub confirm_ttl_seconds : ℕ
  pub taint_mode : TaintMode
  pub persona : Option Text

-- How a call of a tool's function ends: with a text, with another value (given as the JSON that
-- `json_safe` makes of it), by the timeout, by an exception (its type's name and its text), or by
-- `UnknownToolOutcome`.
pub data ToolAnswer : Type 0 where
  returned_text : Text → ToolAnswer
  returned_value : Json → ToolAnswer
  timed_out : ToolAnswer
  raised : Text → Text → ToolAnswer
  unknown_outcome : Text → ToolAnswer

-- How a model call ends: a completion, `BudgetExceededError`, `ProviderRequestError`, or any other
-- `LLMError`, each with its text.
pub data ModelAnswer : Type 0 where
  completion : Message → ModelAnswer
  budget_exceeded : Text → ModelAnswer
  request_rejected : Text → ModelAnswer
  model_failed : Text → ModelAnswer

-- The interface of `Compactor` (src/dudamel/compaction.py) that a turn uses: the newest summary of a
-- conversation, and the summary for a build that drops so many messages of a history, in a turn of
-- a given key, whose dropped span is tainted or not.
pub record Compactor : Type 0 where
  pub newest : ℕ → World → Option Summary
  pub maybe_compact : ℕ → List Message → ℕ → String → Bool → World → Option Summary × World

-- The answers are given by the number of the call, so that they may differ from call to call.
-- `validate` is `tool.schema.validate`: the text of its error, or none for valid arguments.
pub record Env : Type 0 where
  pub config : Config
  pub tools : Dict Tool
  pub apps : Dict Text
  pub compactor : Option Compactor
  pub validate : Tool → Fields → Option Text
  pub call_tool : ℕ → Tool → Fields → ToolAnswer
  pub call_model : ℕ → String → List Message → List String → ModelAnswer
  pub read_clock : ℕ → ℕ
  pub draw_id : ℕ → String
  pub repr : Text → Text
  pub repr_value : Json → Text
  pub casefold : Text → Text
  pub activity_written : ℕ → Bool

-- `Router._log_activity`: a write that fails is swallowed.
unfoldable pub log : Env → String → Fields → String → Option Text → ℕ → World → World
unfolding log_activity
log env tool args status result_preview conv w =
    let w' = record w { log_attempts = w.log_attempts + 1 } in
    if env.activity_written w.log_attempts
    then log_activity tool args status result_preview conv w'
    else w'
