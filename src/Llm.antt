-- ===== src/Llm.antt =====
-- src/dudamel/llm: the provider-neutral message types (llm/types.py).
pub mod Json
pub mod Client
pub mod Traffic
pub mod Budget
use dudamel.Prelude.{Text, Bool, true, false, String, Option, none, List, []}
use dudamel.Llm.Json.{Fields}

pub data Role : Type 0 where
  system user assistant tool : Role

-- `m.role == "..."`
abbrev pub is_user : Role → Bool
is_user user = true
is_user _ = false

abbrev pub is_assistant : Role → Bool
is_assistant assistant = true
is_assistant _ = false

abbrev pub is_tool : Role → Bool
is_tool tool = true
is_tool _ = false

pub record ToolCall : Type 0 where
  pub id : String
  pub name : String
  pub args : Fields

pub record Message : Type 0 where
  pub role : Role
  pub text : Text
  pub tool_calls : List ToolCall
  pub tool_call_id : Option String
  pub is_error : Bool
