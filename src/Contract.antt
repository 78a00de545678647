-- ===== src/Contract.antt =====
-- src/dudamel/contract/types.py: the tools that the model is offered, widgets and jobs.
pub mod Labels
pub mod Payloads
pub mod Names
use dudamel.Prelude.{ℕ, Text, Bool, true, false, ◌||◌, ◌++◌, String, Option, List, codes}

pub data Origin : Type 0 where
  native mcp : Origin

abbrev pub is_mcp : Origin → Bool
is_mcp native = false
is_mcp mcp = true

-- `Tool`, without its function and schema, which are the app's; the timeout is kept as it is
-- printed, since only messages read it.
pub record Tool : Type 0 where
  pub name : String
  pub app_name : String
  pub description : Text
  pub read_only : Bool
  pub confirm : Bool
  pub timeout : Text
  pub origin : Origin
  pub external : Bool
  pub action : Option Text

-- The property `Tool.untrusted`.
abbrev pub untrusted : Tool → Bool
untrusted tool = tool.external || is_mcp tool.origin

-- `Widget`, without its function.
pub record Widget : Type 0 where
  pub id : String
  pub app_name : String
  pub title : Text
  pub renderer : String
  pub timeout : Text
  pub actions : List String

-- The property `Widget.qualified_id`.
abbrev pub qualified_id : Widget → Text
qualified_id widget = codes widget.app_name ++ (codes "." ++ codes widget.id)

-- `Job`, without its function.
pub record Job : Type 0 where
  pub id : Text
  pub app_name : String
  pub cron : Option Text
  pub interval_seconds : Option ℕ
  pub timeout : Text
