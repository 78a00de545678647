-- ===== src/Tests/Samples.antt =====
-- A small registry, a scripted model and a world, for the tests of the router
-- (src/dudamel/router.py).
use dudamel.Prelude.{
  ℕ, zero, suc, refl, Bool, true, false, String, Option, none, some, List, [], ◌∷◌, Text, codes,
}
use dudamel.Dict.{Dict}
use dudamel.Llm.{Message, ToolCall, Role}
use dudamel.Llm.Json.{end}
use dudamel.Contract.{Tool, Origin}
use dudamel.Store.{World, Confirmation, Status}
use dudamel.Router.Env.{Env, TaintMode, ToolAnswer, ModelAnswer, Compactor}
use dudamel.Router.Guard.{KeepsTurn}

abbrev pub tool_named : String → Bool → Bool → Tool
tool_named name read_only external = record {
  name = name;
  app_name = "notes";
  description = [];
  read_only = read_only;
  confirm = false;
  timeout = codes "30";
  origin = Origin.native;
  external = external;
  action = none;
}

-- `fetch` reads from outside, `add` writes.
abbrev pub tools : Dict Tool
tools = ("fetch", tool_named "fetch" true true) ∷ ("add", tool_named "add" false false) ∷ []

abbrev pub call_of : String → String → ToolCall
call_of i name = record { id = i; name = name; args = end }

abbrev pub message_of : Role → Text → List ToolCall → Option String → Message
message_of role text calls answers = record {
  role = role;
  text = text;
  tool_calls = calls;
  tool_call_id = answers;
  is_error = false;
}

-- First it fetches, then it wants to write, then it answers.
abbrev pub script : ℕ → ModelAnswer
script zero = ModelAnswer.completion (message_of Role.assistant [] (call_of "c1" "fetch" ∷ []) none)
script (suc zero) =
    ModelAnswer.completion (message_of Role.assistant [] (call_of "c2" "add" ∷ []) none)
script (suc (suc n)) = ModelAnswer.completion (message_of Role.assistant (codes "done") [] none)

-- A compactor that has no summary and makes none.
abbrev pub no_summaries : Compactor
no_summaries = record {
  newest = λ conv w. none;
  maybe_compact = λ conv history dropped key tainted w. (none, w);
}

pub no_summaries-KeepsTurn : KeepsTurn no_summaries
no_summaries-KeepsTurn = record {
  ran = λ conv history dropped key tainted w. refl;
  rows = λ conv history dropped key tainted w. refl;
  confirmations = λ conv history dropped key tainted w. refl;
}

abbrev pub env : Env
env = record {
  config = record {
    iteration_cap = 5;
    window_tokens = 1000;
    tool_result_cap = 100;
    max_tools = 10;
    confirm_ttl_seconds = 600;
    taint_mode = TaintMode.turn;
    persona = none;
  };
  tools = tools;
  apps = [];
  compactor = some no_summaries;
  validate = λ tool args. none;
  call_tool = λ n tool args. ToolAnswer.returned_text (codes "fine");
  call_model = λ n tier window offered. script n;
  read_clock = λ n. n;
  draw_id = λ n. "id";
  repr = λ t. t;
  repr_value = λ v. [];
  casefold = λ t. t;
  activity_written = λ n. true;
}

abbrev pub empty : World
empty = record {
  channels = [];
  next_conversation = 0;
  rows = [];
  next_row = 0;
  confirmations = [];
  activity = [];
  summaries = [];
  next_summary = 0;
  turn_cache = [];
  ran = [];
  model_calls = 0;
  clock_reads = 0;
  ids_drawn = 0;
  log_attempts = 0;
  summary_calls = 0;
}

-- A turn that was suspended at the call of `add`, after it had fetched.
abbrev pub row : Confirmation
row = record {
  id = "id";
  conversation_id = 0;
  user_id = "ann";
  tool = "add";
  args = end;
  loop_state = record {
    assistant = message_of Role.assistant [] (call_of "c1" "fetch" ∷ call_of "c2" "add" ∷ []) none;
    results = message_of Role.tool (codes "page") [] (some "c1") ∷ [];
    pending_call_id = "c2";
    iteration = 0;
    tier = "fast";
    executed_any = true;
    turn_tainted = true;
    offered_tools = some ("fetch" ∷ "add" ∷ []);
    called_tools = some ("add" ∷ "fetch" ∷ []);
  };
  status = Status.pending;
  expires_at = 600;
}

abbrev pub waiting : World
waiting = record empty { confirmations = row ∷ []; model_calls = 2 }
