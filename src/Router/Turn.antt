-- ===== src/Router/Turn.antt =====
-- One iteration of `Router._loop` of src/dudamel/router.py.
use dudamel.Prelude.{
  ℕ, ◌+◌, ◌*◌, ◌^◌, ◌-◌, Bool, true, false, ◌||◌, String, Option, none, some, List, [], ◌∷◌, ◌++◌,
  codes, take, keep, length, ltb, sorted, if◌then◌else◌,
}
use dudamel.Dict.{has_key, keys}
use dudamel.Llm.{Message, ToolCall, Role}
use dudamel.Window.{WindowBuild, build_window, estimate_tokens, contains}
use dudamel.Store.{World, Summary, Status, recent, append, append_many}
use dudamel.Router.Env.{Env, Compactor, ModelAnswer, is_off, is_window}
use dudamel.Router.Gate.{window_tainted}
use dudamel.Router.Batch.{BatchOutcome, execute_batch}
use dudamel.Router.Subset.{select_tool_subset}
use dudamel.Router.Replies.{
  ChatReply, say, plain, latest_user_text, frame_summary, system_message, budget_reply,
  failure_reply, or_no_reply, args_summary,
}

-- What stays the same in one call of `_loop`.
pub record Context : Type 0 where
  pub conv_id : ℕ
  pub tier : String
  pub user_id : String
  pub turn_key : String

-- What one iteration hands to the next.
pub record Progress : Type 0 where
  pub iteration : ℕ
  pub resumed_offered : Option (List String)
  pub executed_any : Bool
  pub turn_tainted : Bool
  pub called : List String

-- The context as the model is to see it, and the turn's taint after it was built.
pub record Prepared : Type 0 where
  pub window : List Message
  pub tainted : Bool

abbrev pub build : Env → List Message → ℕ → WindowBuild
build env history budget = build_window history budget env.config.tool_result_cap

abbrev pub if_window_mode : Env → Bool → List Message → Bool
if_window_mode env tainted window =
    if is_window env.config.taint_mode then tainted || window_tainted env.tools window else tainted

-- No summary: the window is the system message and the body.
unfoldable pub without_summary : Env → Bool → List Message → Prepared
without_summary env tainted body =
    let window = system_message env ∷ body in
    record { window = window; tainted = if_window_mode env tainted window }

-- A summary takes its tokens from the budget, and the window is built again.
unfoldable pub with_summary : Env → Bool → List Message → Summary → Prepared
with_summary env tainted history summary =
    let message = plain Role.user (frame_summary summary.text) in
    let rebuilt = build env history (env.config.window_tokens - estimate_tokens message.text) in
    let with_text = tainted || summary.tainted in
    let with_dropped =
      if is_off env.config.taint_mode
      then with_text
      else with_text || window_tainted env.tools (take rebuilt.dropped history) in
    let window = system_message env ∷ message ∷ rebuilt.messages in
    record { window = window; tainted = if_window_mode env with_dropped window }

unfoldable pub after_compaction :
    Env → Bool → List Message → WindowBuild → Option Summary × World → Prepared × World
after_compaction env tainted history built (none, w) =
    (without_summary env tainted built.messages, w)
after_compaction env tainted history built (some summary, w) =
    (with_summary env tainted history summary, w)

unfoldable pub compacted :
    Env → Context → Bool → List Message → WindowBuild → Option Compactor → World → Prepared × World
compacted env ctx tainted history built none w = (without_summary env tainted built.messages, w)
compacted env ctx tainted history built (some compactor) w =
    if ltb 0 built.dropped
    then after_compaction env tainted history built (
        compactor.maybe_compact ctx.conv_id history built.dropped ctx.turn_key
          (window_tainted env.tools (take built.dropped history)) w)
    else (without_summary env tainted built.messages, w)

-- The first half of an iteration, up to the model call.
unfoldable pub prepare : Env → Context → Bool → World → Prepared × World
prepare env ctx tainted w =
    let history = recent ctx.conv_id w in
    compacted env ctx tainted history (build env history env.config.window_tokens) env.compactor w

-- The names offered: those persisted at a suspension that still exist, else all, or a subset.
unfoldable pub offered_names : Env → Option (List String) → List Message → List String → List String
offered_names env (some names) history called = keep (λ n. has_key n env.tools) names
offered_names env none history called =
    if ltb env.config.max_tools (length env.tools)
    then select_tool_subset env.casefold env.tools env.config.max_tools (latest_user_text history)
        called
    else keys env.tools

-- `called_tool_names |= {c.name for c in msg.tool_calls}`
unfoldable pub add_called : List String → List ToolCall → List String
add_called called [] = called
add_called called (c ∷ cs) =
    add_called (if contains c.name called then called else called ++ (c.name ∷ [])) cs

-- `_suspend`: the confirmation is stored, and the user is asked.
unfoldable pub suspend :
    Env
    → Context
    → Message
    → BatchOutcome
    → ToolCall
    → Progress
    → List String
    → World
    → ChatReply × World
suspend env ctx assistant outcome call progress offered w =
    let id = env.draw_id w.ids_drawn in
    (
      record {
        text =
            codes "Confirm: run "
            ++ (codes call.name
                ++ (codes "("
                    ++ (args_summary env true call.args
                        ++ codes ")? This action requires approval.")));
        pending_confirmation_id = some id;
        refused = false;
      },
      record w {
        confirmations =
            w.confirmations
            ++ (record {
              id = id;
              conversation_id = ctx.conv_id;
              user_id = ctx.user_id;
              tool = call.name;
              args = call.args;
              loop_state = record {
                assistant = assistant;
                results = outcome.results;
                pending_call_id = call.id;
                iteration = progress.iteration;
                tier = ctx.tier;
                executed_any = progress.executed_any;
                turn_tainted = progress.turn_tainted;
                offered_tools = some offered;
                called_tools = some (sorted progress.called);
              };
              status = Status.pending;
              expires_at = env.read_clock w.clock_reads + env.config.confirm_ttl_seconds * 10 ^ 6;
            }
                ∷ []);
        ids_drawn = w.ids_drawn + 1;
        clock_reads = w.clock_reads + 1;
      },
    )

-- How an iteration ends: with a reply, or on to the next one.
pub data Step : Type 0 where
  reply : ChatReply → Step
  next : Progress → Step

unfoldable pub after_batch :
    Env
    → Context
    → Message
    → Progress
    → List String
    → BatchOutcome
    → World
    → Option ToolCall
    → Step × World
after_batch env ctx msg progress offered outcome w (some call) =
    let (r, w') = suspend env ctx msg outcome call progress offered w in (reply r, w')
after_batch env ctx msg progress offered outcome w none = (
  next (record progress { iteration = progress.iteration + 1; resumed_offered = none }),
  append_many ctx.conv_id (msg ∷ outcome.results) w,
)

abbrev pub batch_progress : Progress → BatchOutcome → List ToolCall → Progress
batch_progress progress outcome calls = record progress {
  executed_any = progress.executed_any || outcome.executed_any;
  turn_tainted = progress.turn_tainted || outcome.saw_untrusted_result;
  called = add_called progress.called calls;
}

-- A message of the model: its text is the reply, or its calls are executed.
unfoldable pub after_message :
    Env → Context → Progress → List String → Message → List ToolCall → World → Step × World
after_message env ctx progress offered msg [] w =
    let (_, w') = append ctx.conv_id msg none w in (reply (say (or_no_reply msg.text)), w')
after_message env ctx progress offered msg (c ∷ cs) w =
    let (outcome, w') = execute_batch env ctx.conv_id progress.turn_tainted (c ∷ cs) w in
    after_batch env ctx msg (batch_progress progress outcome (c ∷ cs)) offered outcome w'
      outcome.pending

unfoldable pub after_model :
    Env → Context → Progress → List String → ModelAnswer → World → Step × World
after_model env ctx progress offered (ModelAnswer.completion msg) w =
    after_message env ctx progress offered msg msg.tool_calls w
after_model env ctx progress offered (ModelAnswer.budget_exceeded e) w =
    (reply (budget_reply progress.executed_any e), w)
after_model env ctx progress offered (ModelAnswer.request_rejected e) w =
    (reply (failure_reply progress.executed_any true e), w)
after_model env ctx progress offered (ModelAnswer.model_failed e) w =
    (reply (failure_reply progress.executed_any false e), w)

-- The body of the `for` loop.
unfoldable pub iterate : Env → Context → Progress → World → Step × World
iterate env ctx progress w =
    let (prepared, w') = prepare env ctx progress.turn_tainted w in
    let offered =
      offered_names env progress.resumed_offered (recent ctx.conv_id w) progress.called in
    after_model env ctx (record progress { turn_tainted = prepared.tainted }) offered
      (env.call_model w'.model_calls ctx.tier prepared.window offered)
      (record w' { model_calls = w'.model_calls + 1 })
