-- ===== src/Lib.antt =====
-- dudamel: a personal assistant whose messages are answered by a language model that calls tools.
--
-- The model covers what decides a turn. A user's message enters `Router.handle`, which declines the
-- confirmations it supersedes, stores the message and runs the loop. An iteration of the loop builds
-- the context window from the stored history, calls the model, and executes the batch of tool calls
-- of its answer; a call that needs approval suspends the turn as a stored confirmation, and
-- `Router.resolve_confirmation` takes it up again.
--
-- Window models src/dudamel/window.py: `build_window`, `truncate_tool_result` and the sanitiser
-- `_drop_dangling_tool_calls`, with `_MARKER_RE` written out as a search in Window/Marker.
-- Llm and Contract model the types of src/dudamel/llm/types.py and src/dudamel/contract/types.py,
-- Llm/Json models `json.dumps`, and Llm/Client `LLMClient.complete` of src/dudamel/llm/client.py,
-- in two steps around the await of the provider; Llm/Traffic runs calls at the same time and
-- Llm/Budget bounds what they spend; the router takes the model's answers as parameters of its own.
-- Store models the tables of src/dudamel/models_core.py, the store of src/dudamel/convo.py, and
-- `log_activity` of src/dudamel/activity.py. A table is a list in the order of its ids. The record
-- World holds the tables, the trace of the tool functions called, and counts of what was asked of
-- the outside, so that the answers may differ from call to call.
-- Router models src/dudamel/router.py. Router/Env is what a turn takes from elsewhere: the settings
-- (`RouterConfig` of src/dudamel/config.py), the registered tools, argument validation, the tools'
-- functions, the model client, the clock, fresh ids, `repr` and `casefold`, and the compactor.
-- Router/Gate is the taint rule (`_needs_confirm`), Router/Batch `_execute_batch` and
-- `_collect_batch`, Router/Subset `select_tool_subset`, Router/Replies the texts, Router/Turn one
-- iteration of `_loop` with `_suspend`, Router/Loop the loop, Router/Confirm `handle` and
-- `_execute_confirmed`, Router/Resolve `resolve_confirmation`.
-- The proofs stand in Router/Taint, Trace, Guard, Consent and Fresh (the calls made), Answers,
-- History, Unchanged, Sound, Handled and Settle (what the stored histories look like), Grows and
-- Once (confirmations), Offered (the subset), and in the children of the other modules.
-- Compaction models src/dudamel/compaction.py, the compactor that Router/Env takes as an interface,
-- with its texts in Compaction/Prompt; Compaction/Keeps compares it with what that interface asks.
-- Contract holds the tools, widgets and jobs, Contract/Names the patterns of names, and
-- Contract/Labels and Contract/Payloads src/dudamel/contract/renderers.py: what a card may show.
-- Registry models src/dudamel/registry.py, and Registry/Apps the decorators of src/dudamel/app.py
-- that fill an app before it is registered; a router's tools are those of a registry.
-- Mcp models of src/dudamel/mcp_mount.py how the tools that servers offer are named and collected, up
-- to what `add_mcp_tools` is given.
-- Widgets models src/dudamel/widgets.py: a widget is run and its card made, with its buttons
-- (Widgets/Buttons says when a card is safe, and Widgets/Explained when it shows an error).
-- Runtime models of src/dudamel/runtime.py the homescreen, which runs the widgets of a registry, and
-- `run_action`, which its buttons call (Runtime/Actions).
-- Scheduler models src/dudamel/scheduler.py as far as it writes the table of runs: the start and the
-- end of a run, and what is set right when the process starts again.
-- Throttle models src/dudamel/web/throttle.py, the counter of failed logins, and uses nothing else.
-- Web models src/dudamel/web/auth.py and the login of src/dudamel/web/api.py on top of it; Web/Closed
-- serves any sequence of requests.
-- Prelude and Dict hold lists, text as code points, sorting of names, and Python's dict.
--
-- Numbers are natural numbers: the clock of the throttle counts nanoseconds, the stored times count
-- microseconds, and a difference that would be negative is compared by moving its terms; only the
-- count of missed runs is an integer. The loop of a turn runs on the number of iterations that are
-- left, `iteration_cap` less the start, as the `range` of the source, and the count of fires on what
-- its cap of 1000 leaves; nothing else runs on fuel but the printing of a number, which has one unit
-- more than the number itself.
--
-- Not modelled: the tasks of a batch run one after the other; cancellation, logging output and the
-- map of conversation locks; a lost race for a unique key in the store, except that of a summary;
-- what pydantic, SQLAlchemy and APScheduler do, which are parameters: the shape of a payload,
-- argument validation, a tool's schema and required parameters, the fires of a trigger. Of
-- src/dudamel/app.py the settings and the runtime bindings, of src/dudamel/scheduler.py the task sets
-- and the shutdown, of src/dudamel/web/api.py the handlers but the login, of src/dudamel/runtime.py
-- the wiring, and of src/dudamel/mcp_mount.py the sessions and reconnects are left out. The model
-- providers, the settings and their resolution, the bundled apps, the web pages and the Telegram
-- interface, migrations and the command line have no definitions here.
pub mod Prelude
pub mod Dict
pub mod Llm
pub mod Web
pub mod Widgets
pub mod Window
pub mod Throttle
pub mod Contract
pub mod Runtime
pub mod Scheduler
pub mod Store
pub mod Compaction
pub mod Mcp
pub mod Registry
pub mod Router
pub mod Tests
