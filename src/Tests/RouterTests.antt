-- ===== src/Tests/RouterTests.antt =====
-- The router of src/dudamel/router.py on a scripted model.
use mathlib.Core.List.{flatten}
use dudamel.Prelude.{text_eq, All, length, keep, max, min}
use dudamel.Window.{contains}
use dudamel.Router.Offered.{is_native_or_named, select_tool_subset-retains}
use dudamel.Prelude.{◌≡◌, refl, true, false, none, some, List, [], ◌∷◌, ◌++◌, codes}
use dudamel.Window.{answered_ids, build_window, truncate_tool_result}
use dudamel.Llm.{ToolCall}
use dudamel.Store.{
  existing_or_new, get_or_create, recent, has_client_msg_id, append, append_many, log_activity,
}
use dudamel.Router.Batch.{
  execute_batch, run_tasks, collect_batch, plan_calls, plan_batch, untrusted_total, action_for,
  pending_call, tool_error_text, after_call, after_validation, run_one, more_names,
  unknown_tool_text, result_for,
}
use dudamel.Router.Loop.{Start, loop, after_step, iterations, seed_taint}
use dudamel.Router.Confirm.{
  handle, close_suspended_turn, sweep, close_all, auto_decline_pending, handle_new, is_duplicate,
  confirmed_error_text, after_confirmed, confirmed_validation, run_confirmed, execute_confirmed,
}
use dudamel.Router.Resolve.{
  find_confirmation, resolve_confirmation, set_status, resolve_expired, resolve_declined,
  resolve_approved, settle, resolve_row,
}
use dudamel.Router.Taint.{IsGuarded}
use dudamel.Router.Trace.{IsBatch, execute_batch-IsBatch}
use dudamel.Router.Guard.{loop-IsGuarded}
use dudamel.Router.Answers.{
  AnswerAll, AllCovered, settled_ids, ids_of_plan, collect_batch-AnswerAll, plan-covers,
}
use dudamel.Router.History.{IsSound}
use dudamel.Router.Fresh.{handle-IsGuarded}
use dudamel.Router.Handled.{handle-IsSound}
use dudamel.Router.Settle.{resolve_confirmation-IsSound}
use dudamel.Router.Once.{resolve_confirmation-once}
use dudamel.Router.Consent.{IsConsented, resolve_confirmation-IsConsented}
use dudamel.Tests.Samples.{env, empty, row, waiting, call_of, no_summaries-KeepsTurn}
use dudamel.Router.Env.{log}
use dudamel.Router.Gate.{untrusted_name, window_tainted, needs_confirm}
use dudamel.Router.Subset.{
  is_word, emit, split_words, distinct, tokenize, overlap, score, precedes, insert_candidate, rank,
  select_tool_subset,
}
use dudamel.Router.Replies.{
  latest_from, latest_user_text, frame_summary, app_lines, identity, system_message, budget_reply,
  failure_reply, out_of_steps_reply, args_summary,
}
use dudamel.Router.Turn.{
  without_summary, with_summary, after_compaction, compacted, prepare, offered_names, add_called,
  suspend, after_batch, after_message, after_model, iterate,
}

abbrev start : Start
start = record {
  conv_id = 0;
  tier = "fast";
  user_id = "ann";
  start_iteration = 0;
  executed_any = false;
  initial_taint = false;
  resumed_offered = none;
  resumed_called = none;
}

abbrev calls : List ToolCall
calls = call_of "c1" "fetch" ∷ call_of "c2" "add" ∷ call_of "c3" "lost" ∷ []

loop-IsGuarded_example :
    (made : List ToolCall) × ((loop env start empty).1.ran ≡ [] ++ made)
    × IsGuarded env.tools false made
loop-IsGuarded_example = loop-IsGuarded env start empty refl no_summaries-KeepsTurn

find_row : find_confirmation "id" waiting.confirmations ≡ some row
unfolding find_confirmation
find_row = refl

resolve_confirmation-IsConsented_example :
    IsConsented env true "ann" row waiting (resolve_confirmation env "id" true "ann" waiting).1
resolve_confirmation-IsConsented_example =
    resolve_confirmation-IsConsented env "id" true "ann" row waiting no_summaries-KeepsTurn refl
      find_row

resolve_confirmation-once_example :
    let w' = (resolve_confirmation env "id" true "ann" waiting).1 in
    (resolve_confirmation env "id" false "bob" w').1 ≡ w'
resolve_confirmation-once_example =
    resolve_confirmation-once env env "id" true false "ann" "bob" row waiting no_summaries-KeepsTurn
      find_row refl

select_tool_subset-retains_example :
    let offered = select_tool_subset (λ t. t) env.tools 1 (codes "read") ("fetch" ∷ []) in
    let kept = keep (is_native_or_named ("fetch" ∷ [])) env.tools in
    All (λ e. contains e.0 offered ≡ true) kept
    × (length offered ≡ max (length kept) (min 1 (length env.tools)))
select_tool_subset-retains_example =
    select_tool_subset-retains (λ t. t) env.tools 1 (codes "read") ("fetch" ∷ [])

empty-IsSound : IsSound empty
empty-IsSound = record { closed = λ conv. tt; suspended = tt }

waiting-IsSound : IsSound waiting
unfolding answered_ids
waiting-IsSound = record {
  closed = λ conv. tt;
  suspended = (record { covered = λ role. refl; results = (refl, tt) }, tt);
}

handle-IsSound_example : IsSound (handle env "web" (codes "hi") "ann" none "fast" waiting).1
handle-IsSound_example =
    handle-IsSound env "web" (codes "hi") "ann" none "fast" waiting no_summaries-KeepsTurn
      waiting-IsSound

handle-IsGuarded_example :
    (made : List ToolCall) × ((handle env "web" (codes "hi") "ann" none "fast" waiting).1.ran
      ≡ [] ++ made)
    × IsGuarded env.tools false made
handle-IsGuarded_example =
    handle-IsGuarded env "web" (codes "hi") "ann" none "fast" waiting no_summaries-KeepsTurn refl

resolve_confirmation-IsSound_example : IsSound (resolve_confirmation env "id" true "ann" waiting).1
resolve_confirmation-IsSound_example =
    resolve_confirmation-IsSound env "id" true "ann" waiting no_summaries-KeepsTurn waiting-IsSound

execute_batch-IsBatch_example :
    let (outcome, w') = execute_batch env 0 false calls empty in
    IsBatch env.tools false empty outcome w'
execute_batch-IsBatch_example = execute_batch-IsBatch env 0 false calls empty refl

collect_batch-AnswerAll_example :
    let plan = plan_batch env false calls in
    AnswerAll (settled_ids plan) (collect_batch env plan (run_tasks env 0 plan empty).0)
collect_batch-AnswerAll_example = collect_batch-AnswerAll env 0 (plan_batch env false calls) empty

plan-covers_example : AllCovered (ids_of_plan (plan_calls env 1 false false calls)) calls
plan-covers_example = plan-covers env 1 false false calls

-- The first turn fetches, and is suspended where it wants to write.
handle_run :
    let (r, w) = handle env "web" (codes "hi") "ann" none "fast" empty in
    (r.pending_confirmation_id ≡ some "id")
    × (w.ran ≡ call_of "c1" "fetch" ∷ [])
    × (w.model_calls ≡ 2)
unfolding existing_or_new get_or_create recent has_client_msg_id append append_many log_activity log
    untrusted_name window_tainted needs_confirm untrusted_total action_for plan_calls pending_call
    tool_error_text after_call after_validation run_one more_names unknown_tool_text run_tasks
    result_for collect_batch execute_batch text_eq is_word emit split_words distinct tokenize
    overlap score precedes insert_candidate rank select_tool_subset latest_from latest_user_text
    frame_summary app_lines identity system_message budget_reply failure_reply out_of_steps_reply
    args_summary without_summary with_summary after_compaction compacted prepare offered_names
    add_called suspend after_batch after_message after_model iterate after_step iterations
    seed_taint loop close_suspended_turn sweep close_all auto_decline_pending handle_new
    is_duplicate handle confirmed_error_text after_confirmed confirmed_validation run_confirmed
    execute_confirmed find_confirmation set_status resolve_expired resolve_declined resolve_approved
    settle resolve_row resolve_confirmation build_window truncate_tool_result flatten
handle_run = (refl, refl, refl)

-- Approved, the write runs, and the model's last text is the reply.
resolve_run :
    let (r, w) = resolve_confirmation env "id" true "ann" waiting in
    (r.text ≡ codes "done") × (w.ran ≡ call_of "c2" "add" ∷ [])
unfolding existing_or_new get_or_create recent has_client_msg_id append append_many log_activity log
    untrusted_name window_tainted needs_confirm untrusted_total action_for plan_calls pending_call
    tool_error_text after_call after_validation run_one more_names unknown_tool_text run_tasks
    result_for collect_batch execute_batch text_eq is_word emit split_words distinct tokenize
    overlap score precedes insert_candidate rank select_tool_subset latest_from latest_user_text
    frame_summary app_lines identity system_message budget_reply failure_reply out_of_steps_reply
    args_summary without_summary with_summary after_compaction compacted prepare offered_names
    add_called suspend after_batch after_message after_model iterate after_step iterations
    seed_taint loop close_suspended_turn sweep close_all auto_decline_pending handle_new
    is_duplicate handle confirmed_error_text after_confirmed confirmed_validation run_confirmed
    execute_confirmed find_confirmation set_status resolve_expired resolve_declined resolve_approved
    settle resolve_row resolve_confirmation build_window truncate_tool_result
resolve_run = (refl, refl)
