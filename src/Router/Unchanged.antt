-- ===== src/Router/Unchanged.antt =====
-- src/dudamel/router.py: what a batch of calls does to the messages and the confirmations, and how
-- its results answer its calls.
use dudamel.Prelude.{
  ℕ, ◌≡◌, refl, sym, subst, Bool, true, false, String, Option, none, some, List, [], ◌∷◌, ◌++◌, All,
  inl, inr, Bool-cases, Text,
}
use dudamel.Llm.{ToolCall, is_tool}
use dudamel.Llm.Json.{Fields}
use dudamel.Window.{answered_ids}
use dudamel.Contract.{Tool}
use dudamel.Store.{World}
use dudamel.Router.Env.{Env, ToolAnswer, log}
use dudamel.Router.Batch.{
  Action, Plan, BatchOutcome, after_call, after_validation, run_one, run_tasks, execute_batch,
  plan_batch, pending_call, untrusted_total,
}
use dudamel.Router.Answers.{
  AllCovered, AnswerAll-ids, AnswerAll-tools, collect_batch-AnswerAll, plan-covers, settled_ids,
  ids_of_option,
}
use dudamel.Router.History.{IsSame, IsSame-refl, IsSame-trans}

pub log-IsSame :
    (env : Env) (tool : String) (args : Fields) (status : String) (preview : Option Text) (conv : ℕ)
    (w : World)
    → IsSame w (log env tool args status preview conv w)
unfolding log
log-IsSame env tool args status preview conv w =
    elim (Bool-cases (env.activity_written w.log_attempts)) [
      | inl e ↦ rw e (record { rows = refl; confirmations = refl })
      | inr e ↦ rw e (record { rows = refl; confirmations = refl })
    ]

after_call-IsSame :
    (env : Env) (conv : ℕ) (c : ToolCall) (tool : Tool) (answer : ToolAnswer) (w : World)
    → IsSame w (after_call env conv c tool answer w).1
unfolding after_call
after_call-IsSame env conv c tool (ToolAnswer.returned_text t) w = log-IsSame env _ _ _ _ _ w
after_call-IsSame env conv c tool _ w = log-IsSame env _ _ _ _ _ w

run_one-IsSame :
    (env : Env) (conv : ℕ) (c : ToolCall) (tool : Tool) (w : World)
    → IsSame w (run_one env conv c tool w).1
unfolding run_one
run_one-IsSame env conv c tool w = after (env.validate tool c.args)
  where
    after : (o : Option Text) → IsSame w (after_validation env conv c tool o w).1
    after none =
        unfold after_validation in
        IsSame-trans (record { rows = refl; confirmations = refl })
          (after_call-IsSame env conv c tool _ _)
    after (some e) = unfold after_validation in log-IsSame env _ _ _ _ _ w

run_tasks-IsSame :
    (env : Env) (conv : ℕ) (plan : Plan) (w : World) → IsSame w (run_tasks env conv plan w).1
unfolding run_tasks
run_tasks-IsSame env conv [] w = IsSame-refl w
run_tasks-IsSame env conv ((c, Action.run tool) ∷ plan) w =
    IsSame-trans (run_one-IsSame env conv c tool w) (run_tasks-IsSame env conv plan _)
run_tasks-IsSame env conv ((c, Action.pending) ∷ plan) w = run_tasks-IsSame env conv plan w
run_tasks-IsSame env conv ((c, Action.skip) ∷ plan) w = run_tasks-IsSame env conv plan w
run_tasks-IsSame env conv ((c, Action.unknown) ∷ plan) w = run_tasks-IsSame env conv plan w

-- A batch changes neither the messages nor the confirmations.
pub execute_batch-IsSame :
    (env : Env) (conv : ℕ) (tainted : Bool) (calls : List ToolCall) (w : World)
    → IsSame w (execute_batch env conv tainted calls w).1
unfolding execute_batch
execute_batch-IsSame env conv tainted calls w =
    run_tasks-IsSame env conv (plan_batch env tainted calls) w

-- What is known of the outcome of a batch.
pub record IsAnswered (calls : List ToolCall) (outcome : BatchOutcome) : Type 0 where
  pub covered : AllCovered (answered_ids outcome.results ++ ids_of_option outcome.pending) calls
  pub results : All (λ m. is_tool m.role ≡ true) outcome.results

pub execute_batch-IsAnswered :
    (env : Env) (conv : ℕ) (tainted : Bool) (calls : List ToolCall) (w : World)
    → IsAnswered calls (execute_batch env conv tainted calls w).0
unfolding execute_batch
execute_batch-IsAnswered env conv tainted calls w =
    let plan = plan_batch env tainted calls in
    let answers = collect_batch-AnswerAll env conv plan w in
    record {
      covered =
          subst (λ ids. AllCovered (ids ++ ids_of_option (pending_call plan)) calls)
            (sym (AnswerAll-ids (settled_ids plan) _ answers))
            (plan-covers env (untrusted_total env.tools calls) tainted false calls);
      results = AnswerAll-tools (settled_ids plan) _ answers;
    }
