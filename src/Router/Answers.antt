-- ===== src/Router/Answers.antt =====
-- src/dudamel/router.py: the results of a batch answer its calls, all but the one that is pending.
use dudamel.Prelude.{
  ℕ, ◌≡◌, refl, ap, sym, subst, ◌∙◌, Bool, true, false, ◌||◌, String, ◌==◌, eq_refl, Option, none,
  some, List, [], ◌∷◌, ◌++◌, append-nil, all, all-imp, All, or_true_right, Bool-cases, Text, arith,
  inl, inr, if◌then◌else◌,
}
use dudamel.Dict.{lookup}
use dudamel.Llm.{Message, ToolCall, is_tool}
use dudamel.Window.{answered_ids, contains, truncate_tool_result}
use dudamel.Window.Pairs.{IsAnswerTo, contains-append, answered_ids-cons, answered_ids-nil}
use dudamel.Window.Truncate.{truncate-keeps}
use dudamel.Contract.{Tool}
use dudamel.Store.{World}
use dudamel.Router.Env.{Env, ToolAnswer}
use dudamel.Router.Batch.{
  Action, Plan, is_pending, action_for, plan_calls, pending_call, tool_message, after_call,
  after_validation, run_one, run_tasks, result_for, collect_batch, unknown_tool_text,
}

-- The messages are tool results for these ids, one each, in order.
abbrev pub AnswerAll : List String → List Message → Type 0
AnswerAll [] [] = Unit
AnswerAll (i ∷ is) (m ∷ ms) = IsAnswerTo i m × AnswerAll is ms
AnswerAll _ _ = ⊥

pub AnswerAll-ids : (is : List String) (ms : List Message) → AnswerAll is ms → answered_ids ms ≡ is
AnswerAll-ids [] [] h = answered_ids-nil
AnswerAll-ids (i ∷ is) (m ∷ ms) h =
    answered_ids-cons i m ms h.0 ∙ ap (λ (r : List String). i ∷ r) (AnswerAll-ids is ms h.1)
AnswerAll-ids [] (m ∷ ms) h = absurd h
AnswerAll-ids (i ∷ is) [] h = absurd h

pub AnswerAll-tools :
    (is : List String) (ms : List Message) → AnswerAll is ms → All (λ m. is_tool m.role ≡ true) ms
AnswerAll-tools [] [] h = tt
AnswerAll-tools (i ∷ is) (m ∷ ms) h = (h.0.0, AnswerAll-tools is ms h.1)
AnswerAll-tools [] (m ∷ ms) h = absurd h
AnswerAll-tools (i ∷ is) [] h = absurd h

-- The ids of the calls that are not pending, in the order of the plan.
pub settled_ids : Plan → List String
settled_ids [] = []
settled_ids ((c, a) ∷ plan) =
    let rest = settled_ids plan in if is_pending a then rest else c.id ∷ rest

abbrev pub ids_of_option : Option ToolCall → List String
ids_of_option none = []
ids_of_option (some c) = c.id ∷ []

pub truncated-IsAnswerTo :
    (text : Text) (i : String) (is_error : Bool) (cap : ℕ)
    → IsAnswerTo i (truncate_tool_result (tool_message text i is_error) cap)
truncated-IsAnswerTo text i is_error cap =
    ground (arith, truncate-keeps (tool_message text i is_error) cap)

after_call-IsAnswerTo :
    (env : Env) (conv : ℕ) (c : ToolCall) (tool : Tool) (answer : ToolAnswer) (w : World)
    → IsAnswerTo c.id (after_call env conv c tool answer w).0.message
unfolding after_call
after_call-IsAnswerTo env conv c tool (ToolAnswer.returned_text t) w =
    truncated-IsAnswerTo t c.id false env.config.tool_result_cap
after_call-IsAnswerTo env conv c tool _ w = truncated-IsAnswerTo _ c.id _ env.config.tool_result_cap

run_one-IsAnswerTo :
    (env : Env) (conv : ℕ) (c : ToolCall) (tool : Tool) (w : World)
    → IsAnswerTo c.id (run_one env conv c tool w).0.message
unfolding run_one
run_one-IsAnswerTo env conv c tool w = after (env.validate tool c.args)
  where
    after : (o : Option Text) → IsAnswerTo c.id (after_validation env conv c tool o w).0.message
    after none = unfold after_validation in after_call-IsAnswerTo env conv c tool _ _
    after (some e) =
        unfold after_validation in truncated-IsAnswerTo e c.id true env.config.tool_result_cap

-- Whatever the tasks did, the results of a batch are tool results for the calls that are not
-- pending, one each, in the order of the plan.
pub collect_batch-AnswerAll :
    (env : Env) (conv : ℕ) (plan : Plan) (w : World)
    → AnswerAll (settled_ids plan) (collect_batch env plan (run_tasks env conv plan w).0)
unfolding collect_batch run_tasks result_for settled_ids
collect_batch-AnswerAll env conv [] w = tt
collect_batch-AnswerAll env conv ((c, Action.run tool) ∷ plan) w = (
  run_one-IsAnswerTo env conv c tool w,
  collect_batch-AnswerAll env conv plan (run_one env conv c tool w).1,
)
collect_batch-AnswerAll env conv ((c, Action.pending) ∷ plan) w =
    collect_batch-AnswerAll env conv plan w
collect_batch-AnswerAll env conv ((c, Action.skip) ∷ plan) w =
    ((refl, refl), collect_batch-AnswerAll env conv plan w)
collect_batch-AnswerAll env conv ((c, Action.unknown) ∷ plan) w = (
  truncated-IsAnswerTo (unknown_tool_text env c.name) c.id true env.config.tool_result_cap,
  collect_batch-AnswerAll env conv plan w,
)

-- Behind a pending call nothing else is pending.
action_waiting :
    (env : Env) (total : ℕ) (turn_tainted : Bool) (o : Option Tool)
    → is_pending (action_for env total turn_tainted true o) ≡ false
unfolding action_for
action_waiting env total turn_tainted none = refl
action_waiting env total turn_tainted (some tool) = ground arith

abbrev pub ids_of_plan : Plan → List String
ids_of_plan plan = settled_ids plan ++ ids_of_option (pending_call plan)

-- Each of the calls has its id in the list.
abbrev pub AllCovered : List String → List ToolCall → Type 0
AllCovered ids cs = all (λ tc. contains tc.id ids) cs ≡ true

ids_of_plan-settled :
    (c : ToolCall) (a : Action) (plan : Plan)
    → is_pending a ≡ false
    → ids_of_plan ((c, a) ∷ plan) ≡ c.id ∷ ids_of_plan plan
unfolding settled_ids pending_call
ids_of_plan-settled c a plan h = rw h

ids_of_plan-pending :
    (c : ToolCall) (a : Action) (plan : Plan)
    → is_pending a ≡ true
    → ids_of_plan ((c, a) ∷ plan) ≡ settled_ids plan ++ (c.id ∷ [])
unfolding settled_ids pending_call
ids_of_plan-pending c a plan h = rw h

AllCovered-cons :
    (i : String) (ids : List String) (cs : List ToolCall)
    → AllCovered ids cs
    → AllCovered (i ∷ ids) cs
AllCovered-cons i ids cs h =
    all-imp (λ tc. contains tc.id ids) (λ tc. contains tc.id (i ∷ ids))
      (λ tc e. or_true_right (i == tc.id) e) cs h

pub AllCovered-append :
    (xs ys : List String) (cs : List ToolCall) → AllCovered xs cs → AllCovered (xs ++ ys) cs
AllCovered-append xs ys cs h =
    all-imp (λ tc. contains tc.id xs) (λ tc. contains tc.id (xs ++ ys))
      (λ tc e. ground (arith, contains-append tc.id xs ys)) cs h

pending_cover :
    (c : ToolCall) (xs : List String) (cs : List ToolCall)
    → AllCovered xs cs
    → AllCovered (xs ++ (c.id ∷ [])) (c ∷ cs)
pending_cover c xs cs h = ground (
  arith,
  contains-append c.id xs (c.id ∷ []),
  eq_refl c.id,
  AllCovered-append xs (c.id ∷ []) cs h,
)

settled_cover :
    (c : ToolCall) (ids : List String) (cs : List ToolCall)
    → AllCovered ids cs
    → AllCovered (c.id ∷ ids) (c ∷ cs)
settled_cover c ids cs h = ground (arith, eq_refl c.id, AllCovered-cons c.id ids cs h)

module _ (env : Env) (total : ℕ) (turn_tainted : Bool) where
  abbrev plan_from : Bool → List ToolCall → Plan
  plan_from waiting cs = plan_calls env total turn_tainted waiting cs

  none_pending : (cs : List ToolCall) → pending_call (plan_from true cs) ≡ none
  unfolding plan_calls pending_call
  none_pending [] = refl
  none_pending (c ∷ cs) =
      rw (action_waiting env total turn_tainted (lookup c.name env.tools)) (none_pending cs)

  -- In a plan for these calls, the id of every call is settled, or is that of the one pending call.
  pub plan-covers :
      (waiting : Bool) (cs : List ToolCall) → AllCovered (ids_of_plan (plan_from waiting cs)) cs
  unfolding plan_calls
  plan-covers waiting [] = refl
  plan-covers waiting (c ∷ cs) =
      let a = action_for env total turn_tainted waiting (lookup c.name env.tools) in
      let rest = plan_from (waiting || is_pending a) cs in
      elim (Bool-cases (is_pending a)) [
        | inl gated ↦
            let alone : pending_call rest ≡ none =
              rw gated (rw (or_true_right waiting {b = true} refl) (none_pending cs)) in
            subst (λ ids. AllCovered ids (c ∷ cs)) (sym (ids_of_plan-pending c a rest gated))
              (pending_cover c (settled_ids rest) cs (
                subst (λ ids. AllCovered ids cs)
                  (ap (λ (o : Option ToolCall). settled_ids rest ++ ids_of_option o) alone
                    ∙ append-nil (settled_ids rest))
                  (plan-covers (waiting || is_pending a) cs)))
        | inr settled ↦
            subst (λ ids. AllCovered ids (c ∷ cs)) (sym (ids_of_plan-settled c a rest settled))
              (settled_cover c (ids_of_plan rest) cs (plan-covers (waiting || is_pending a) cs))
      ]
