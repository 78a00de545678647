-- ===== src/Router/Trace.antt =====
-- Every call that a turn of src/dudamel/router.py makes of a tool's function, and the taint rule for
-- whole batches and turns.
use dudamel.Prelude.{
  ℕ, ◌≡◌, refl, ap, sym, subst, ◌∙◌, Bool, true, false, ◌||◌, String, Option, none, some, List, [],
  ◌∷◌, ◌++◌, append-nil, append_assoc, any, any-append, length, arith, inl, inr, Option-cases, Text,
  ◌⊎◌,
}
use dudamel.Dict.{Dict, lookup}
use dudamel.Llm.{ToolCall}
use dudamel.Llm.Json.{Fields}
use dudamel.Contract.{Tool, untrusted}
use dudamel.Store.{World}
use dudamel.Router.Env.{Env, is_off, log, ToolAnswer}
use dudamel.Router.Gate.{untrusted_name}
use dudamel.Router.Batch.{
  Action, Plan, BatchOutcome, is_pending, plan_calls, plan_batch, untrusted_total,
  untrusted_result_option, run_one, run_tasks, after_call, after_validation, dispatch,
  execute_batch,
}
use dudamel.Router.Taint.{
  IsGuarded, IsGuarded-append, IsGuarded-mono, any_untrusted, trace_of, if_valid, plan-IsGuarded,
  action_cases, action_unknown,
}

pub log-ran :
    (env : Env) (tool : String) (args : Fields) (status : String) (text : Option Text) (conv : ℕ)
    (w : World)
    → (log env tool args status text conv w).ran ≡ w.ran
unfolding log
log-ran env tool args status text conv w = ground arith

after_call_lem :
    (env : Env) (conv : ℕ) (c : ToolCall) (tool : Tool) (answer : ToolAnswer) (w : World)
    → ((after_call env conv c tool answer w).1.ran ≡ w.ran)
      × ((after_call env conv c tool answer w).0.untrusted_result ≡ untrusted tool)
unfolding after_call log
after_call_lem env conv c tool (ToolAnswer.returned_text t) w = ground arith
after_call_lem env conv c tool _ w = ground arith

-- A call reaches its function exactly if its arguments are valid; its tool's trust is recorded
-- either way.
run_one_lem :
    (env : Env) (conv : ℕ) (c : ToolCall) (tool : Tool) (w : World)
    → ((run_one env conv c tool w).1.ran ≡ w.ran ++ if_valid (env.validate tool c.args) c [])
      × ((run_one env conv c tool w).0.untrusted_result ≡ untrusted tool)
unfolding run_one after_validation
run_one_lem env conv c tool w = elim (Option-cases (env.validate tool c.args)) [
  | inl valid ↦
      rw valid
        (after_call_lem env conv c tool (env.call_tool (length w.ran) tool c.args) (dispatch c w))
  | inr (e, invalid) ↦
      rw invalid (log-ran env c.name c.args "error" (some e) conv w ∙ sym (append-nil w.ran), refl)
]

if_valid-append :
    (o : Option Text) (c : ToolCall) (cs : List ToolCall) → if_valid o c [] ++ cs ≡ if_valid o c cs
if_valid-append none c cs = refl
if_valid-append (some e) c cs = refl

-- The tasks of a batch make the calls of the plan that run and are valid, in order.
pub run_tasks-ran :
    (env : Env) (conv : ℕ) (plan : Plan) (w : World)
    → (run_tasks env conv plan w).1.ran ≡ w.ran ++ trace_of env plan
unfolding run_tasks trace_of
run_tasks-ran env conv [] w = sym (append-nil w.ran)
run_tasks-ran env conv ((c, Action.run tool) ∷ plan) w =
    let (ran, w') = run_one env conv c tool w in
    run_tasks-ran env conv plan w'
    ∙ ap (λ (r : List ToolCall). r ++ trace_of env plan) (run_one_lem env conv c tool w).0
    ∙ append_assoc w.ran (if_valid (env.validate tool c.args) c []) (trace_of env plan)
    ∙ ap (λ (r : List ToolCall). w.ran ++ r)
        (if_valid-append (env.validate tool c.args) c (trace_of env plan))
run_tasks-ran env conv ((c, a) ∷ plan) w = run_tasks-ran env conv plan w

any_untrusted-if_valid :
    (tools : Dict Tool) (o : Option Text) (c : ToolCall) (cs : List ToolCall)
    → any_untrusted tools (if_valid o c cs) ≡ true
    → (untrusted_name tools c.name ≡ true) ⊎ (any_untrusted tools cs ≡ true)
any_untrusted-if_valid tools none c cs h = ground arith
any_untrusted-if_valid tools (some e) c cs h = inr h

module _ (env : Env) (conv total : ℕ) (turn_tainted : Bool) where
  abbrev Reported : Plan → World → Type 0
  Reported plan w =
      any_untrusted env.tools (trace_of env plan) ≡ true
      → any untrusted_result_option (run_tasks env conv plan w).0 ≡ true

  Reported-run :
      (c : ToolCall) (tool : Tool) (plan : Plan) (w : World)
      → lookup c.name env.tools ≡ some tool
      → Reported plan (run_one env conv c tool w).1
      → Reported ((c, Action.run tool) ∷ plan) w
  unfolding trace_of run_tasks untrusted_name
  Reported-run c tool plan w known rest h = ground (
    arith,
    any_untrusted-if_valid env.tools (env.validate tool c.args) c (trace_of env plan) h,
    run_one_lem env conv c tool w,
    rest,
  )

  -- A batch that called an untrusted tool reports it.
  plan-Reported :
      (waiting : Bool) (cs : List ToolCall) (w : World)
      → Reported (plan_calls env total turn_tainted waiting cs) w
  unfolding plan_calls trace_of run_tasks
  plan-Reported waiting [] w = λ h. cc
  plan-Reported waiting (c ∷ cs) w =
      let after =
        λ (a : Action). (c, a) ∷ plan_calls env total turn_tainted (waiting || is_pending a) cs in
      let skipped = λ (a : Action). Reported (after a) w in
      elim (Option-cases (lookup c.name env.tools)) [
        | inl unknown ↦ rw unknown (
            subst skipped (sym (action_unknown env total turn_tainted waiting))
              (plan-Reported (waiting || false) cs w))
        | inr (tool, known) ↦ rw known (elim (action_cases env total turn_tainted waiting tool) [
          | inl (runs, free) ↦ subst skipped (sym runs) (
              Reported-run c tool (plan_calls env total turn_tainted (waiting || false) cs) w known
                (plan-Reported (waiting || false) cs (run_one env conv c tool w).1))
          | inr (inl waits) ↦ subst skipped (sym waits) (plan-Reported (waiting || true) cs w)
          | inr (inr skips) ↦ subst skipped (sym skips) (plan-Reported (waiting || false) cs w)
        ])
      ]

-- The calls that a step of a turn makes, guarded from the taint that it starts with, and the taint
-- that it leaves, which knows of them.
pub record Extends (tools : Dict Tool) (tainted : Bool) (w : World) (left : Bool) (w' : World)
    : Type 0 where
  pub calls : List ToolCall
  pub made : w'.ran ≡ w.ran ++ calls
  pub guarded : IsGuarded tools tainted calls
  pub known : (tainted || any_untrusted tools calls) ≡ true → left ≡ true

-- The calls that a batch makes, and an outcome that reports an untrusted result if one of them is of
-- an untrusted tool.
pub record IsBatch (tools : Dict Tool) (turn_tainted : Bool) (w : World) (outcome : BatchOutcome)
    (w' : World) : Type 0 where
  pub calls : List ToolCall
  pub made : w'.ran ≡ w.ran ++ calls
  pub guarded : IsGuarded tools turn_tainted calls
  pub reported : any_untrusted tools calls ≡ true → outcome.saw_untrusted_result ≡ true

-- Under a taint rule, the calls that a batch makes are guarded from the taint that it is given, and
-- the outcome reports an untrusted result if a call of an untrusted tool was made, whether the turn
-- was tainted before or not.
pub execute_batch-IsBatch :
    (env : Env) (conv : ℕ) (turn_tainted : Bool) (calls : List ToolCall) (w : World)
    → is_off env.config.taint_mode ≡ false
    → let (outcome, w') = execute_batch env conv turn_tainted calls w in
      IsBatch env.tools turn_tainted w outcome w'
unfolding execute_batch
execute_batch-IsBatch env conv turn_tainted calls w on =
    let plan = plan_batch env turn_tainted calls in
    let total = untrusted_total env.tools calls in
    record {
      calls = trace_of env plan;
      made = run_tasks-ran env conv plan w;
      guarded =
          plan-IsGuarded env on total turn_tainted false 0 turn_tainted calls (λ t. inl t)
            (omega arith);
      reported = plan-Reported env conv total turn_tainted false calls w;
    }

-- The taint that the turn has after the batch.
pub IsBatch-Extends :
    {tools : Dict Tool} {turn_tainted : Bool} {w : World} {outcome : BatchOutcome} {w' : World}
    → IsBatch tools turn_tainted w outcome w'
    → Extends tools turn_tainted w (turn_tainted || outcome.saw_untrusted_result) w'
IsBatch-Extends b = record {
  calls = b.calls;
  made = b.made;
  guarded = b.guarded;
  known = λ h. ground (arith, b.reported, h);
}

-- Steps one after the other.
pub Extends-trans :
    {tools : Dict Tool} {s t u : Bool} {w w' w'' : World}
    → Extends tools s w t w'
    → Extends tools t w' u w''
    → Extends tools s w u w''
Extends-trans {tools} {s} {t} {u} {w} a b = record {
  calls = a.calls ++ b.calls;
  made =
      b.made ∙ ap (λ (r : List ToolCall). r ++ b.calls) a.made ∙ append_assoc w.ran a.calls b.calls;
  guarded =
      IsGuarded-append tools s a.calls b.calls a.guarded
        (IsGuarded-mono tools (s || any_untrusted tools a.calls) t b.calls a.known b.guarded);
  known = λ h.
      b.known
        (ground (arith, any-append (λ c. untrusted_name tools c.name) a.calls b.calls, a.known));
}
