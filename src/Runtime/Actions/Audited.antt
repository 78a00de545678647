-- ===== src/Runtime/Actions/Audited.antt =====
-- `run_action` of src/dudamel/runtime.py: what an action leaves behind.
use dudamel.Prelude.{
  is_some, ◌≡◌, ◌⊎◌, ◌∙◌, refl, sym, ap, subst, inl, inr, Bool, true, false, String, Option, none,
  some, List, [], ◌∷◌, ◌++◌, Text,
}
use dudamel.Dict.{lookup}
use dudamel.Llm.Json.{Fields}
use dudamel.Contract.{Tool}
use dudamel.Registry.{Registry}
use dudamel.Runtime.Actions.{
  ToolEnd, returned, timeout_error, failed, Coerced, coerced, rejected, ActionAnswer, answered,
  unknown_action, log_failed, bad_arguments, timed_out, raised, ActionRow, Audit, ActionEnv,
  ActionCall, action_row, deadline_detail, logged, capped_result, after_call, with_arguments,
  with_label, with_tool, run_action,
}

-- The status that a row has for an answer.
abbrev pub status_for : ActionAnswer → String
status_for (answered text) = "ok"
status_for unknown_action = "error"
status_for log_failed = "error"
status_for (bad_arguments text) = "error"
status_for (timed_out text) = "error"
status_for (raised text) = "error"

-- The tool is registered and has a label.
abbrev pub is_action : Option Tool → Bool
is_action none = false
is_action (some tool) = is_some tool.action

-- The action is a tool with a label; its function is called once, with the arguments as they are
-- coerced, or they are rejected and it is not called; and one row names it, the submitted arguments, the actor, the source and the outcome.
pub record IsAudited (env : ActionEnv) (c : ActionCall) (r : Registry) (audit : Audit)
    (result : ActionAnswer × Audit) : Type 0 where
  pub tool : Tool
  pub label : Text
  pub known : lookup c.tool_name r.tools ≡ some tool
  pub labelled : tool.action ≡ some label
  pub row : ActionRow
  pub rows : result.1.rows ≡ audit.rows ++ (row ∷ [])
  pub named : (row.tool ≡ c.tool_name) × (row.args ≡ c.args)
  pub attributed : (row.actor ≡ c.actor) × (row.source ≡ c.source)
  pub status : row.status ≡ status_for result.0
  pub calls :
      ((text : Text) × (env.coerce tool c.args ≡ rejected text) × (result.1.calls ≡ audit.calls))
      ⊎ ((kwargs : Fields) × (env.coerce tool c.args ≡ coerced kwargs)
          × (result.1.calls ≡ audit.calls ++ ((c.tool_name, kwargs) ∷ [])))

module _ (env : ActionEnv) (c : ActionCall) (r : Registry) (audit : Audit)
    (taken : env.written ≡ true) where
  module _ (tool : Tool) (label : Text) (known : lookup c.tool_name r.tools ≡ some tool)
      (labelled : tool.action ≡ some label) where
    logged-IsAudited :
        (status : String) (text : Text) (answer : ActionAnswer) (audit' : Audit)
        → status ≡ status_for answer
        → audit'.rows ≡ audit.rows
        → ((text : Text) × (env.coerce tool c.args ≡ rejected text) × (audit'.calls ≡ audit.calls))
          ⊎ ((kwargs : Fields) × (env.coerce tool c.args ≡ coerced kwargs)
              × (audit'.calls ≡ audit.calls ++ ((c.tool_name, kwargs) ∷ [])))
        → IsAudited env c r audit (logged env.written (action_row c status text) answer audit')
    unfolding logged
    logged-IsAudited status text answer audit' e rows calls =
        subst (λ b. IsAudited env c r audit (logged b (action_row c status text) answer audit'))
          (sym taken)
          (record {
            tool = tool;
            label = label;
            known = known;
            labelled = labelled;
            row = action_row c status text;
            rows = ap (λ (rs : List ActionRow). rs ++ (action_row c status text ∷ [])) rows;
            named = (refl, refl);
            attributed = (refl, refl);
            status = e;
            calls = calls;
          })

    after_call-IsAudited :
        (end_ : ToolEnd) (kwargs : Fields)
        → env.coerce tool c.args ≡ coerced kwargs
        → IsAudited env c r audit (
            after_call env c tool end_
              (record audit { calls = audit.calls ++ ((c.tool_name, kwargs) ∷ []) }))
    unfolding after_call
    after_call-IsAudited (returned text) kwargs e =
        let shown = capped_result env.tool_result_cap text in
        logged-IsAudited "ok" shown (answered shown) _ refl refl (inr (kwargs, e, refl))
    after_call-IsAudited (timeout_error true text) kwargs e =
        let detail = deadline_detail c tool in
        logged-IsAudited "error" detail (timed_out detail) _ refl refl (inr (kwargs, e, refl))
    after_call-IsAudited (timeout_error false text) kwargs e =
        logged-IsAudited "error" text (raised text) _ refl refl (inr (kwargs, e, refl))
    after_call-IsAudited (failed text) kwargs e =
        logged-IsAudited "error" text (raised text) _ refl refl (inr (kwargs, e, refl))

    with_arguments-IsAudited :
        (o : Coerced)
        → env.coerce tool c.args ≡ o
        → IsAudited env c r audit (with_arguments env c tool o audit)
    unfolding with_arguments
    with_arguments-IsAudited (coerced kwargs) e =
        after_call-IsAudited (env.call tool kwargs) kwargs e
    with_arguments-IsAudited (rejected text) e =
        logged-IsAudited "error" text (bad_arguments text) audit refl refl (inl (text, e, refl))

  with_label-IsAudited :
      (tool : Tool) (o : Option Text)
      → lookup c.tool_name r.tools ≡ some tool
      → tool.action ≡ o
      → ((is_action (lookup c.tool_name r.tools) ≡ false)
          × (with_label env c tool o audit ≡ (unknown_action, audit)))
        ⊎ IsAudited env c r audit (with_label env c tool o audit)
  with_label-IsAudited tool none known e = inl (ap is_action known ∙ ap is_some e, refl)
  with_label-IsAudited tool (some label) known e =
      inr (with_arguments-IsAudited tool label known e (env.coerce tool c.args) refl)

  with_tool-IsAudited :
      (o : Option Tool)
      → lookup c.tool_name r.tools ≡ o
      → ((is_action (lookup c.tool_name r.tools) ≡ false)
          × (with_tool env c o audit ≡ (unknown_action, audit)))
        ⊎ IsAudited env c r audit (with_tool env c o audit)
  with_tool-IsAudited none e = inl (ap is_action e, refl)
  with_tool-IsAudited (some tool) e = with_label-IsAudited tool tool.action e refl

  -- A name that is no registered tool with a label is unknown, and nothing is called or written. For
  -- any other exactly one row is written, however the action ends, with the tool, the submitted
  -- arguments, the actor and the source, and with the status `ok` exactly for an answer; the tool's
  -- function is called once, with the coerced arguments, or not at all where they are rejected. The
  -- database is assumed to take the row.
  pub run_action-IsAudited :
      ((is_action (lookup c.tool_name r.tools) ≡ false)
        × (run_action env c r audit ≡ (unknown_action, audit)))
      ⊎ IsAudited env c r audit (run_action env c r audit)
  unfolding run_action
  run_action-IsAudited = with_tool-IsAudited (lookup c.tool_name r.tools) refl
