-- ===== src/Router/Taint.antt =====
-- The taint rule of src/dudamel/router.py as a property of the trace of a turn: which tool
-- functions are called, in order.
use dudamel.Prelude.{
  ℕ, ◌+◌, ◌-◌, ◌≡◌, refl, Bool, true, false, ◌||◌, Option, none, some, List, [], ◌∷◌, ◌++◌,
  or_false, or_assoc, subst, sym, ap, lt→ltb, Text, ◌⊎◌, ◌<◌, ◌≤◌, ltb, any, arith, inl, inr,
  Bool-cases, Option-cases,
}
use dudamel.Dict.{Dict, lookup}
use dudamel.Llm.{ToolCall}
use dudamel.Contract.{Tool, untrusted}
use dudamel.Router.Env.{Env, is_off}
use dudamel.Router.Gate.{needs_confirm, untrusted_name}
use dudamel.Router.Batch.{
  Action, Plan, plan_calls, action_for, is_pending, untrusted_count, untrusted_total,
}

-- A call that needs no approval in a tainted turn: of a read-only tool that is not marked `confirm`.
abbrev pub IsHarmless : Option Tool → Type 0
IsHarmless none = ⊥
IsHarmless (some tool) = (tool.read_only ≡ true) × (tool.confirm ≡ false)

-- From the first call of an untrusted tool on, or from the start if the turn is tainted, only
-- harmless calls are made.
abbrev pub IsGuarded : Dict Tool → Bool → List ToolCall → Type 0
IsGuarded tools tainted [] = Unit
IsGuarded tools tainted (c ∷ cs) =
    (tainted ≡ true → IsHarmless (lookup c.name tools))
    × IsGuarded tools (tainted || untrusted_name tools c.name) cs

-- Whether a trace holds a call of an untrusted tool.
abbrev pub any_untrusted : Dict Tool → List ToolCall → Bool
any_untrusted tools = any (λ c. untrusted_name tools c.name)

pub IsGuarded-append :
    (tools : Dict Tool) (tainted : Bool) (xs ys : List ToolCall)
    → IsGuarded tools tainted xs
    → IsGuarded tools (tainted || any_untrusted tools xs) ys
    → IsGuarded tools tainted (xs ++ ys)
IsGuarded-append tools tainted [] ys hx hy = subst (λ t. IsGuarded tools t ys) (or_false tainted) hy
IsGuarded-append tools tainted (c ∷ xs) ys hx hy = (
  hx.0,
  IsGuarded-append tools (tainted || untrusted_name tools c.name) xs ys hx.1 (
      subst (λ t. IsGuarded tools t ys)
        (or_assoc tainted (untrusted_name tools c.name) (any_untrusted tools xs)) hy),
)

-- More taint asks for more.
pub IsGuarded-mono :
    (tools : Dict Tool) (s t : Bool) (cs : List ToolCall)
    → (s ≡ true → t ≡ true)
    → IsGuarded tools t cs
    → IsGuarded tools s cs
IsGuarded-mono tools s t [] h g = tt
IsGuarded-mono tools s t (c ∷ cs) h g = (
  λ e. g.0 (h e),
  IsGuarded-mono tools (s || untrusted_name tools c.name) (t || untrusted_name tools c.name) cs
      (λ e. ground arith) g.1,
)

-- The calls of a plan that reach their function, in order: those that run and are valid.
abbrev pub if_valid : Option Text → ToolCall → List ToolCall → List ToolCall
if_valid none c cs = c ∷ cs
if_valid (some e) c cs = cs

unfoldable pub trace_of : Env → Plan → List ToolCall
trace_of env [] = []
trace_of env ((c, Action.run tool) ∷ plan) =
    if_valid (env.validate tool c.args) c (trace_of env plan)
trace_of env ((c, a) ∷ plan) = trace_of env plan

needs_confirm-harmless :
    (env : Env) (tool : Tool) (turn_tainted batch : Bool)
    → is_off env.config.taint_mode ≡ false
    → needs_confirm env.config tool turn_tainted batch ≡ false
    → (turn_tainted ≡ true) ⊎ (batch ≡ true)
    → (tool.read_only ≡ true) × (tool.confirm ≡ false)
unfolding needs_confirm
needs_confirm-harmless env tool turn_tainted batch on free reason = ground arith

pub action_unknown :
    (env : Env) (total : ℕ) (turn_tainted waiting : Bool)
    → action_for env total turn_tainted waiting none ≡ Action.unknown
unfolding action_for
action_unknown env total turn_tainted waiting = refl

-- What the gate decides for a registered tool.
pub action_cases :
    (env : Env) (total : ℕ) (turn_tainted waiting : Bool) (tool : Tool)
    → let action = action_for env total turn_tainted waiting (some tool) in
      let batch = ltb 0 (total - untrusted_count (some tool)) in
      ((action ≡ Action.run tool) × (needs_confirm env.config tool turn_tainted batch ≡ false))
      ⊎ ((action ≡ Action.pending) ⊎ (action ≡ Action.skip))
action_cases env total turn_tainted waiting tool =
    let batch = ltb 0 (total - untrusted_count (some tool)) in
    elim (Bool-cases (needs_confirm env.config tool turn_tainted batch)) [
      | inl gated ↦ elim (Bool-cases waiting) [
        | inl behind ↦ inr (inr (unfold action_for in rw (gated, behind)))
        | inr first ↦ inr (inl (unfold action_for in rw (gated, first)))
      ]
      | inr free ↦ inl (unfold action_for in rw free, free)
    ]

module _ (env : Env) (on : is_off env.config.taint_mode ≡ false) (total : ℕ)
    (turn_tainted : Bool) where
  abbrev Rest : Bool → Bool → ToolCall → List ToolCall → Action → Type 0
  Rest waiting tainted c cs a =
      IsGuarded env.tools tainted
        (trace_of env ((c, a) ∷ plan_calls env total turn_tainted (waiting || is_pending a) cs))

  -- A call that runs, if its arguments are valid, before a rest that is guarded.
  run_step :
      (c : ToolCall) (tool : Tool) (seen : ℕ) (tainted : Bool) (cs : List ToolCall)
      → lookup c.name env.tools ≡ some tool
      → needs_confirm env.config tool turn_tainted (ltb 0 (total - untrusted_count (some tool)))
        ≡ false
      → (tainted ≡ true → (turn_tainted ≡ true) ⊎ (0 < seen))
      → seen + untrusted_count (some tool) ≤ total
      → IsGuarded env.tools (tainted || untrusted tool) cs
      → IsGuarded env.tools tainted (if_valid (env.validate tool c.args) c cs)
  run_step c tool seen tainted cs known free why fits rest =
      elim (Option-cases (env.validate tool c.args)) [
        | inl valid ↦ rw valid (
          λ e. rw known (
              needs_confirm-harmless env tool turn_tainted
                (ltb 0 (total - untrusted_count (some tool))) on free (gate_reason (why e) fits)),
          unfold untrusted_name in rw known rest,
        )
        | inr (e, invalid) ↦ rw invalid (
            IsGuarded-mono env.tools tainted (tainted || untrusted tool) cs (λ t. ground arith)
              rest)
      ]
    where
      gate_reason :
          (turn_tainted ≡ true) ⊎ (0 < seen)
          → seen + untrusted_count (some tool) ≤ total
          → (turn_tainted ≡ true) ⊎ (ltb 0 (total - untrusted_count (some tool)) ≡ true)
      gate_reason (inl t) h = inl t
      gate_reason (inr s) h = inr (lt→ltb _ _ (omega arith))

  -- `seen` untrusted calls of the batch stand before the rest.
  pub plan-IsGuarded :
      (waiting : Bool) (seen : ℕ) (tainted : Bool) (cs : List ToolCall)
      → (tainted ≡ true → (turn_tainted ≡ true) ⊎ (0 < seen))
      → seen + untrusted_total env.tools cs ≤ total
      → IsGuarded env.tools tainted (trace_of env (plan_calls env total turn_tainted waiting cs))
  unfolding plan_calls trace_of untrusted_total
  plan-IsGuarded waiting seen tainted [] why fits = tt
  plan-IsGuarded waiting seen tainted (c ∷ cs) why fits =
      elim (Option-cases (lookup c.name env.tools)) [
        | inl unknown ↦ rw unknown (
            subst (Rest waiting tainted c cs) (sym (action_unknown env total turn_tainted waiting))
              (plan-IsGuarded (waiting || false) seen tainted cs why (omega arith)))
        | inr (tool, known) ↦ rw known (elim (action_cases env total turn_tainted waiting tool) [
          | inl (runs, free) ↦ subst (Rest waiting tainted c cs) (sym runs) (
              let count : untrusted_count (lookup c.name env.tools) ≡ untrusted_count (some tool) =
                ap untrusted_count known in
              run_step c tool seen tainted
                (trace_of env (plan_calls env total turn_tainted (waiting || false) cs)) known free
                why (omega (arith, count))
                (plan-IsGuarded (waiting || false) (seen + untrusted_count (some tool))
                  (tainted || untrusted tool) cs (λ e. ground (arith, why)) (omega (arith, count))))
          | inr (inl waits) ↦
              subst (Rest waiting tainted c cs) (sym waits)
                (plan-IsGuarded (waiting || true) seen tainted cs why (omega arith))
          | inr (inr skipped) ↦
              subst (Rest waiting tainted c cs) (sym skipped)
                (plan-IsGuarded (waiting || false) seen tainted cs why (omega arith))
        ])
      ]
