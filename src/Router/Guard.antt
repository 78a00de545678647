-- ===== src/Router/Guard.antt =====
-- The taint rule for a whole call of `Router._loop` of src/dudamel/router.py.
use dudamel.Prelude.{
  ℕ, zero, suc, ◌+◌, ◌≡◌, refl, sym, ◌∙◌, Bool, true, false, String, Option, none, some, List, [],
  ◌∷◌, ◌++◌, append-nil, ltb, take, arith, inl, inr, Bool-cases, Option-cases,
}
use dudamel.Dict.{Dict}
use dudamel.Llm.{Message, ToolCall}
use dudamel.Window.{WindowBuild, build_window}
use dudamel.Router.Gate.{window_tainted}
use dudamel.Contract.{Tool}
use dudamel.Store.{World, Summary, append_many, append, recent}
use dudamel.Router.Env.{Env, Compactor, ModelAnswer, is_off}
use dudamel.Router.Batch.{BatchOutcome, execute_batch}
use dudamel.Router.Turn.{
  Context, Progress, Step, reply, next, prepare, compacted, after_compaction, without_summary,
  with_summary, suspend, after_batch, after_message, after_model, batch_progress, iterate,
}
use dudamel.Router.Replies.{ChatReply}
use dudamel.Router.Loop.{Start, after_step, iterations, loop, seed_taint}
use dudamel.Router.Taint.{IsGuarded}
use dudamel.Router.Trace.{Extends, Extends-trans, IsBatch-Extends, execute_batch-IsBatch}

-- What the loop relies on: a compaction calls no tool, and writes no message or confirmation.
pub record KeepsTurn (c : Compactor) : Type 0 where
  pub ran :
      (conv : ℕ) (history : List Message) (dropped : ℕ) (key : String) (t : Bool) (w : World)
      → (c.maybe_compact conv history dropped key t w).1.ran ≡ w.ran
  pub rows :
      (conv : ℕ) (history : List Message) (dropped : ℕ) (key : String) (t : Bool) (w : World)
      → (c.maybe_compact conv history dropped key t w).1.rows ≡ w.rows
  pub confirmations :
      (conv : ℕ) (history : List Message) (dropped : ℕ) (key : String) (t : Bool) (w : World)
      → (c.maybe_compact conv history dropped key t w).1.confirmations ≡ w.confirmations

abbrev pub CompactorKeeps : Option Compactor → Type 0
CompactorKeeps none = Unit
CompactorKeeps (some c) = KeepsTurn c

-- A step that calls no tool and does not forget the taint.
pub Extends-none :
    {tools : Dict Tool} {tainted left : Bool} {w w' : World}
    → w'.ran ≡ w.ran
    → (tainted ≡ true → left ≡ true)
    → Extends tools tainted w left w'
Extends-none {tainted = tainted} {w = w} same keeps = record {
  calls = [];
  made = same ∙ sym (append-nil w.ran);
  guarded = tt;
  known = λ h. keeps (ground arith);
}

pub append_many-ran :
    (conv : ℕ) (ms : List Message) (w : World) → (append_many conv ms w).ran ≡ w.ran
unfolding append_many
append_many-ran conv [] w = refl
append_many-ran conv (m ∷ ms) w = append_many-ran conv ms _

pub append-ran :
    (conv : ℕ) (m : Message) (i : Option String) (w : World) → (append conv m i w).1.ran ≡ w.ran
unfolding append
append-ran conv m none w = refl
append-ran conv m (some i) w = ground arith

without_summary-tainted :
    (env : Env) (tainted : Bool) (body : List Message)
    → tainted ≡ true
    → (without_summary env tainted body).tainted ≡ true
unfolding without_summary
without_summary-tainted env tainted body h = ground arith

with_summary-tainted :
    (env : Env) (tainted : Bool) (history : List Message) (summary : Summary)
    → tainted ≡ true
    → (with_summary env tainted history summary).tainted ≡ true
unfolding with_summary
with_summary-tainted env tainted history summary h = ground arith

module _ (env : Env) (ctx : Context) where
  after_compaction-Extends :
      (tainted : Bool) (history : List Message) (built : WindowBuild) (w : World)
      (o : Option Summary) (w' : World)
      → w'.ran ≡ w.ran
      → let (prepared, w'') = after_compaction env tainted history built (o, w') in
        Extends env.tools tainted w prepared.tainted w''
  unfolding after_compaction
  after_compaction-Extends tainted history built w none w' same =
      Extends-none same (without_summary-tainted env tainted built.messages)
  after_compaction-Extends tainted history built w (some s) w' same =
      Extends-none same (with_summary-tainted env tainted history s)

  compacted-Extends :
      (tainted : Bool) (history : List Message) (built : WindowBuild) (c : Option Compactor)
      (w : World)
      → CompactorKeeps c
      → let (prepared, w') = compacted env ctx tainted history built c w in
        Extends env.tools tainted w prepared.tainted w'
  unfolding compacted
  compacted-Extends tainted history built none w keeps =
      Extends-none refl (without_summary-tainted env tainted built.messages)
  compacted-Extends tainted history built (some c) w keeps =
      let span = window_tainted env.tools (take built.dropped history) in
      let result = c.maybe_compact ctx.conv_id history built.dropped ctx.turn_key span w in
      elim (Bool-cases (ltb 0 built.dropped)) [
        | inl drops ↦ rw drops (
            after_compaction-Extends tainted history built w result.0 result.1
              (keeps.ran ctx.conv_id history built.dropped ctx.turn_key span w))
        | inr nothing ↦
            rw nothing (Extends-none refl (without_summary-tainted env tainted built.messages))
      ]

  prepare-Extends :
      (tainted : Bool) (w : World)
      → CompactorKeeps env.compactor
      → let (prepared, w') = prepare env ctx tainted w in
        Extends env.tools tainted w prepared.tainted w'
  unfolding prepare
  prepare-Extends tainted w keeps =
      let history = recent ctx.conv_id w in
      compacted-Extends tainted history
        (build_window history env.config.window_tokens env.config.tool_result_cap) env.compactor w
        keeps

-- The taint with which the next iteration starts; after a reply there is none, and any will do.
abbrev step_taint : Step → Bool
step_taint (reply r) = true
step_taint (next progress) = progress.turn_tainted

module _ (env : Env) (ctx : Context) (on : is_off env.config.taint_mode ≡ false) where
  after_batch-Extends :
      (msg : Message) (progress : Progress) (offered : List String) (outcome : BatchOutcome)
      (w : World) (o : Option ToolCall)
      → let (step, w') = after_batch env ctx msg progress offered outcome w o in
        Extends env.tools progress.turn_tainted w (step_taint step) w'
  unfolding after_batch suspend
  after_batch-Extends msg progress offered outcome w none =
      Extends-none (append_many-ran ctx.conv_id (msg ∷ outcome.results) w) (λ h. h)
  after_batch-Extends msg progress offered outcome w (some call) = Extends-none refl (λ h. refl)

  after_message-Extends :
      (progress : Progress) (offered : List String) (msg : Message) (calls : List ToolCall)
      (w : World)
      → let (step, w') = after_message env ctx progress offered msg calls w in
        Extends env.tools progress.turn_tainted w (step_taint step) w'
  unfolding after_message
  after_message-Extends progress offered msg [] w =
      Extends-none (append-ran ctx.conv_id msg none w) (λ h. refl)
  after_message-Extends progress offered msg (c ∷ cs) w =
      let (outcome, w') = execute_batch env ctx.conv_id progress.turn_tainted (c ∷ cs) w in
      Extends-trans
        (IsBatch-Extends
          (execute_batch-IsBatch env ctx.conv_id progress.turn_tainted (c ∷ cs) w on))
        (after_batch-Extends msg (batch_progress progress outcome (c ∷ cs)) offered outcome w'
          outcome.pending)

  after_model-Extends :
      (progress : Progress) (offered : List String) (answer : ModelAnswer) (w : World)
      → let (step, w') = after_model env ctx progress offered answer w in
        Extends env.tools progress.turn_tainted w (step_taint step) w'
  unfolding after_model
  after_model-Extends progress offered (ModelAnswer.completion msg) w =
      after_message-Extends progress offered msg msg.tool_calls w
  after_model-Extends progress offered (ModelAnswer.budget_exceeded e) w =
      Extends-none refl (λ h. refl)
  after_model-Extends progress offered (ModelAnswer.request_rejected e) w =
      Extends-none refl (λ h. refl)
  after_model-Extends progress offered (ModelAnswer.model_failed e) w =
      Extends-none refl (λ h. refl)

  iterate-Extends :
      (progress : Progress) (w : World)
      → CompactorKeeps env.compactor
      → let (step, w') = iterate env ctx progress w in
        Extends env.tools progress.turn_tainted w (step_taint step) w'
  unfolding iterate
  iterate-Extends progress w keeps =
      let (prepared, w') = prepare env ctx progress.turn_tainted w in
      Extends-trans (prepare-Extends env ctx progress.turn_tainted w keeps) (
        Extends-trans
          (Extends-none {w' = record w' { model_calls = w'.model_calls + 1 }} refl (λ h. h))
          (after_model-Extends _ _ _ _))

  step-Extends :
      (go_on : Progress → World → ChatReply × World)
      → ((progress : Progress) (w : World)
          → Extends env.tools progress.turn_tainted w true (go_on progress w).1)
      → (step : Step) (w : World)
      → Extends env.tools (step_taint step) w true (after_step go_on step w).1
  unfolding after_step
  step-Extends go_on rest (reply r) w = Extends-none refl (λ h. refl)
  step-Extends go_on rest (next progress) w = rest progress w

  -- After the loop the turn counts as tainted.
  iterations-Extends :
      (left : ℕ) (progress : Progress) (w : World)
      → CompactorKeeps env.compactor
      → Extends env.tools progress.turn_tainted w true (iterations env ctx left progress w).1
  unfolding iterations
  iterations-Extends zero progress w keeps = Extends-none refl (λ h. refl)
  iterations-Extends (suc left) progress w keeps =
      Extends-trans (iterate-Extends progress w keeps) (
        step-Extends (iterations env ctx left) (λ p w1. iterations-Extends left p w1 keeps)
          (iterate env ctx progress w).0 (iterate env ctx progress w).1)

seed_taint_mono :
    (env : Env) (conv : ℕ) (initial : Bool) (w : World)
    → initial ≡ true
    → seed_taint env conv initial w ≡ true
unfolding seed_taint
seed_taint_mono env conv initial w h = elim (Option-cases env.compactor) [
  | inl e ↦ rw e h
  | inr (c, e) ↦ rw e (ground arith)
]

-- In the modes that have a taint rule, the tool functions that a call of the loop reaches are, in
-- order, such that from a tainted start, or after the first call of an untrusted tool, each is of a
-- read-only tool that is not marked `confirm`. A compactor is assumed to call no tool.
pub loop-IsGuarded :
    (env : Env) (start : Start) (w : World)
    → is_off env.config.taint_mode ≡ false
    → CompactorKeeps env.compactor
    → (calls : List ToolCall) × ((loop env start w).1.ran ≡ w.ran ++ calls)
      × IsGuarded env.tools start.initial_taint calls
unfolding loop
loop-IsGuarded env start w on keeps =
    let whole : Extends env.tools start.initial_taint w true (loop env start w).1 =
      Extends-trans
        (Extends-none {w' = record w { ids_drawn = w.ids_drawn + 1 }} refl
          (seed_taint_mono env start.conv_id start.initial_taint w))
        (iterations-Extends env _ on _ _ _ keeps) in
    (whole.calls, whole.made, whole.guarded)
