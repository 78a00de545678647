-- ===== src/Router/Sound.antt =====
-- src/dudamel/router.py: a turn leaves every conversation closed. What changes the messages or the
-- confirmations: an iteration of `_loop`, and the loop.
use dudamel.Prelude.{
  ℕ, zero, suc, ◌≡◌, refl, ap, sym, subst, ◌∙◌, Bool, String, Option, none, some, List, [], ◌∷◌,
  ◌++◌, append-nil, All-append, inl, inr, Bool-cases, ltb, take,
}
use dudamel.Llm.{Message, ToolCall}
use dudamel.Window.{WindowBuild, build_window, answered_ids}
use dudamel.Store.{World, Summary, recent}
use dudamel.Router.Env.{Env, Compactor, ModelAnswer}
use dudamel.Router.Gate.{window_tainted}
use dudamel.Router.Batch.{BatchOutcome, execute_batch}
use dudamel.Router.Replies.{ChatReply}
use dudamel.Router.Turn.{
  Context, Progress, Step, reply, next, prepare, compacted, after_compaction, suspend, after_batch,
  after_message, after_model, batch_progress, iterate,
}
use dudamel.Router.Loop.{Start, after_step, iterations, loop}
use dudamel.Router.Guard.{CompactorKeeps}
use dudamel.Router.Answers.{AllCovered, ids_of_option}
use dudamel.Router.History.{
  IsSuspended, IsSound, IsSame, IsSame-refl, IsSame-IsSound, append_many-IsSound, append-IsSound,
  results-IsClosed, silent-IsClosed,
}
use dudamel.Router.Unchanged.{execute_batch-IsSame, IsAnswered, execute_batch-IsAnswered}

module _ (env : Env) (ctx : Context) where
  after_compaction-IsSame :
      (tainted : Bool) (history : List Message) (built : WindowBuild) (o : Option Summary)
      (w w' : World)
      → IsSame w w'
      → IsSame w (after_compaction env tainted history built (o, w')).1
  unfolding after_compaction
  after_compaction-IsSame tainted history built none w w' same = same
  after_compaction-IsSame tainted history built (some s) w w' same = same

  compacted-IsSame :
      (tainted : Bool) (history : List Message) (built : WindowBuild) (c : Option Compactor)
      (w : World)
      → CompactorKeeps c
      → IsSame w (compacted env ctx tainted history built c w).1
  unfolding compacted
  compacted-IsSame tainted history built none w keeps = IsSame-refl w
  compacted-IsSame tainted history built (some c) w keeps =
      let span = window_tainted env.tools (take built.dropped history) in
      let result = c.maybe_compact ctx.conv_id history built.dropped ctx.turn_key span w in
      elim (Bool-cases (ltb 0 built.dropped)) [
        | inl drops ↦ rw drops (
            after_compaction-IsSame tainted history built result.0 w result.1 (record {
              rows = keeps.rows ctx.conv_id history built.dropped ctx.turn_key span w;
              confirmations =
                  keeps.confirmations ctx.conv_id history built.dropped ctx.turn_key span w;
            }))
        | inr nothing ↦ rw nothing (IsSame-refl w)
      ]

  pub prepare-IsSame :
      (tainted : Bool) (w : World)
      → CompactorKeeps env.compactor
      → IsSame w (prepare env ctx tainted w).1
  unfolding prepare
  prepare-IsSame tainted w keeps =
      compacted-IsSame tainted (recent ctx.conv_id w)
        (build_window (recent ctx.conv_id w) env.config.window_tokens env.config.tool_result_cap)
        env.compactor w keeps

  suspend-IsSound :
      (msg : Message) (outcome : BatchOutcome) (call : ToolCall) (progress : Progress)
      (offered : List String) (w : World)
      → IsAnswered msg.tool_calls outcome
      → outcome.pending ≡ some call
      → IsSound w
      → IsSound (suspend env ctx msg outcome call progress offered w).1
  unfolding suspend
  suspend-IsSound msg outcome call progress offered w answered is_pending h = record {
    closed = h.closed;
    suspended =
        All-append (λ row. IsSuspended row.loop_state) w.confirmations _ h.suspended
          (
            record {
              covered = λ role.
                  subst
                    (λ (o : Option ToolCall).
                      AllCovered (answered_ids outcome.results ++ ids_of_option o) msg.tool_calls)
                    is_pending answered.covered;
              results = answered.results;
            },
            tt,
          );
  }

  after_batch-IsSound :
      (msg : Message) (progress : Progress) (offered : List String) (outcome : BatchOutcome)
      (w : World) (o : Option ToolCall)
      → IsAnswered msg.tool_calls outcome
      → outcome.pending ≡ o
      → IsSound w
      → IsSound (after_batch env ctx msg progress offered outcome w o).1
  unfolding after_batch
  after_batch-IsSound msg progress offered outcome w none answered pending h =
      append_many-IsSound ctx.conv_id (msg ∷ outcome.results) w
        (results-IsClosed msg outcome.results
          (subst (λ ids. AllCovered ids msg.tool_calls)
            (ap (λ (o : Option ToolCall). answered_ids outcome.results ++ ids_of_option o) pending
              ∙ append-nil (answered_ids outcome.results))
            answered.covered)
          answered.results)
        h
  after_batch-IsSound msg progress offered outcome w (some call) answered pending h =
      suspend-IsSound msg outcome call progress offered w answered pending h

  after_message-IsSound :
      (progress : Progress) (offered : List String) (msg : Message) (calls : List ToolCall)
      (w : World)
      → msg.tool_calls ≡ calls
      → IsSound w
      → IsSound (after_message env ctx progress offered msg calls w).1
  unfolding after_message
  after_message-IsSound progress offered msg [] w same h =
      append-IsSound ctx.conv_id msg none w (silent-IsClosed msg same) h
  after_message-IsSound progress offered msg (c ∷ cs) w same h =
      let (outcome, w') = execute_batch env ctx.conv_id progress.turn_tainted (c ∷ cs) w in
      after_batch-IsSound msg (batch_progress progress outcome (c ∷ cs)) offered outcome w'
        outcome.pending
        (subst (λ cs'. IsAnswered cs' outcome) (sym same)
          (execute_batch-IsAnswered env ctx.conv_id progress.turn_tainted (c ∷ cs) w))
        refl
        (IsSame-IsSound (execute_batch-IsSame env ctx.conv_id progress.turn_tainted (c ∷ cs) w) h)

  after_model-IsSound :
      (progress : Progress) (offered : List String) (answer : ModelAnswer) (w : World)
      → IsSound w
      → IsSound (after_model env ctx progress offered answer w).1
  unfolding after_model
  after_model-IsSound progress offered (ModelAnswer.completion msg) w h =
      after_message-IsSound progress offered msg msg.tool_calls w refl h
  after_model-IsSound progress offered (ModelAnswer.budget_exceeded e) w h = h
  after_model-IsSound progress offered (ModelAnswer.request_rejected e) w h = h
  after_model-IsSound progress offered (ModelAnswer.model_failed e) w h = h

  iterate-IsSound :
      (progress : Progress) (w : World)
      → CompactorKeeps env.compactor
      → IsSound w
      → IsSound (iterate env ctx progress w).1
  unfolding iterate
  iterate-IsSound progress w keeps h =
      let h' = IsSame-IsSound (prepare-IsSame progress.turn_tainted w keeps) h in
      after_model-IsSound _ _ _ _ (record { closed = h'.closed; suspended = h'.suspended })

  step-IsSound :
      (go_on : Progress → World → ChatReply × World)
      → ((progress : Progress) (w : World) → IsSound w → IsSound (go_on progress w).1)
      → (step : Step) (w : World) → IsSound w
      → IsSound (after_step go_on step w).1
  unfolding after_step
  step-IsSound go_on rest (reply r) w h = h
  step-IsSound go_on rest (next progress) w h = rest progress w h

  iterations-IsSound :
      (left : ℕ) (progress : Progress) (w : World)
      → CompactorKeeps env.compactor
      → IsSound w
      → IsSound (iterations env ctx left progress w).1
  unfolding iterations
  iterations-IsSound zero progress w keeps h = h
  iterations-IsSound (suc left) progress w keeps h =
      step-IsSound (iterations env ctx left) (λ p w1 h1. iterations-IsSound left p w1 keeps h1)
        (iterate env ctx progress w).0 (iterate env ctx progress w).1
        (iterate-IsSound progress w keeps h)

-- The loop keeps the histories closed, and the suspended turns short of one answer.
pub loop-IsSound :
    (env : Env) (start : Start) (w : World)
    → CompactorKeeps env.compactor
    → IsSound w
    → IsSound (loop env start w).1
unfolding loop
loop-IsSound env start w keeps h =
    iterations-IsSound env _ _ _ _ keeps (record { closed = h.closed; suspended = h.suspended })
