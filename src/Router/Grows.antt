-- ===== src/Router/Grows.antt =====
-- src/dudamel/router.py: the steps of a turn only ever add confirmations.
use dudamel.Prelude.{
  ℕ, zero, suc, ◌+◌, ◌≡◌, refl, ap, sym, ◌∙◌, String, Option, none, some, List, [], ◌∷◌, ◌++◌,
  append-nil, append_assoc, inl, inr, Bool-cases, Text,
}
use dudamel.Llm.{Message, ToolCall}
use dudamel.Store.{World, Confirmation, append, has_client_msg_id}
use dudamel.Router.Env.{Env, ModelAnswer, log}
use dudamel.Router.Batch.{BatchOutcome, execute_batch}
use dudamel.Router.Replies.{ChatReply}
use dudamel.Router.Turn.{
  Context, Progress, Step, reply, next, prepare, suspend, after_batch, after_message, after_model,
  batch_progress, iterate,
}
use dudamel.Router.Loop.{Start, after_step, iterations, loop}
use dudamel.Router.Confirm.{close_suspended_turn}
use dudamel.Router.Guard.{CompactorKeeps}
use dudamel.Router.History.{append_many-confirmations}
use dudamel.Router.Sound.{prepare-IsSame}
use dudamel.Router.Unchanged.{log-IsSame, execute_batch-IsSame}

-- A step that only adds confirmations.
pub record Grows (w w' : World) : Type 0 where
  pub added : List Confirmation
  pub grown : w'.confirmations ≡ w.confirmations ++ added

pub Grows-same : {w w' : World} → w'.confirmations ≡ w.confirmations → Grows w w'
Grows-same {w} same = record { added = []; grown = same ∙ sym (append-nil w.confirmations) }

pub Grows-trans : {w w' w'' : World} → Grows w w' → Grows w' w'' → Grows w w''
Grows-trans {w} a b = record {
  added = a.added ++ b.added;
  grown =
      b.grown
      ∙ ap (λ (r : List Confirmation). r ++ b.added) a.grown
      ∙ append_assoc w.confirmations a.added b.added;
}

append-Grows :
    (conv : ℕ) (m : Message) (i : Option String) (w : World) → Grows w (append conv m i w).1
unfolding append
append-Grows conv m none w = Grows-same refl
append-Grows conv m (some i) w = elim (Bool-cases (has_client_msg_id conv i w)) [
  | inl e ↦ rw e (Grows-same refl)
  | inr e ↦ rw e (Grows-same refl)
]

module _ (env : Env) (ctx : Context) where
  after_batch-Grows :
      (msg : Message) (progress : Progress) (offered : List String) (outcome : BatchOutcome)
      (w : World) (o : Option ToolCall)
      → Grows w (after_batch env ctx msg progress offered outcome w o).1
  unfolding after_batch suspend
  after_batch-Grows msg progress offered outcome w none =
      Grows-same (append_many-confirmations ctx.conv_id (msg ∷ outcome.results) w)
  after_batch-Grows msg progress offered outcome w (some call) = record { added = _; grown = refl }

  after_message-Grows :
      (progress : Progress) (offered : List String) (msg : Message) (calls : List ToolCall)
      (w : World)
      → Grows w (after_message env ctx progress offered msg calls w).1
  unfolding after_message
  after_message-Grows progress offered msg [] w = append-Grows ctx.conv_id msg none w
  after_message-Grows progress offered msg (c ∷ cs) w =
      let (outcome, w') = execute_batch env ctx.conv_id progress.turn_tainted (c ∷ cs) w in
      let same = execute_batch-IsSame env ctx.conv_id progress.turn_tainted (c ∷ cs) w in
      Grows-trans (Grows-same same.confirmations) (
        after_batch-Grows msg (batch_progress progress outcome (c ∷ cs)) offered outcome w'
          outcome.pending)

  after_model-Grows :
      (progress : Progress) (offered : List String) (answer : ModelAnswer) (w : World)
      → Grows w (after_model env ctx progress offered answer w).1
  unfolding after_model
  after_model-Grows progress offered (ModelAnswer.completion msg) w =
      after_message-Grows progress offered msg msg.tool_calls w
  after_model-Grows progress offered (ModelAnswer.budget_exceeded e) w = Grows-same refl
  after_model-Grows progress offered (ModelAnswer.request_rejected e) w = Grows-same refl
  after_model-Grows progress offered (ModelAnswer.model_failed e) w = Grows-same refl

  iterate-Grows :
      (progress : Progress) (w : World)
      → CompactorKeeps env.compactor
      → Grows w (iterate env ctx progress w).1
  unfolding iterate
  iterate-Grows progress w keeps =
      let same = prepare-IsSame env ctx progress.turn_tainted w keeps in
      let (prepared, w') = prepare env ctx progress.turn_tainted w in
      let counted : World = record w' { model_calls = w'.model_calls + 1 } in
      Grows-trans {w' = counted} (Grows-same same.confirmations) (after_model-Grows _ _ _ counted)

  step-Grows :
      (go_on : Progress → World → ChatReply × World)
      → ((progress : Progress) (w : World) → Grows w (go_on progress w).1)
      → (step : Step) (w : World) → Grows w (after_step go_on step w).1
  unfolding after_step
  step-Grows go_on rest (reply r) w = Grows-same refl
  step-Grows go_on rest (next progress) w = rest progress w

  iterations-Grows :
      (left : ℕ) (progress : Progress) (w : World)
      → CompactorKeeps env.compactor
      → Grows w (iterations env ctx left progress w).1
  unfolding iterations
  iterations-Grows zero progress w keeps = Grows-same refl
  iterations-Grows (suc left) progress w keeps = Grows-trans (iterate-Grows progress w keeps) (
      step-Grows (iterations env ctx left) (λ p w1. iterations-Grows left p w1 keeps)
        (iterate env ctx progress w).0 (iterate env ctx progress w).1)

pub loop-Grows :
    (env : Env) (start : Start) (w : World)
    → CompactorKeeps env.compactor
    → Grows w (loop env start w).1
unfolding loop
loop-Grows env start w keeps =
    let drawn : World = record w { ids_drawn = w.ids_drawn + 1 } in
    Grows-trans {w' = drawn} (Grows-same refl) (iterations-Grows env _ _ _ drawn keeps)

close-same :
    (row : Confirmation) (note : Text) (w : World)
    → (close_suspended_turn row note w).confirmations ≡ w.confirmations
unfolding close_suspended_turn
close-same row note w = append_many-confirmations row.conversation_id _ w

pub log-Grows :
    (env : Env) (row : Confirmation) (status : String) (preview : Option Text) (note : Text)
    (w : World)
    → Grows w (
        log env row.tool row.args status preview row.conversation_id
          (close_suspended_turn row note w))
log-Grows env row status preview note w =
    let closed = close_suspended_turn row note w in
    let logged = log-IsSame env row.tool row.args status preview row.conversation_id closed in
    Grows-same (logged.confirmations ∙ close-same row note w)
