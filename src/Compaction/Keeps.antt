-- ===== src/Compaction/Keeps.antt =====
-- src/dudamel/compaction.py as the compactor that src/dudamel/router.py takes.
use dudamel.Prelude.{
  is_empty, ℕ, ◌+◌, take, ◌≡◌, refl, Bool, ◌||◌, String, Option, none, some, List, inl, inr,
  Bool-cases, leb, Text, [], ◌∷◌,
}
use dudamel.Llm.{Message}
use dudamel.Store.{World, Summary}
use dudamel.Router.Env.{Compactor}
use dudamel.Router.Guard.{KeepsTurn}
use dudamel.Compaction.{
  Settings, SummaryAnswer, summarized, failed, newest, write, is_taken, after_text, after_answer,
  summarize_span, covers, at_watermark, watermark_id, compact_once, cached, remember, with_cache,
  maybe_compact, clean_summary_text, summary_prompt,
}

-- The compactor of these settings, with the operations that a turn calls.
abbrev pub compactor_of : Settings → Compactor
compactor_of env = record { newest = newest; maybe_compact = maybe_compact env }

-- A step that leaves what a turn reads back.
record IsAside (w w' : World) : Type 0 where
  ran : w'.ran ≡ w.ran
  rows : w'.rows ≡ w.rows
  confirmations : w'.confirmations ≡ w.confirmations

IsAside-refl : (w : World) → IsAside w w
IsAside-refl w = record { ran = refl; rows = refl; confirmations = refl }

write-IsAside :
    (conv up_to : ℕ) (text : Text) (tainted : Bool) (w : World)
    → IsAside w (write conv up_to text tainted w).1
unfolding write
write-IsAside conv up_to text tainted w = elim (Bool-cases (is_taken conv up_to w.summaries)) [
  | inl e ↦ rw e (IsAside-refl w)
  | inr e ↦ rw e (record { ran = refl; rows = refl; confirmations = refl })
]

module _ (env : Settings) (conv : ℕ) where
  after_answer-IsAside :
      (up_to : ℕ) (tainted : Bool) (answer : SummaryAnswer) (w : World)
      → IsAside w (after_answer env conv up_to tainted answer w).1
  unfolding after_answer
  after_answer-IsAside up_to tainted failed w = IsAside-refl w
  after_answer-IsAside up_to tainted (summarized t) w =
      for_text (clean_summary_text t env.max_summary_chars)
    where
      for_text : (t' : Text) → IsAside w (after_text conv up_to tainted t' w).1
      for_text [] = unfold after_text in IsAside-refl w
      for_text (c ∷ t') = unfold after_text in write-IsAside conv up_to (c ∷ t') tainted w

  at_watermark-IsAside :
      (history : List Message) (dropped : ℕ) (tainted : Bool) (o : Option ℕ) (w : World)
      → IsAside w (at_watermark env conv history dropped tainted o w).1
  unfolding at_watermark summarize_span
  at_watermark-IsAside history dropped tainted none w = IsAside-refl w
  at_watermark-IsAside history dropped tainted (some mark) w =
      let asked : World = record w { summary_calls = w.summary_calls + 1 } in
      let aside =
        after_answer-IsAside mark tainted
          (env.summarize w.summary_calls env.tier (summary_prompt (take dropped history))) asked in
      elim (Bool-cases (covers mark (newest conv w))) [
        | inl e ↦ rw e (IsAside-refl w)
        | inr e ↦
            rw e
              (record { ran = aside.ran; rows = aside.rows; confirmations = aside.confirmations })
      ]

  with_cache-IsAside :
      (history : List Message) (dropped : ℕ) (key : String) (tainted : Bool)
      (o : Option (Option Summary)) (w : World)
      → IsAside w (with_cache env conv history dropped key tainted o w).1
  unfolding with_cache remember compact_once
  with_cache-IsAside history dropped key tainted (some result) w = IsAside-refl w
  with_cache-IsAside history dropped key tainted none w =
      let aside =
        at_watermark-IsAside history dropped tainted (watermark_id env conv history dropped w) w in
      record { ran = aside.ran; rows = aside.rows; confirmations = aside.confirmations }

  maybe_compact-IsAside :
      (history : List Message) (dropped : ℕ) (key : String) (tainted : Bool) (w : World)
      → IsAside w (maybe_compact env conv history dropped key tainted w).1
  unfolding maybe_compact
  maybe_compact-IsAside history dropped key tainted w =
      let aside = with_cache-IsAside history dropped key tainted (cached conv key w.turn_cache) w in
      elim (Bool-cases (leb dropped 0 || is_empty history)) [
        | inl e ↦ rw e (IsAside-refl w)
        | inr e ↦ rw e aside
      ]

-- The compactor fills the interface that the router's theorems assume: it calls no tool, and
-- changes neither the messages nor the confirmations.
pub compactor_of-KeepsTurn : (env : Settings) → KeepsTurn (compactor_of env)
compactor_of-KeepsTurn env = record {
  ran =
      λ conv history dropped key t w. (maybe_compact-IsAside env conv history dropped key t w).ran;
  rows =
      λ conv history dropped key t w. (maybe_compact-IsAside env conv history dropped key t w).rows;
  confirmations = λ conv history dropped key t w.
      (maybe_compact-IsAside env conv history dropped key t w).confirmations;
}
