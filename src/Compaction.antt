-- ===== src/Compaction.antt =====
-- src/dudamel/compaction.py: the summary of what a window build drops.
pub mod Prompt
pub mod Keeps
pub mod Pruned
pub mod Once
pub mod Newest
use dudamel.Prelude.{
  is_empty, ℕ, zero, suc, ◌+◌, ◌-◌, Bool, true, false, not, ◌&&◌, ◌||◌, String, ◌==◌, Option, none,
  some, List, [], ◌∷◌, ◌++◌, Text, codes, map, keep, take, drop, any, length, leb, ltb, nat_eq,
  strip, after_prefix, before_suffix, if◌then◌else◌,
}
use dudamel.Llm.{Message, ToolCall, Role, is_tool}
use dudamel.Llm.Json.{dumps, obj}
unfoldable pub use Prompt.{clean_summary_text, summary_prompt}
use dudamel.Store.{World, Row, Summary, TurnEntry, of_conversation}

-- The summarizer's model call: its text, or a `DudamelError` or the timeout.
pub data SummaryAnswer : Type 0 where
  summarized : Text → SummaryAnswer
  failed : SummaryAnswer

-- The compactor's settings, its model calls by their number, and Python's `==` on two messages.
pub record Settings : Type 0 where
  pub tier : String
  pub max_summary_chars : ℕ
  pub summarize : ℕ → String → Text → SummaryAnswer
  pub same_message : Message → Message → Bool

abbrev pub keep_per_conversation : ℕ
keep_per_conversation = 3

abbrev pub of_conv : ℕ → List Summary → List Summary
of_conv conv rows = keep (λ s. nat_eq s.conversation_id conv) rows

abbrev pub last {ℓ} : {A : Type ℓ} → List A → Option A
last [] = none
last (x ∷ []) = some x
last (x ∷ y ∷ xs) = last (y ∷ xs)

-- `Compactor.newest`
unfoldable pub newest : ℕ → World → Option Summary
newest conv w = last (of_conv conv w.summaries)

abbrev pub get_elem? {ℓ} : {A : Type ℓ} → List A → ℕ → Option A
get_elem? [] i = none
get_elem? (x ∷ xs) zero = some x
get_elem? (x ∷ xs) (suc i) = get_elem? xs i

-- The newest rows of a conversation, as many as the history has, oldest first.
abbrev pub aligned_rows : ℕ → ℕ → List Row → List Row
aligned_rows conv n rows = let mine = of_conversation conv rows in drop (length mine - n) mine

abbrev pub matches : Settings → Option Row → Option Message → Bool
matches env (some r) (some m) = env.same_message r.message m
matches env _ _ = false

abbrev pub id_of : Option Row → Option ℕ
id_of none = none
id_of (some r) = some r.id

-- The test at both ends of the span.
abbrev pub is_aligned : Settings → List Row → List Message → ℕ → Bool
is_aligned env rows history dropped =
    matches env (get_elem? rows (length rows - 1)) (get_elem? history (length rows - 1))
    && matches env (get_elem? rows (dropped - 1)) (get_elem? history (dropped - 1))

-- `_watermark_id`, without the session's rows
unfoldable pub watermark_of : Settings → List Row → List Message → ℕ → Option ℕ
watermark_of env rows history dropped =
    if ltb dropped 1 || ltb (length rows) dropped
    then none
    else if is_aligned env rows history dropped
    then id_of (get_elem? rows (dropped - 1))
    else none

unfoldable pub watermark_id : Settings → ℕ → List Message → ℕ → World → Option ℕ
watermark_id env conv history dropped w =
    watermark_of env (aligned_rows conv (length history) w.rows) history dropped

abbrev pub is_kept : List ℕ → ℕ → Bool
is_kept ids i = any (λ j. nat_eq j i) ids

-- The ids of the newest three of a conversation.
abbrev pub keep_ids : ℕ → List Summary → List ℕ
keep_ids conv rows =
    let mine = of_conv conv rows in
    map (λ s. s.id) (drop (length mine - keep_per_conversation) mine)

-- `delete(Summary).where(...)`
unfoldable pub prune : ℕ → List Summary → List Summary
prune conv rows =
    keep (λ s. not (nat_eq s.conversation_id conv) || is_kept (keep_ids conv rows) s.id) rows

-- The unique index on a conversation and a watermark.
abbrev pub is_taken : ℕ → ℕ → List Summary → Bool
is_taken conv up_to rows =
    any (λ s. nat_eq s.conversation_id conv && nat_eq s.up_to_message_id up_to) rows

-- `_write`: the row is added and the older ones are pruned; where the index refuses it, the newest
-- row is the answer.
unfoldable pub write : ℕ → ℕ → Text → Bool → World → Option Summary × World
write conv up_to text tainted w =
    let summary : Summary = record {
      id = w.next_summary;
      conversation_id = conv;
      up_to_message_id = up_to;
      text = text;
      tainted = tainted;
    } in
    if is_taken conv up_to w.summaries then (newest conv w, w) else (
      some summary,
      record w {
        summaries = prune conv (w.summaries ++ (summary ∷ []));
        next_summary = w.next_summary + 1;
      },
    )

-- What follows the cleaned text of the summarizer.
unfoldable pub after_text : ℕ → ℕ → Bool → Text → World → Option Summary × World
after_text conv up_to tainted [] w = (none, w)
after_text conv up_to tainted (c ∷ t) w = write conv up_to (c ∷ t) tainted w

unfoldable pub after_answer :
    Settings → ℕ → ℕ → Bool → SummaryAnswer → World → Option Summary × World
after_answer env conv up_to tainted failed w = (none, w)
after_answer env conv up_to tainted (summarized t) w =
    after_text conv up_to tainted (clean_summary_text t env.max_summary_chars) w

-- The summarizer is asked, and its answer stored.
unfoldable pub summarize_span :
    Settings → ℕ → List Message → ℕ → Bool → ℕ → World → Option Summary × World
summarize_span env conv history dropped tainted mark w =
    after_answer env conv mark tainted
      (env.summarize w.summary_calls env.tier (summary_prompt (take dropped history)))
      (record w { summary_calls = w.summary_calls + 1 })

abbrev pub covers : ℕ → Option Summary → Bool
covers mark none = false
covers mark (some s) = leb mark s.up_to_message_id

unfoldable pub at_watermark :
    Settings → ℕ → List Message → ℕ → Bool → Option ℕ → World → Option Summary × World
at_watermark env conv history dropped tainted none w = (none, w)
at_watermark env conv history dropped tainted (some mark) w =
    if covers mark (newest conv w)
    then (newest conv w, w)
    else summarize_span env conv history dropped tainted mark w

-- `_compact_once`
unfoldable pub compact_once :
    Settings → ℕ → List Message → ℕ → Bool → World → Option Summary × World
compact_once env conv history dropped tainted w =
    at_watermark env conv history dropped tainted (watermark_id env conv history dropped w) w

unfoldable pub cached : ℕ → String → List TurnEntry → Option (Option Summary)
cached conv key [] = none
cached conv key (e ∷ es) =
    let rest = cached conv key es in
    if nat_eq e.conversation_id conv && e.turn_key == key then some e.result else rest

-- One entry for each conversation.
unfoldable pub remember : ℕ → String → Option Summary × World → Option Summary × World
remember conv key (result, w) = (
  result,
  record w {
    turn_cache =
        keep (λ e. not (nat_eq e.conversation_id conv)) w.turn_cache
        ++ (record { conversation_id = conv; turn_key = key; result = result } ∷ []);
  },
)

unfoldable pub with_cache :
    Settings
    → ℕ
    → List Message
    → ℕ
    → String
    → Bool
    → Option (Option Summary)
    → World
    → Option Summary × World
with_cache env conv history dropped key tainted (some result) w = (result, w)
with_cache env conv history dropped key tainted none w =
    remember conv key (compact_once env conv history dropped tainted w)

-- `Compactor.maybe_compact`
unfoldable pub maybe_compact :
    Settings → ℕ → List Message → ℕ → String → Bool → World → Option Summary × World
maybe_compact env conv history dropped key tainted w =
    if leb dropped 0 || is_empty history
    then (none, w)
    else with_cache env conv history dropped key tainted (cached conv key w.turn_cache) w
