-- ===== src/Window.antt =====
-- src/dudamel/window.py: the context window, cut at turn boundaries and free of unpaired calls.
-- The definitions are here; the children prove what each step promises.
pub mod Marker
pub mod Truncate
pub mod Pairs
mod Turns
pub mod Cut
pub mod Sent
use mathlib.Core.List.{flatten, reverse}
use dudamel.Prelude.{
  ℕ, zero, suc, ◌+◌, ◌-◌, ◌/◌, max, Bool, true, false, not, ◌&&◌, ◌||◌, String, ◌==◌, Option, none,
  some, List, [], ◌∷◌, ◌++◌, map, Text, codes, decimal, length, take, any, keep, ltb, leb, is_some,
  if◌then◌else◌,
}
use Marker.{has_marker, marker}
use dudamel.Llm.{Message, ToolCall, Role, is_user, is_assistant, is_tool}
use dudamel.Llm.Json.{dumps, obj}

-- `WindowBuild`
pub record WindowBuild : Type 0 where
  pub messages : List Message
  pub dropped : ℕ

unfoldable pub estimate_tokens : Text → ℕ
estimate_tokens text = max 1 (length text / 4)

call_tokens : List ToolCall → ℕ
unfolding estimate_tokens dumps
call_tokens [] = 0
call_tokens (tc ∷ tcs) = estimate_tokens (codes tc.name ++ dumps (obj tc.args)) + call_tokens tcs

unfoldable pub message_tokens : Message → ℕ
unfolding estimate_tokens call_tokens
message_tokens m = estimate_tokens m.text + call_tokens m.tool_calls

unfoldable pub sum_tokens : List Message → ℕ
sum_tokens [] = 0
sum_tokens (m ∷ ms) = message_tokens m + sum_tokens ms

-- `_MAX_MARKER_CHARS`
abbrev pub max_marker_chars : ℕ
max_marker_chars = length (codes "…[truncated  chars]") + 20

-- A result that is short enough, or that this function has capped before, stays as it is.
unfoldable pub truncate_tool_result : Message → ℕ → Message
truncate_tool_result m cap =
    if not (is_tool m.role) || leb (length m.text) cap
    then m
    else if leb (length m.text) (cap + max_marker_chars) && has_marker m.text
    then m
    else record m { text = take cap m.text ++ marker (length m.text - cap) }

-- The sets of ids, as lists: `x in s` is `contains x s`.
abbrev pub contains : String → List String → Bool
contains x [] = false
contains x (y ∷ ys) = y == x || contains x ys

abbrev pub contains_option : Option String → List String → Bool
contains_option none ys = false
contains_option (some x) ys = contains x ys

-- `{m.tool_call_id for m in messages if m.role == "tool" and m.tool_call_id is not None}`
abbrev id_of_answer : Message → List String
id_of_answer m = if is_tool m.role then elim m.tool_call_id [ none ↦ [] | some i ↦ i ∷ [] ] else []

unfoldable pub answered_ids : List Message → List String
answered_ids [] = []
answered_ids (m ∷ ms) = id_of_answer m ++ answered_ids ms

abbrev pub ids_of_calls : List ToolCall → List String
ids_of_calls = map (λ tc. tc.id)

-- `{tc.id for m in kept for tc in m.tool_calls}`
pub called_ids : List Message → List String
called_ids [] = []
called_ids (m ∷ ms) = ids_of_calls m.tool_calls ++ called_ids ms

abbrev nonempty {ℓ} : {A : Type ℓ} → List A → Bool
nonempty [] = false
nonempty (x ∷ xs) = true

is_dangling : List String → Message → Bool
is_dangling answered m =
    is_assistant m.role
    && (nonempty m.tool_calls && any (λ tc. not (contains tc.id answered)) m.tool_calls)

is_stray : List String → Message → Bool
is_stray called m = is_tool m.role && not (contains_option m.tool_call_id called)

-- `_drop_dangling_tool_calls`
pub drop_dangling_tool_calls : List Message → List Message
unfolding is_dangling is_stray answered_ids called_ids
drop_dangling_tool_calls messages =
    let kept = keep (λ m. not (is_dangling (answered_ids messages) m)) messages in
    keep (λ m. not (is_stray (called_ids kept) m)) kept

-- The state of the loop in `_split_turns`: the finished turns, and the one that is being filled.
pub record Splitting : Type 0 where
  pub turns : List (List Message)
  pub current : List Message

abbrev finish : Splitting → List (List Message)
finish st = elim st.current [ [] ↦ st.turns | _ ∷ _ ↦ st.turns ++ (st.current ∷ []) ]

split_step : Splitting → Message → Splitting
split_step st m =
    if is_user m.role
    then record { turns = finish st; current = m ∷ [] }
    else if nonempty st.current
    then record st { current = st.current ++ (m ∷ []) }
    else st

split_loop : Splitting → List Message → Splitting
unfolding split_step
split_loop st [] = st
split_loop st (m ∷ ms) = split_loop (split_step st m) ms

pub split_turns : List Message → List (List Message)
unfolding split_loop
split_turns messages = finish (split_loop (record { turns = []; current = [] }) messages)

-- The loop over the older turns, newest first, that stops at the first turn over the budget.
grow : ℕ → List (List Message) → ℕ → List (List Message) → List (List Message)
unfolding sum_tokens
grow budget window spent [] = window
grow budget window spent (t ∷ older) =
    let rest = grow budget (t ∷ window) (spent + sum_tokens t) older in
    if ltb budget (spent + sum_tokens t) then window else rest

-- The turns come newest first; `total` is the number of messages.
assemble : ℕ → ℕ → List (List Message) → WindowBuild
unfolding grow drop_dangling_tool_calls
assemble budget total [] = record { messages = []; dropped = total }
assemble budget total (newest ∷ older) =
    let kept = flatten (grow budget (newest ∷ []) (sum_tokens newest) older) in
    record { messages = drop_dangling_tool_calls kept; dropped = total - length kept }

unfoldable pub build_window : List Message → ℕ → ℕ → WindowBuild
unfolding assemble truncate_tool_result split_turns
build_window messages token_budget tool_result_cap =
    assemble token_budget (length messages)
      (reverse (split_turns (map (λ m. truncate_tool_result m tool_result_cap) messages)))
