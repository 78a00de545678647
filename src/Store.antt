-- ===== src/Store.antt =====
-- The rows that a turn reads and writes (src/dudamel/models_core.py), what the outside world has
-- been asked for, and the conversation store (src/dudamel/convo.py).
use dudamel.Prelude.{
  ℕ, ◌+◌, ◌-◌, Bool, true, false, ◌&&◌, String, ◌==◌, Option, none, some, List, [], ◌∷◌, ◌++◌, Text,
  map, keep, take, drop, length, any, nat_eq, if◌then◌else◌,
}
use dudamel.Dict.{Dict, lookup, insert}
use dudamel.Llm.{Message, ToolCall}
use dudamel.Llm.Json.{Fields}

-- A row of `messages`; the table holds them in the order of their ids.
pub record Row : Type 0 where
  pub id : ℕ
  pub conversation_id : ℕ
  pub message : Message
  pub client_msg_id : Option String

-- `loop_state` of a suspended turn; the two lists are missing in rows of older builds.
pub record LoopState : Type 0 where
  pub assistant : Message
  pub results : List Message
  pub pending_call_id : String
  pub iteration : ℕ
  pub tier : String
  pub executed_any : Bool
  pub turn_tainted : Bool
  pub offered_tools : Option (List String)
  pub called_tools : Option (List String)

pub data Status : Type 0 where
  pending confirmed declined expired : Status

abbrev pub is_pending : Status → Bool
is_pending pending = true
is_pending _ = false

-- A row of `pending_confirmations`, in the order of creation.
pub record Confirmation : Type 0 where
  pub id : String
  pub conversation_id : ℕ
  pub user_id : String
  pub tool : String
  pub args : Fields
  pub loop_state : LoopState
  pub status : Status
  pub expires_at : ℕ

pub record Activity : Type 0 where
  pub tool : String
  pub args : Fields
  pub status : String
  pub result_preview : Option Text
  pub conversation_id : ℕ
  pub source : Option String

pub record Summary : Type 0 where
  pub id : ℕ
  pub conversation_id : ℕ
  pub up_to_message_id : ℕ
  pub text : Text
  pub tainted : Bool

-- What `Compactor` remembers of a turn: the conversation, the turn's key, and the answer given.
pub record TurnEntry : Type 0 where
  pub conversation_id : ℕ
  pub turn_key : String
  pub result : Option Summary

-- The database, the compactor's memory, and a count of what was asked of the outside: tool
-- functions called, in order, model calls, readings of the clock, ids drawn, attempts to write an
-- activity row, and summaries asked for.
pub record World : Type 0 where
  pub channels : Dict ℕ
  pub next_conversation : ℕ
  pub rows : List Row
  pub next_row : ℕ
  pub confirmations : List Confirmation
  pub activity : List Activity
  pub summaries : List Summary
  pub next_summary : ℕ
  pub turn_cache : List TurnEntry
  pub ran : List ToolCall
  pub model_calls : ℕ
  pub clock_reads : ℕ
  pub ids_drawn : ℕ
  pub log_attempts : ℕ
  pub summary_calls : ℕ

-- `ConversationStore.get_or_create`, where no other writer creates the channel meanwhile.
unfoldable pub existing_or_new : String → World → Option ℕ → ℕ × World
existing_or_new channel w (some conv) = (conv, w)
existing_or_new channel w none = (
  w.next_conversation,
  record w {
    channels = insert channel w.next_conversation w.channels;
    next_conversation = w.next_conversation + 1;
  },
)

unfoldable pub get_or_create : String → World → ℕ × World
get_or_create channel w = existing_or_new channel w (lookup channel w.channels)

abbrev pub of_conversation : ℕ → List Row → List Row
of_conversation conv rows = keep (λ r. nat_eq r.conversation_id conv) rows

-- The messages of one conversation, oldest first.
abbrev pub messages_of : ℕ → List Row → List Message
messages_of conv rows = map (λ r. r.message) (of_conversation conv rows)

abbrev pub history_limit : ℕ
history_limit = 200

-- `ConversationStore.recent`: the newest 200, oldest first.
unfoldable pub recent : ℕ → World → List Message
recent conv w =
    let messages = messages_of conv w.rows in drop (length messages - history_limit) messages

abbrev pub same_id : Option String → String → Bool
same_id none i = false
same_id (some j) i = j == i

-- The duplicate checks of `append` and `Router.handle`.
unfoldable pub has_client_msg_id : ℕ → String → World → Bool
has_client_msg_id conv i w =
    any (λ r. nat_eq r.conversation_id conv && same_id r.client_msg_id i) w.rows

abbrev pub add_row : ℕ → Option String → Message → World → World
add_row conv client_msg_id m w = record w {
  rows =
      w.rows
      ++ (record {
        id = w.next_row;
        conversation_id = conv;
        message = m;
        client_msg_id = client_msg_id;
      }
          ∷ []);
  next_row = w.next_row + 1;
}

-- `ConversationStore.append`, with no other writer between the check and the commit; false for a
-- duplicate.
unfoldable pub append : ℕ → Message → Option String → World → Bool × World
unfolding has_client_msg_id
append conv m none w = (true, add_row conv none m w)
append conv m (some i) w =
    if has_client_msg_id conv i w then (false, w) else (true, add_row conv (some i) m w)

-- `ConversationStore.append_many`: one transaction, a row for each message in order.
unfoldable pub append_many : ℕ → List Message → World → World
append_many conv [] w = w
append_many conv (m ∷ ms) w = append_many conv ms (add_row conv none m w)

abbrev pub preview_cap : ℕ
preview_cap = 500

-- `(result_preview or "")[:_PREVIEW_CAP] or None`
abbrev pub preview : Option Text → Option Text
preview none = none
preview (some []) = none
preview (some (c ∷ t)) = some (take preview_cap (c ∷ t))

-- `log_activity` of src/dudamel/activity.py, for the router.
unfoldable pub log_activity : String → Fields → String → Option Text → ℕ → World → World
log_activity tool args status result_preview conv w = record w {
  activity =
      w.activity
      ++ (record {
        tool = tool;
        args = args;
        status = status;
        result_preview = preview result_preview;
        conversation_id = conv;
        source = some "router";
      }
          ∷ []);
}
