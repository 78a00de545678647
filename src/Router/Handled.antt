-- ===== src/Router/Handled.antt =====
-- `Router.handle` of src/dudamel/router.py: what a user's message leaves of the stored histories.
use dudamel.Prelude.{
  ℕ, ◌+◌, refl, Bool, true, false, String, Option, none, some, List, [], ◌∷◌, All, inl, inr,
  Bool-cases, Text, codes, if◌then◌else◌,
}
use dudamel.Dict.{lookup}
use dudamel.Llm.{Role}
use dudamel.Llm.Json.{Fields}
use dudamel.Store.{World, Confirmation, append, get_or_create, existing_or_new}
use dudamel.Router.Env.{Env, log}
use dudamel.Router.Batch.{tool_message}
use dudamel.Router.Replies.{ChatReply, plain}
use dudamel.Router.Confirm.{
  close_suspended_turn, awaits, sweep, close_all, auto_decline_pending, handle_new, handle,
}
use dudamel.Router.Guard.{CompactorKeeps}
use dudamel.Router.History.{
  IsSuspended, IsSuspended-close, IsSound, IsSame, IsSame-refl, IsSame-IsSound, append_many-IsSound,
  append-IsSound, silent-IsClosed,
}
use dudamel.Router.Sound.{loop-IsSound}
use dudamel.Router.Unchanged.{log-IsSame}

abbrev pub AllSuspended : List Confirmation → Type 0
AllSuspended rows = All (λ row. IsSuspended row.loop_state) rows

pub log-IsSound :
    (env : Env) (tool : String) (args : Fields) (status : String) (preview : Option Text) (conv : ℕ)
    (w : World)
    → IsSound w
    → IsSound (log env tool args status preview conv w)
log-IsSound env tool args status preview conv w h =
    IsSame-IsSound (log-IsSame env tool args status preview conv w) h

pub close-IsSound :
    (row : Confirmation) (note : Text) (w : World)
    → IsSuspended row.loop_state
    → IsSound w
    → IsSound (close_suspended_turn row note w)
unfolding close_suspended_turn
close-IsSound row note w suspended h =
    append_many-IsSound row.conversation_id _ w
      (IsSuspended-close row.loop_state (tool_message note row.loop_state.pending_call_id true)
        suspended (refl, refl))
      h

sweep-AllSuspended :
    (env : Env) (conv reads : ℕ) (rows : List Confirmation)
    → AllSuspended rows
    → AllSuspended (sweep env conv reads rows).table
      × AllSuspended (sweep env conv reads rows).closed
unfolding sweep
sweep-AllSuspended env conv reads [] h = (tt, tt)
sweep-AllSuspended env conv reads (row ∷ rows) h = elim (Bool-cases (awaits conv row)) [
  | inl e ↦
      let rest = sweep-AllSuspended env conv (reads + 1) rows h.1 in
      rw e ((h.0, rest.0), (h.0, rest.1))
  | inr e ↦ let rest = sweep-AllSuspended env conv reads rows h.1 in rw e ((h.0, rest.0), rest.1)
]

close_all-IsSound :
    (env : Env) (rows : List Confirmation) (w : World)
    → AllSuspended rows
    → IsSound w
    → IsSound (close_all env rows w)
unfolding close_all
close_all-IsSound env [] w suspended h = h
close_all-IsSound env (row ∷ rows) w suspended h = close_all-IsSound env rows _ suspended.1 (
    log-IsSound env _ _ _ _ _ _ (close-IsSound row (codes "declined (superseded)") w suspended.0 h))

auto_decline-IsSound :
    (env : Env) (conv : ℕ) (w : World) → IsSound w → IsSound (auto_decline_pending env conv w)
unfolding auto_decline_pending
auto_decline-IsSound env conv w h =
    let swept = sweep-AllSuspended env conv w.clock_reads w.confirmations h.suspended in
    close_all-IsSound env _ _ swept.1 (record { closed = h.closed; suspended = swept.0 })

module _ (env : Env) (keeps : CompactorKeeps env.compactor) where
  handle_new-IsSound :
      (conv : ℕ) (text : Text) (user_id : String) (i : Option String) (tier : String) (w : World)
      → IsSound w
      → IsSound (handle_new env conv text user_id i tier w).1
  unfolding handle_new
  handle_new-IsSound conv text user_id i tier w h =
      let w1 = auto_decline_pending env conv w in
      let stored =
        append-IsSound conv (plain Role.user text) i w1
          (silent-IsClosed (plain Role.user text) refl) (auto_decline-IsSound env conv w h) in
      elim (Bool-cases (append conv (plain Role.user text) i w1).0) [
        | inl e ↦ rw e (loop-IsSound env _ _ keeps stored)
        | inr e ↦ rw e stored
      ]

  handled-IsSound :
      (duplicate : Bool) (conv : ℕ) (text : Text) (user_id : String) (i : Option String)
      (tier : String) (r : ChatReply) (w : World)
      → IsSound w
      → IsSound (if duplicate then (r, w) else handle_new env conv text user_id i tier w).1
  handled-IsSound true conv text user_id i tier r w h = h
  handled-IsSound false conv text user_id i tier r w h =
      handle_new-IsSound conv text user_id i tier w h

existing_or_new-IsSame :
    (channel : String) (w : World) (o : Option ℕ) → IsSame w (existing_or_new channel w o).1
unfolding existing_or_new
existing_or_new-IsSame channel w (some conv) = IsSame-refl w
existing_or_new-IsSame channel w none = record { rows = refl; confirmations = refl }

get_or_create-IsSame : (channel : String) (w : World) → IsSame w (get_or_create channel w).1
unfolding get_or_create
get_or_create-IsSame channel w = existing_or_new-IsSame channel w (lookup channel w.channels)

-- A user's message, handled in whichever way the model and the tools answer, keeps the histories
-- sound: what a conversation calls is answered in it, and each stored confirmation belongs to a
-- turn that lacks the answer to its pending call and nothing else. A compactor is assumed to
-- change neither the messages nor the confirmations.
pub handle-IsSound :
    (env : Env) (channel : String) (text : Text) (user_id : String) (i : Option String)
    (tier : String) (w : World)
    → CompactorKeeps env.compactor
    → IsSound w
    → IsSound (handle env channel text user_id i tier w).1
unfolding handle
handle-IsSound env channel text user_id i tier w keeps h =
    handled-IsSound env keeps _ _ text user_id i tier _ _
      (IsSame-IsSound (get_or_create-IsSame channel w) h)
