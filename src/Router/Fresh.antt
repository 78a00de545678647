-- ===== src/Router/Fresh.antt =====
-- `Router.handle` of src/dudamel/router.py: what a user's message executes.
use dudamel.Prelude.{
  ℕ, ◌≡◌, refl, ap, sym, ◌∙◌, Bool, true, false, String, Option, none, some, List, [], ◌∷◌, ◌++◌,
  append-nil, Text, codes, inl, inr, Bool-cases, if◌then◌else◌,
}
use dudamel.Dict.{lookup}
use dudamel.Llm.{ToolCall, Role}
use dudamel.Store.{World, Confirmation, append, existing_or_new, get_or_create}
use dudamel.Router.Env.{Env, is_off}
use dudamel.Router.Replies.{ChatReply, say, plain}
use dudamel.Router.Confirm.{close_all, auto_decline_pending, handle_new, is_duplicate, handle}
use dudamel.Router.Taint.{IsGuarded}
use dudamel.Router.Trace.{log-ran}
use dudamel.Router.Guard.{CompactorKeeps, append-ran, loop-IsGuarded}
use dudamel.Router.Consent.{close-ran}

close_all-ran :
    (env : Env) (rows : List Confirmation) (w : World) → (close_all env rows w).ran ≡ w.ran
unfolding close_all
close_all-ran env [] w = refl
close_all-ran env (row ∷ rows) w =
    close_all-ran env rows _
    ∙ log-ran env _ _ _ _ _ _
    ∙ close-ran row (codes "declined (superseded)") w

auto_decline-ran :
    (env : Env) (conv : ℕ) (w : World) → (auto_decline_pending env conv w).ran ≡ w.ran
unfolding auto_decline_pending
auto_decline-ran env conv w = close_all-ran env _ _

-- The calls made between two worlds, guarded from a clean start.
abbrev MadeGuarded : Env → World → World → Type 0
MadeGuarded env w w' =
    (calls : List ToolCall) × (w'.ran ≡ w.ran ++ calls) × IsGuarded env.tools false calls

MadeGuarded-none : (env : Env) (w w' : World) → w'.ran ≡ w.ran → MadeGuarded env w w'
MadeGuarded-none env w w' same = ([], same ∙ sym (append-nil w.ran), tt)

module _ (env : Env) (keeps : CompactorKeeps env.compactor)
    (on : is_off env.config.taint_mode ≡ false) where
  handle_new-MadeGuarded :
      (conv : ℕ) (text : Text) (user_id : String) (i : Option String) (tier : String) (w : World)
      → MadeGuarded env w (handle_new env conv text user_id i tier w).1
  unfolding handle_new
  handle_new-MadeGuarded conv text user_id i tier w =
      let w1 = auto_decline_pending env conv w in
      let same : (append conv (plain Role.user text) i w1).1.ran ≡ w.ran =
        append-ran conv (plain Role.user text) i w1 ∙ auto_decline-ran env conv w in
      let (calls, made, guarded) =
        loop-IsGuarded env
          (record {
            conv_id = conv;
            tier = tier;
            user_id = user_id;
            start_iteration = 0;
            executed_any = false;
            initial_taint = false;
            resumed_offered = none;
            resumed_called = none;
          })
          (append conv (plain Role.user text) i w1).1 on keeps in
      elim (Bool-cases (append conv (plain Role.user text) i w1).0) [
        | inl e ↦ rw e (calls, made ∙ ap (λ (r : List ToolCall). r ++ calls) same, guarded)
        | inr e ↦ rw e (MadeGuarded-none env w (append conv (plain Role.user text) i w1).1 same)
      ]

  handled-MadeGuarded :
      (duplicate : Bool) (conv : ℕ) (text : Text) (user_id : String) (i : Option String)
      (tier : String) (r : ChatReply) (w : World)
      → MadeGuarded env w
          (if duplicate then (r, w) else handle_new env conv text user_id i tier w).1
  handled-MadeGuarded true conv text user_id i tier r w = MadeGuarded-none env w w refl
  handled-MadeGuarded false conv text user_id i tier r w =
      handle_new-MadeGuarded conv text user_id i tier w

get_or_create-ran : (channel : String) (w : World) → (get_or_create channel w).1.ran ≡ w.ran
unfolding get_or_create
get_or_create-ran channel w = for_channel (lookup channel w.channels)
  where
    for_channel : (o : Option ℕ) → (existing_or_new channel w o).1.ran ≡ w.ran
    for_channel none = unfold existing_or_new in refl
    for_channel (some conv) = unfold existing_or_new in refl

-- Under a taint rule, the tool functions that are called for a user's message are guarded: after
-- the first call of an untrusted tool, each is of a read-only tool that is not marked `confirm`. A
-- compactor is assumed to call no tool.
pub handle-IsGuarded :
    (env : Env) (channel : String) (text : Text) (user_id : String) (i : Option String)
    (tier : String) (w : World)
    → CompactorKeeps env.compactor
    → is_off env.config.taint_mode ≡ false
    → (calls : List ToolCall) × ((handle env channel text user_id i tier w).1.ran ≡ w.ran ++ calls)
      × IsGuarded env.tools false calls
unfolding handle
handle-IsGuarded env channel text user_id i tier w keeps on =
    let (calls, made, guarded) =
      handled-MadeGuarded env keeps on
        (is_duplicate (get_or_create channel w).0 i (get_or_create channel w).1)
        (get_or_create channel w).0 text user_id i tier (say []) (get_or_create channel w).1 in
    (calls, made ∙ ap (λ (r : List ToolCall). r ++ calls) (get_or_create-ran channel w), guarded)
