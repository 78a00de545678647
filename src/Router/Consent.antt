-- ===== src/Router/Consent.antt =====
-- `Router.resolve_confirmation` of src/dudamel/router.py: what an answered confirmation executes.
use dudamel.Prelude.{
  ℕ, ◌+◌, ◌≡◌, ◌⊎◌, refl, ap, sym, ◌∙◌, Bool, true, false, ◌||◌, String, ◌==◌, Option, none, some,
  List, [], ◌∷◌, ◌++◌, append-nil, append_assoc, arith, inl, inr, Bool-cases, ltb, Text, codes,
}
use dudamel.Dict.{lookup}
use dudamel.Llm.{ToolCall}
use dudamel.Contract.{Tool}
use dudamel.Store.{World, Confirmation, Status, is_pending}
use dudamel.Router.Env.{Env, ToolAnswer, is_off}
use dudamel.Router.Gate.{untrusted_name}
use dudamel.Router.Confirm.{
  close_suspended_turn, after_confirmed, confirmed_validation, run_confirmed, execute_confirmed,
}
use dudamel.Router.Resolve.{
  find_confirmation, set_status, resolve_expired, resolve_declined, resolve_approved, settle,
  resolve_row, resolve_confirmation,
}
use dudamel.Router.Taint.{IsGuarded, IsGuarded-mono, any_untrusted}
use dudamel.Router.Trace.{log-ran}
use dudamel.Router.Guard.{CompactorKeeps, append_many-ran, loop-IsGuarded}

abbrev gated_call : Confirmation → ToolCall
gated_call row = record { id = row.loop_state.pending_call_id; name = row.tool; args = row.args }

-- The confirmed call, or nothing.
record Executed (c : ToolCall) (w w' : World) : Type 0 where
  own : List ToolCall
  is_own : (own ≡ []) ⊎ (own ≡ c ∷ [])
  made : w'.ran ≡ w.ran ++ own

Executed-none : (c : ToolCall) {w w' : World} → w'.ran ≡ w.ran → Executed c w w'
Executed-none c {w} same = record {
  own = [];
  is_own = inl refl;
  made = same ∙ sym (append-nil w.ran);
}

after_confirmed-ran :
    (env : Env) (conv : ℕ) (c : ToolCall) (answer : ToolAnswer) (w : World)
    → (after_confirmed env conv c answer w).1.ran ≡ w.ran
unfolding after_confirmed
after_confirmed-ran env conv c (ToolAnswer.returned_text t) w = log-ran env _ _ _ _ _ w
after_confirmed-ran env conv c _ w = log-ran env _ _ _ _ _ w

execute_confirmed-Executed :
    (env : Env) (conv : ℕ) (c : ToolCall) (w : World)
    → Executed c w (execute_confirmed env conv c w).1
unfolding execute_confirmed
execute_confirmed-Executed env conv c w = for_tool (lookup c.name env.tools)
  where
    validated :
        (tool : Tool) (o : Option Text) → Executed c w (confirmed_validation env conv c tool o w).1
    validated tool (some e) =
        unfold confirmed_validation in Executed-none c (log-ran env _ _ _ _ _ w)
    validated tool none =
        unfold confirmed_validation in
        record { own = c ∷ []; is_own = inr refl; made = after_confirmed-ran env conv c _ _ }

    for_tool : (o : Option Tool) → Executed c w (run_confirmed env conv c o w).1
    for_tool none = unfold run_confirmed in Executed-none c refl
    for_tool (some tool) = unfold run_confirmed in validated tool _

-- What an answer to the confirmation `row` calls: first the confirmed call, at most once, and only
-- if the row waits, has not expired, and its own user approves; then what the resumed turn may.
pub record IsConsented (env : Env) (approved : Bool) (user_id : String) (row : Confirmation)
    (w w' : World) : Type 0 where
  pub own : List ToolCall
  pub rest : List ToolCall
  pub made : w'.ran ≡ w.ran ++ (own ++ rest)
  pub consent :
      (own ≡ [])
      ⊎ ((own ≡ gated_call row ∷ [])
          × (is_pending row.status ≡ true)
          × ((row.user_id == user_id) ≡ true)
          × (ltb row.expires_at (env.read_clock w.clock_reads) ≡ false)
          × (approved ≡ true))
  pub guarded :
      IsGuarded env.tools (row.loop_state.turn_tainted || any_untrusted env.tools own) rest

nothing-IsConsented :
    (env : Env) (approved : Bool) (user_id : String) (row : Confirmation) (w w' : World)
    → w'.ran ≡ w.ran
    → IsConsented env approved user_id row w w'
nothing-IsConsented env approved user_id row w w' same = record {
  own = [];
  rest = [];
  made = same ∙ sym (append-nil w.ran);
  consent = inl refl;
  guarded = tt;
}

pub close-ran :
    (row : Confirmation) (note : Text) (w : World) → (close_suspended_turn row note w).ran ≡ w.ran
unfolding close_suspended_turn
close-ran row note w = append_many-ran row.conversation_id _ w

own_taint :
    (env : Env) (row : Confirmation) (own : List ToolCall)
    → (own ≡ []) ⊎ (own ≡ gated_call row ∷ [])
    → (row.loop_state.turn_tainted || any_untrusted env.tools own) ≡ true
    → (row.loop_state.turn_tainted || untrusted_name env.tools row.tool) ≡ true
own_taint env row own (inl e) h = ground arith
own_taint env row own (inr e) h = ground arith

module _ (env : Env) (keeps : CompactorKeeps env.compactor)
    (on : is_off env.config.taint_mode ≡ false) (row : Confirmation) (user_id : String) where
  expired-ran : (w : World) → (resolve_expired env row w).1.ran ≡ w.ran
  unfolding resolve_expired
  expired-ran w = log-ran env _ _ _ _ _ _ ∙ close-ran row (codes "declined (expired)") w

  declined-IsConsented :
      (approved : Bool) (w w' : World)
      → w'.ran ≡ w.ran
      → IsConsented env approved user_id row w (resolve_declined env row user_id w').1
  unfolding resolve_declined
  declined-IsConsented approved w w' same =
      let (calls, made, guarded) = loop-IsGuarded env _ _ on keeps in
      record {
        own = [];
        rest = calls;
        made =
            made
            ∙ ap (λ (r : List ToolCall). r ++ calls)
                (log-ran env _ _ _ _ _ _ ∙ close-ran row (codes "declined by user") w' ∙ same);
        consent = inl refl;
        guarded =
            IsGuarded-mono env.tools _ row.loop_state.turn_tainted calls (λ h. ground arith)
              guarded;
      }

  approved-IsConsented :
      (w w' : World)
      → w'.ran ≡ w.ran
      → is_pending row.status ≡ true
      → (row.user_id == user_id) ≡ true
      → ltb row.expires_at (env.read_clock w.clock_reads) ≡ false
      → IsConsented env true user_id row w (resolve_approved env row user_id w').1
  unfolding resolve_approved
  approved-IsConsented w w' same waits own_row unexpired =
      let executed = execute_confirmed-Executed env row.conversation_id (gated_call row) w' in
      let (calls, made, guarded) = loop-IsGuarded env _ _ on keeps in
      record {
        own = executed.own;
        rest = calls;
        made =
            made
            ∙ ap (λ (r : List ToolCall). r ++ calls)
                (append_many-ran row.conversation_id _ _
                  ∙ executed.made
                  ∙ ap (λ (r : List ToolCall). r ++ executed.own) same)
            ∙ append_assoc w.ran executed.own calls;
        consent = elim executed.is_own [
          | inl e ↦ inl e
          | inr e ↦ inr (e, waits, own_row, unexpired, refl)
        ];
        guarded =
            IsGuarded-mono env.tools _
              (row.loop_state.turn_tainted || untrusted_name env.tools row.tool) calls
              (own_taint env row executed.own executed.is_own) guarded;
      }

  settle-IsConsented :
      (approved : Bool) (w w' : World)
      → w'.ran ≡ w.ran
      → is_pending row.status ≡ true
      → (row.user_id == user_id) ≡ true
      → IsConsented env approved user_id row w
          (settle env row approved user_id (env.read_clock w.clock_reads) w').1
  unfolding settle
  settle-IsConsented true w w' same waits own_row =
      elim (Bool-cases (ltb row.expires_at (env.read_clock w.clock_reads))) [
        | inl late ↦ rw late (nothing-IsConsented env true user_id row w _ (expired-ran _ ∙ same))
        | inr unexpired ↦
            let answered =
              approved-IsConsented w
                (record w' { confirmations = set_status row.id Status.confirmed w'.confirmations })
                same waits own_row unexpired in
            rw unexpired answered
      ]
  settle-IsConsented false w w' same waits own_row =
      elim (Bool-cases (ltb row.expires_at (env.read_clock w.clock_reads))) [
        | inl late ↦ rw late (nothing-IsConsented env false user_id row w _ (expired-ran _ ∙ same))
        | inr unexpired ↦ rw unexpired (declined-IsConsented false w _ same)
      ]

  resolve_row-IsConsented :
      (approved : Bool) (w : World)
      → IsConsented env approved user_id row w (resolve_row env approved user_id (some row) w).1
  unfolding resolve_row
  resolve_row-IsConsented approved w =
      let settled =
        settle-IsConsented approved w (record w { clock_reads = w.clock_reads + 1 }) refl in
      elim (Bool-cases (is_pending row.status)) [
        | inr resolved ↦ rw resolved (nothing-IsConsented env approved user_id row w w refl)
        | inl waits ↦ rw waits (elim (Bool-cases (row.user_id == user_id)) [
          | inr other ↦ rw other (nothing-IsConsented env approved user_id row w w refl)
          | inl own_row ↦ rw own_row (settled waits own_row)
        ])
      ]

-- Under a taint rule, an answer to a stored confirmation calls, first, at most the confirmed call,
-- and that only if the row is pending and not expired, and its own user approves; and then, after
-- approval or refusal, calls that are guarded from the taint that was saved with the suspended turn,
-- or that the confirmed call's tool brings in. A compactor is assumed to call no tool.
pub resolve_confirmation-IsConsented :
    (env : Env) (i : String) (approved : Bool) (user_id : String) (row : Confirmation) (w : World)
    → CompactorKeeps env.compactor
    → is_off env.config.taint_mode ≡ false
    → find_confirmation i w.confirmations ≡ some row
    → IsConsented env approved user_id row w (resolve_confirmation env i approved user_id w).1
unfolding resolve_confirmation
resolve_confirmation-IsConsented env i approved user_id row w keeps on found =
    rw found (resolve_row-IsConsented env keeps on row user_id approved w)
