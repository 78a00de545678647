-- ===== src/Widgets/Cards.antt =====
-- src/dudamel/widgets.py: what a card shows, and which buttons it has.
use dudamel.Prelude.{
  ◌≡◌, ◌⊎◌, refl, ◌∙◌, ap, subst, inl, inr, true, false, String, some, [], ◌∷◌, Text, codes,
}
use dudamel.Dict.{Dict, lookup, AllValues}
use dudamel.Contract.{Tool, Widget}
use dudamel.Contract.Labels.{clean_display_text}
use dudamel.Contract.Payloads.{Checked, valid, invalid, Payload}
use dudamel.Contract.Payloads.Cleaned.{IsShown, clean_display_text-IsShown}
use dudamel.Contract.Payloads.Safe.{validate-IsSafe}
use dudamel.Contract.Payloads.Kinds.{kind_of-validate}
use dudamel.Widgets.{
  Body, error, FnEnd, returned, timeout_error, failed, Resolved, fine, broken, WidgetEnv, text_or,
  card_title, card_of, error_card, serve_data, resolve_all, checked_payload, body_of, card_with,
  run_widget,
}
use dudamel.Widgets.Buttons.{IsActionTool, BodySafe, IsCardOf}
use dudamel.Widgets.Served.{
  and_so-fine, fine-injective, broken-fine, serve_data-DataSafe, shown_by-serve_data,
  tools-resolve_all, resolve_all-IsButtonOf,
}

module _ {D : Type 0} (env : WidgetEnv D) (app_actions : Dict Tool)
    (labelled : AllValues IsActionTool app_actions) (may_call : String → Tool → Type 0)
    (listed : (name : String) (tool : Tool)
      → lookup name app_actions ≡ some tool
      → may_call name tool) where
  body_of-BodySafe :
      (widget : Widget) (raw : D) (body : Body)
      → body_of env app_actions widget raw ≡ fine body
      → BodySafe env.lower may_call widget body
  unfolding body_of
  body_of-BodySafe widget raw body h =
      let (p, checked, h1) = and_so-fine (checked_payload env app_actions _) _ h in
      let (data_, d, h2) = and_so-fine (serve_data env app_actions p) _ h1 in
      let (actions, a, same) = and_so-fine (resolve_all env app_actions widget.actions) _ h2 in
      let ok = accepted _ p checked in
      let safe = validate-IsSafe env.lower env.shapes widget.renderer raw p ok in
      subst (BodySafe env.lower may_call widget) (fine-injective same) (record {
        kind =
            shown_by-serve_data env app_actions labelled may_call listed p data_ d
            ∙ kind_of-validate env.lower env.shapes widget.renderer raw p ok;
        safe = serve_data-DataSafe env app_actions labelled may_call listed p data_ safe d;
        tools = tools-resolve_all env app_actions labelled may_call listed widget.actions actions a;
        buttons =
            resolve_all-IsButtonOf env app_actions labelled may_call listed widget.actions actions
              a;
      })
    where
      accepted :
          (c : Checked Payload) (p : Payload)
          → checked_payload env app_actions c ≡ fine p
          → c ≡ valid p
      accepted (valid q) p e = ap valid (fine-injective e)
      accepted (invalid fault) p e = absurd (broken-fine e)

  card_title-IsShown :
      (widget : Widget) → IsShown (card_title widget) ⊎ (card_title widget ≡ codes widget.id)
  unfolding card_title
  card_title-IsShown widget =
      titled (clean_display_text widget.title) (clean_display_text-IsShown widget.title)
    where
      titled :
          (t : Text)
          → IsShown t
          → IsShown (text_or (some t) (codes widget.id))
            ⊎ (text_or (some t) (codes widget.id) ≡ codes widget.id)
      titled [] h = inr refl
      titled (c ∷ t) h = inl h

  card_of-IsCardOf :
      (widget : Widget) (body : Body)
      → BodySafe env.lower may_call widget body
      → IsCardOf env.lower may_call widget (card_of widget body)
  card_of-IsCardOf widget body h = record {
    id = refl;
    place = refl;
    renderer = refl;
    title = card_title-IsShown widget;
    body = h;
  }

  error_card-IsCardOf :
      (widget : Widget) (message : Text)
      → IsCardOf env.lower may_call widget (error_card widget message)
  unfolding error_card
  error_card-IsCardOf widget message =
      card_of-IsCardOf widget (error (clean_display_text message))
        (clean_display_text-IsShown message)

  card_with-IsCardOf :
      (widget : Widget) (o : Resolved Body)
      → ((body : Body) → o ≡ fine body → BodySafe env.lower may_call widget body)
      → IsCardOf env.lower may_call widget (card_with env app_actions widget o)
  card_with-IsCardOf widget (fine body) h = card_of-IsCardOf widget body (h body refl)
  card_with-IsCardOf widget (broken message) h = error_card-IsCardOf widget message

  pub run_widget-shows :
      (widget : Widget) (end_ : FnEnd D)
      → IsCardOf env.lower may_call widget (run_widget env app_actions widget end_)
  unfolding run_widget
  run_widget-shows widget (returned raw) =
      card_with-IsCardOf widget (body_of env app_actions widget raw) (body_of-BodySafe widget raw)
  run_widget-shows widget (timeout_error true message) = error_card-IsCardOf widget _
  run_widget-shows widget (timeout_error false message) = error_card-IsCardOf widget message
  run_widget-shows widget (failed message) = error_card-IsCardOf widget message
