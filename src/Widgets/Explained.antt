-- ===== src/Widgets/Explained.antt =====
-- src/dudamel/widgets.py: when a card shows what the widget's function returned, and when an error.
use dudamel.Prelude.{
  ◌≡◌, ◌⊎◌, refl, inl, inr, true, false, String, Option, none, some, List, [], ◌∷◌, Text, map,
}
use dudamel.Dict.{Dict, lookup}
use dudamel.Llm.Json.{end}
use dudamel.Contract.{Tool, Widget}
use dudamel.Contract.Payloads.{
  ItemAction, ListItem, Fault, Checked, valid, invalid, Payload, stat, table, list, markdown,
  validate_widget_payload,
}
use dudamel.Widgets.{
  ResolvedAction, CardData, Body, error, served, FnEnd, returned, timeout_error, failed, Resolved,
  fine, broken, and_so, WidgetEnv, resolve_tool, resolve, resolve_maybe, serve_items, serve_data,
  card_action, resolve_all, checked_payload, body_of, card_with, error_card, run_widget,
}

-- The buttons that the items of a payload ask for.
abbrev pub with_action : Option ItemAction → List ItemAction → List ItemAction
with_action none specs = specs
with_action (some spec) specs = spec ∷ specs

abbrev pub items_actions : List ListItem → List ItemAction
items_actions [] = []
items_actions (item ∷ items) = with_action item.action (items_actions items)

abbrev pub payload_actions : Payload → List ItemAction
payload_actions (list items) = items_actions items
payload_actions (stat p) = []
payload_actions (table p) = []
payload_actions (markdown t) = []

-- A button of the card.
abbrev pub button_of : String → ItemAction
button_of name = record { tool = name; args = end; label = none }

module _ {ℓ κ} {A : Type ℓ} {B : Type κ} where
  and_so-broken :
      (m : Resolved A) (f : A → Resolved B) {message : Text}
      → and_so m f ≡ broken message
      → ((e : Text) × (m ≡ broken e)) ⊎ ((a : A) × (m ≡ fine a) × (f a ≡ broken message))
  and_so-broken (fine a) f h = inr (a, refl, h)
  and_so-broken (broken e) f h = inl (e, refl)

module _ {ℓ} {A : Type ℓ} where
  fine-broken : {message : Text} {a : A} → ¬ (fine a ≡ broken message)
  fine-broken h = cc

module _ {D : Type 0} (env : WidgetEnv D) (may_call : String → Tool → Type 0) where
  -- A button that cannot be: it may call no tool of this name, or the tool refuses its arguments.
  abbrev pub IsUnresolved : ItemAction → Type 0
  IsUnresolved spec =
      ((tool : Tool) → ¬ may_call spec.tool tool)
      ⊎ ((tool : Tool) × may_call spec.tool tool
          × ((message : Text) × (env.coerce tool spec.args ≡ broken message)))

  abbrev pub HasUnresolved : List ItemAction → Type 0
  HasUnresolved [] = ⊥
  HasUnresolved (spec ∷ specs) = IsUnresolved spec ⊎ HasUnresolved specs

  -- Only what the function returned is served, and it is, unless the payload is not valid for the
  -- renderer or a button of an item or of the card cannot be.
  abbrev pub IsExplained : Widget → FnEnd D → Body → Type 0
  IsExplained widget (returned raw) (served data_ actions) = Unit
  IsExplained widget (returned raw) (error message) =
      ((fault : Fault) × (validate_widget_payload env.lower env.shapes widget.renderer raw
          ≡ invalid fault))
      ⊎ ((p : Payload) × (validate_widget_payload env.lower env.shapes widget.renderer raw
            ≡ valid p)
          × (HasUnresolved (payload_actions p) ⊎ HasUnresolved (map button_of widget.actions)))
  IsExplained widget _ (error message) = Unit
  IsExplained widget _ (served data_ actions) = ⊥

  module _ (app_actions : Dict Tool)
      (listed : (name : String) (tool : Tool)
        → lookup name app_actions ≡ some tool
        → may_call name tool)
      (unlisted : (name : String)
        → lookup name app_actions ≡ none
        → (tool : Tool) → ¬ may_call name tool) where
    tool-IsUnresolved :
        (spec : ItemAction) (o : Option Tool) (message : Text)
        → lookup spec.tool app_actions ≡ o
        → resolve_tool env app_actions spec o ≡ broken message
        → IsUnresolved spec
    tool-IsUnresolved spec none message e h = inl (unlisted spec.tool e)
    tool-IsUnresolved spec (some tool) message e h =
        elim (and_so-broken (env.coerce tool spec.args) _ h) [
          | inl refused_ ↦ inr (tool, listed spec.tool tool e, refused_)
          | inr (args, coerced, same) ↦ absurd (fine-broken same)
        ]

    resolve-IsUnresolved :
        (spec : ItemAction) (message : Text)
        → resolve env app_actions spec ≡ broken message
        → IsUnresolved spec
    unfolding resolve
    resolve-IsUnresolved spec message h =
        tool-IsUnresolved spec (lookup spec.tool app_actions) message refl h

    maybe-HasUnresolved :
        (o : Option ItemAction) (rest : List ItemAction) (message : Text)
        → resolve_maybe env app_actions o ≡ broken message
        → HasUnresolved (with_action o rest)
    maybe-HasUnresolved none rest message h = absurd (fine-broken h)
    maybe-HasUnresolved (some spec) rest message h =
        elim (and_so-broken (resolve env app_actions spec) _ h) [
          | inl (e, r) ↦ inl (resolve-IsUnresolved spec e r)
          | inr (action, r, same) ↦ absurd (fine-broken same)
        ]

    HasUnresolved-later :
        (o : Option ItemAction) (rest : List ItemAction)
        → HasUnresolved rest
        → HasUnresolved (with_action o rest)
    HasUnresolved-later none rest h = h
    HasUnresolved-later (some spec) rest h = inr h

    serve_items-HasUnresolved :
        (items : List ListItem) (message : Text)
        → serve_items env app_actions items ≡ broken message
        → HasUnresolved (items_actions items)
    unfolding serve_items
    serve_items-HasUnresolved [] message h = absurd (fine-broken h)
    serve_items-HasUnresolved (item ∷ items) message h =
        elim (and_so-broken (resolve_maybe env app_actions item.action) _ h) [
          | inl (e, r) ↦ maybe-HasUnresolved item.action (items_actions items) e r
          | inr (action, r, h1) ↦ elim (and_so-broken (serve_items env app_actions items) _ h1) [
            | inl (e, r1) ↦
                HasUnresolved-later item.action (items_actions items)
                  (serve_items-HasUnresolved items e r1)
            | inr (rest, r1, same) ↦ absurd (fine-broken same)
          ]
        ]

    serve_data-HasUnresolved :
        (p : Payload) (message : Text)
        → serve_data env app_actions p ≡ broken message
        → HasUnresolved (payload_actions p)
    unfolding serve_data
    serve_data-HasUnresolved (stat p) message h = absurd (fine-broken h)
    serve_data-HasUnresolved (table p) message h = absurd (fine-broken h)
    serve_data-HasUnresolved (markdown t) message h = absurd (fine-broken h)
    serve_data-HasUnresolved (list items) message h =
        elim (and_so-broken (serve_items env app_actions items) _ h) [
          | inl (e, r) ↦ serve_items-HasUnresolved items e r
          | inr (out, r, same) ↦ absurd (fine-broken same)
        ]

    resolve_all-HasUnresolved :
        (names : List String) (message : Text)
        → resolve_all env app_actions names ≡ broken message
        → HasUnresolved (map button_of names)
    unfolding resolve_all
    resolve_all-HasUnresolved [] message h = absurd (fine-broken h)
    resolve_all-HasUnresolved (name ∷ names) message h =
        elim (and_so-broken (resolve env app_actions (card_action env app_actions name)) _ h) [
          | inl (e, r) ↦ inl (resolve-IsUnresolved (card_action env app_actions name) e r)
          | inr (action, r, h1) ↦ elim (and_so-broken (resolve_all env app_actions names) _ h1) [
            | inl (e, r1) ↦ inr (resolve_all-HasUnresolved names e r1)
            | inr (rest, r1, same) ↦ absurd (fine-broken same)
          ]
        ]

    module _ (widget : Widget) (raw : D) where
      abbrev Explained : Resolved Body → Type 0
      Explained o = IsExplained widget (returned raw) (card_with env app_actions widget o).body

      actions-Explained :
          (p : Payload) (data_ : CardData) (o : Resolved (List ResolvedAction))
          → validate_widget_payload env.lower env.shapes widget.renderer raw ≡ valid p
          → resolve_all env app_actions widget.actions ≡ o
          → Explained (and_so o (λ actions. fine (served data_ actions)))
      unfolding error_card
      actions-Explained p data_ (fine actions) e r = tt
      actions-Explained p data_ (broken m) e r =
          inr (p, e, inr (resolve_all-HasUnresolved widget.actions m r))

      data-Explained :
          (p : Payload) (o : Resolved CardData)
          → validate_widget_payload env.lower env.shapes widget.renderer raw ≡ valid p
          → serve_data env app_actions p ≡ o
          → Explained (
              and_so o (λ data_.
                and_so
                  (resolve_all env app_actions widget.actions)
                  (λ actions. fine (served data_ actions))))
      unfolding error_card
      data-Explained p (fine data_) e r =
          actions-Explained p data_ (resolve_all env app_actions widget.actions) e refl
      data-Explained p (broken m) e r = inr (p, e, inl (serve_data-HasUnresolved p m r))

      body_of-Explained : Explained (body_of env app_actions widget raw)
      unfolding body_of error_card
      body_of-Explained =
          for_checked (validate_widget_payload env.lower env.shapes widget.renderer raw) refl
        where
          for_checked :
              (c : Checked Payload)
              → validate_widget_payload env.lower env.shapes widget.renderer raw ≡ c
              → Explained (
                  and_so (checked_payload env app_actions c) (λ p.
                    and_so (serve_data env app_actions p) (λ data_.
                      and_so
                        (resolve_all env app_actions widget.actions)
                        (λ actions. fine (served data_ actions)))))
          for_checked (invalid fault) e = inl (fault, e)
          for_checked (valid p) e = data-Explained p (serve_data env app_actions p) e refl

    pub run_widget-IsExplained :
        (widget : Widget) (end_ : FnEnd D)
        → IsExplained widget end_ (run_widget env app_actions widget end_).body
    unfolding run_widget error_card
    run_widget-IsExplained widget (returned raw) = body_of-Explained widget raw
    run_widget-IsExplained widget (timeout_error true message) = tt
    run_widget-IsExplained widget (timeout_error false message) = tt
    run_widget-IsExplained widget (failed message) = tt
