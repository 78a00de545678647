-- ===== src/Widgets.antt =====
-- src/dudamel/widgets.py: one widget is run, and its card is made.
-- How the widget's function ends, the coercion of a tool's arguments, `repr` and the texts of
-- pydantic's errors are parameters; `model_dump` of a payload is the payload itself.
pub mod Buttons
pub mod Explained
pub mod Served
pub mod Cards
use dudamel.Prelude.{
  Bool, true, false, String, Option, none, some, List, [], ◌∷◌, ◌++◌, Text, codes, map,
}
use dudamel.Dict.{Dict, lookup}
use dudamel.Llm.Json.{Fields, end}
use dudamel.Contract.{Tool, Widget, qualified_id}
use dudamel.Contract.Labels.{clean_display_text}
use dudamel.Contract.Payloads.{
  StatPayload, TablePayload, ItemAction, ListItem, Fault, Checked, valid, invalid, Payload, stat,
  table, list, markdown, Shapes, validate_widget_payload,
}

-- `ResolvedAction`
pub record ResolvedAction : Type 0 where
  pub tool : String
  pub args : Fields
  pub label : Text
  pub confirm : Bool

-- An item as it is served.
pub record ServedItem : Type 0 where
  pub title : Text
  pub subtitle : Option Text
  pub url : Option Text
  pub action : Option ResolvedAction

pub data CardData : Type 0 where
  stat_data : StatPayload → CardData
  table_data : TablePayload → CardData
  list_data : List ServedItem → CardData
  markdown_data : Text → CardData

pub data Body : Type 0 where
  error : Text → Body
  served : CardData → List ResolvedAction → Body

pub record Card : Type 0 where
  pub id : String
  pub qualified_id : Text
  pub title : Text
  pub renderer : String
  pub body : Body

-- How the function ends: a `TimeoutError` may be its own; a text is what `str` gives.
pub data FnEnd (D : Type 0) : Type 0 where
  returned : D → FnEnd D
  timeout_error : Bool → Text → FnEnd D
  failed : Text → FnEnd D

pub data Resolved {ℓ} (A : Type ℓ) : Type ℓ where
  fine : A → Resolved A
  broken : Text → Resolved A

abbrev pub and_so {ℓ κ} : {A : Type ℓ} {B : Type κ} → Resolved A → (A → Resolved B) → Resolved B
and_so (fine a) f = f a
and_so (broken message) f = broken message

pub record WidgetEnv (D : Type 0) : Type 0 where
  pub shapes : Shapes D
  pub lower : Text → Text
  pub repr : Text → Text
  pub coerce : Tool → Fields → Resolved Fields
  pub fault_text : Fault → Text

-- `a or b`, where `a` may be missing or empty
abbrev pub text_or : Option Text → Text → Text
text_or none t = t
text_or (some []) t = t
text_or (some (c ∷ u)) t = c ∷ u

-- `_card_title`
unfoldable pub card_title : Widget → Text
card_title widget = text_or (some (clean_display_text widget.title)) (codes widget.id)

abbrev pub card_of : Widget → Body → Card
card_of widget body = record {
  id = widget.id;
  qualified_id = qualified_id widget;
  title = card_title widget;
  renderer = widget.renderer;
  body = body;
}

-- `_error_card`
unfoldable pub error_card : Widget → Text → Card
error_card widget message = card_of widget (error (clean_display_text message))

module _ {D : Type 0} (env : WidgetEnv D) (app_actions : Dict Tool) where
  abbrev pub resolved_with : ItemAction → Tool → Fields → ResolvedAction
  resolved_with spec tool args = record {
    tool = spec.tool;
    args = args;
    label = text_or spec.label (text_or tool.action (codes spec.tool));
    confirm = tool.confirm;
  }

  abbrev pub resolve_tool : ItemAction → Option Tool → Resolved ResolvedAction
  resolve_tool spec none = broken (
      codes "action "
      ++ (env.repr (codes spec.tool)
          ++ codes " is not an action-labelled tool of this widget's app"))
  resolve_tool spec (some tool) =
      and_so (env.coerce tool spec.args) (λ args. fine (resolved_with spec tool args))

  -- `_resolve`
  unfoldable pub resolve : ItemAction → Resolved ResolvedAction
  resolve spec = resolve_tool spec (lookup spec.tool app_actions)

  abbrev pub resolve_maybe : Option ItemAction → Resolved (Option ResolvedAction)
  resolve_maybe none = fine none
  resolve_maybe (some spec) = and_so (resolve spec) (λ action. fine (some action))

  abbrev pub served_item : ListItem → Option ResolvedAction → ServedItem
  served_item item action = record {
    title = item.title;
    subtitle = item.subtitle;
    url = item.url;
    action = action;
  }

  unfoldable pub serve_items : List ListItem → Resolved (List ServedItem)
  unfolding resolve
  serve_items [] = fine []
  serve_items (item ∷ items) =
      and_so (resolve_maybe item.action)
        (λ action. and_so (serve_items items) (λ rest. fine (served_item item action ∷ rest)))

  unfoldable pub serve_data : Payload → Resolved CardData
  unfolding serve_items
  serve_data (stat p) = fine (stat_data p)
  serve_data (table p) = fine (table_data p)
  serve_data (list items) = and_so (serve_items items) (λ served_. fine (list_data served_))
  serve_data (markdown t) = fine (markdown_data t)

  abbrev pub card_action : String → ItemAction
  card_action name = record { tool = name; args = end; label = none }

  unfoldable pub resolve_all : List String → Resolved (List ResolvedAction)
  unfolding resolve
  resolve_all [] = fine []
  resolve_all (name ∷ names) =
      and_so (resolve (card_action name))
        (λ action. and_so (resolve_all names) (λ rest. fine (action ∷ rest)))

  abbrev pub checked_payload : Checked Payload → Resolved Payload
  checked_payload (valid p) = fine p
  checked_payload (invalid fault) = broken (env.fault_text fault)

  -- The second `try` of `run_widget`.
  unfoldable pub body_of : Widget → D → Resolved Body
  unfolding serve_data resolve_all
  body_of widget raw =
      and_so (checked_payload (validate_widget_payload env.lower env.shapes widget.renderer raw))
        (λ p.
          and_so (serve_data p)
            (λ data_. and_so (resolve_all widget.actions) (λ actions. fine (served data_ actions))))

  abbrev pub card_with : Widget → Resolved Body → Card
  card_with widget (fine body) = card_of widget body
  card_with widget (broken message) = error_card widget message

  -- `run_widget`
  unfoldable pub run_widget : Widget → FnEnd D → Card
  unfolding body_of error_card card_title
  run_widget widget (returned raw) = card_with widget (body_of widget raw)
  run_widget widget (timeout_error true message) =
      error_card widget (codes "widget timed out after " ++ (widget.timeout ++ codes "s"))
  run_widget widget (timeout_error false message) = error_card widget message
  run_widget widget (failed message) = error_card widget message
