-- ===== src/Widgets/Buttons.antt =====
-- src/dudamel/widgets.py: the cards that are safe to show.
use dudamel.Prelude.{
  ◌≡◌, ◌⊎◌, String, List, map, true, Option, none, some, Text, codes, All, is_some,
}
use dudamel.Contract.{Tool, Widget, qualified_id}
use dudamel.Contract.Payloads.{stat, table, markdown}
use dudamel.Contract.Payloads.Cleaned.{IsClean, IsShown, IsLabel, MaybeButton}
use dudamel.Contract.Payloads.Safe.{MaybeShown, UrlSafe, IsSafe}
use dudamel.Widgets.{
  ResolvedAction, ServedItem, CardData, stat_data, table_data, list_data, markdown_data, Body,
  error, served, Card,
}

-- A tool that may be a button, with a label that a button can show.
abbrev pub IsActionTool : Tool → Type 0
IsActionTool tool = MaybeButton tool.action × (is_some tool.action ≡ true)

-- A button calls a tool that it may, asks for approval where the tool does, and has a label that can
-- be shown.
pub record IsButtonOf (may_call : String → Tool → Type 0) (action : ResolvedAction) : Type 0 where
  pub tool : Tool
  pub known : may_call action.tool tool
  pub confirm : action.confirm ≡ tool.confirm
  pub clean : IsClean action.label
  pub label : IsLabel (some action.label)

abbrev pub MaybeButtonOf : (String → Tool → Type 0) → Option ResolvedAction → Type 0
MaybeButtonOf may_call none = Unit
MaybeButtonOf may_call (some action) = IsButtonOf may_call action

pub record ServedSafe (lower : Text → Text) (may_call : String → Tool → Type 0) (item : ServedItem)
    : Type 0 where
  pub title : IsShown item.title
  pub subtitle : MaybeShown item.subtitle
  pub url : UrlSafe lower item.url
  pub action : MaybeButtonOf may_call item.action

abbrev pub DataSafe : (Text → Text) → (String → Tool → Type 0) → CardData → Type 0
DataSafe lower may_call (stat_data p) = IsSafe lower (stat p)
DataSafe lower may_call (table_data p) = IsSafe lower (table p)
DataSafe lower may_call (list_data items) = All (ServedSafe lower may_call) items
DataSafe lower may_call (markdown_data t) = IsSafe lower (markdown t)

-- The name of the renderer that shows such data.
abbrev pub shown_by : CardData → String
shown_by (stat_data p) = "stat"
shown_by (table_data p) = "table"
shown_by (list_data items) = "list"
shown_by (markdown_data t) = "markdown"

-- What is served is data for the widget's renderer, and the widget's buttons, in order.
pub record ServesOf (lower : Text → Text) (may_call : String → Tool → Type 0) (widget : Widget)
    (data_ : CardData) (actions : List ResolvedAction) : Type 0 where
  pub kind : shown_by data_ ≡ widget.renderer
  pub safe : DataSafe lower may_call data_
  pub tools : map (λ (a : ResolvedAction). a.tool) actions ≡ widget.actions
  pub buttons : All (IsButtonOf may_call) actions

abbrev pub BodySafe : (Text → Text) → (String → Tool → Type 0) → Widget → Body → Type 0
BodySafe lower may_call widget (error message) = IsShown message
BodySafe lower may_call widget (served data_ actions) = ServesOf lower may_call widget data_ actions

-- A card of the widget.
pub record IsCardOf (lower : Text → Text) (may_call : String → Tool → Type 0) (widget : Widget)
    (card : Card) : Type 0 where
  pub id : card.id ≡ widget.id
  pub place : card.qualified_id ≡ qualified_id widget
  pub renderer : card.renderer ≡ widget.renderer
  pub title : IsShown card.title ⊎ (card.title ≡ codes widget.id)
  pub body : BodySafe lower may_call widget card.body
