-- ===== src/Contract/Payloads.antt =====
-- src/dudamel/contract/renderers.py: what a widget may hand to a surface.
-- pydantic's shape check is a parameter that gives the fields; the validators of the fields are here.
pub mod Cleaned
pub mod Safe
pub mod Kinds
use dudamel.Prelude.{
  ℕ, Bool, true, false, not, ◌&&◌, ◌||◌, String, ◌==◌, Option, none, some, List, [], ◌∷◌, Text,
  codes, map, any, leb, nat_eq, is_some, is_empty, after_prefix, if◌then◌else◌,
}
use dudamel.Llm.Json.{Json, Fields}
use dudamel.Contract.Labels.{
  LabelFault, clean_action_label, clean_markdown, clean_display_text, fault_of_label,
}

-- A value in a card: a string, or another value, which no validator touches.
pub data Cell : Type 0 where
  text : Text → Cell
  other : Json → Cell

pub record StatPayload : Type 0 where
  pub label : Text
  pub value : Cell
  pub unit : Option Text
  pub delta : Option Json

pub record TablePayload : Type 0 where
  pub columns : List Text
  pub rows : List (List Cell)

pub record ItemAction : Type 0 where
  pub tool : String
  pub args : Fields
  pub label : Option Text

pub record ListItem : Type 0 where
  pub title : Text
  pub subtitle : Option Text
  pub url : Option Text
  pub action : Option ItemAction

pub data Fault : Type 0 where
  wrong_shape not_text empty_title url_control url_scheme unknown_renderer : Fault
  bad_label : LabelFault → Fault

pub data Checked {ℓ} (A : Type ℓ) : Type ℓ where
  valid : A → Checked A
  invalid : Fault → Checked A

abbrev pub next {ℓ κ} : {A : Type ℓ} {B : Type κ} → Checked A → (A → Checked B) → Checked B
next (valid a) f = f a
next (invalid e) f = invalid e

abbrev pub map_some {ℓ κ} : {A : Type ℓ} {B : Type κ} → (A → B) → Option A → Option B
map_some f none = none
map_some f (some a) = some (f a)

abbrev pub clean_cell : Cell → Cell
clean_cell (text t) = text (clean_display_text t)
clean_cell (other v) = other v

-- `StatPayload._clean_text`
abbrev pub clean_stat : StatPayload → StatPayload
clean_stat p = record {
  label = clean_display_text p.label;
  value = clean_cell p.value;
  unit = map_some clean_display_text p.unit;
  delta = p.delta;
}

-- `TablePayload._clean_columns` and `_clean_rows`
abbrev pub clean_table : TablePayload → TablePayload
clean_table p = record {
  columns = map clean_display_text p.columns;
  rows = map (map clean_cell) p.rows;
}

abbrev pub labelled : Text → Option LabelFault → Checked (Option Text)
labelled label none = valid (some label)
labelled label (some fault) = invalid (bad_label fault)

-- `ItemAction._check_label`
unfoldable pub check_label : Option Text → Checked (Option Text)
check_label none = valid none
check_label (some value) =
    let label = clean_action_label value in labelled label (fault_of_label label)

abbrev pub check_item_action : Option ItemAction → Checked (Option ItemAction)
check_item_action none = valid none
check_item_action (some a) =
    next (check_label a.label) (λ label. valid (some (record a { label = label })))

abbrev pub nonempty_title : Text → Checked Text
nonempty_title [] = invalid empty_title
nonempty_title (c ∷ t) = valid (c ∷ t)

-- `ListItem._clean_title`
unfoldable pub check_title : Text → Checked Text
check_title value = nonempty_title (clean_display_text value)

abbrev pub or_none : Text → Option Text
or_none [] = none
or_none (c ∷ t) = some (c ∷ t)

-- `ListItem._clean_subtitle`
unfoldable pub clean_subtitle : Option Text → Option Text
clean_subtitle none = none
clean_subtitle (some value) = or_none (clean_display_text value)

-- `_URL_CONTROL_CHARS`
abbrev pub is_url_control : ℕ → Bool
is_url_control c = leb c 32 || nat_eq c 127

-- `_SAFE_URL_PREFIXES`
unfoldable pub has_safe_prefix : Text → Bool
unfolding after_prefix
has_safe_prefix t =
    is_some (after_prefix (codes "http://") t)
    || (is_some (after_prefix (codes "https://") t) || is_some (after_prefix (codes "mailto:") t))

-- Python's `str.lower` is a parameter.
module _ (lower : Text → Text) where
  -- `ListItem._reject_unsafe_url`
  unfoldable pub check_url : Option Text → Checked (Option Text)
  unfolding has_safe_prefix
  check_url none = valid none
  check_url (some value) =
      if any is_url_control value
      then invalid url_control
      else if not (has_safe_prefix (lower value))
      then invalid url_scheme
      else valid (some value)

  unfoldable pub check_item : ListItem → Checked ListItem
  unfolding check_title check_url check_label clean_subtitle
  check_item item = next (check_title item.title) (λ title. next (check_url item.url) (λ url.
      next (check_item_action item.action) (λ action. valid (record {
        title = title;
        subtitle = clean_subtitle item.subtitle;
        url = url;
        action = action;
      }))))

  unfoldable pub check_items : List ListItem → Checked (List ListItem)
  unfolding check_item
  check_items [] = valid []
  check_items (item ∷ items) =
      next (check_item item) (λ checked. next (check_items items) (λ rest. valid (checked ∷ rest)))

pub data Payload : Type 0 where
  stat : StatPayload → Payload
  table : TablePayload → Payload
  list : List ListItem → Payload
  markdown : Text → Payload

-- pydantic's view of what a widget returned: the fields of each model, where it has its shape.
pub record Shapes (D : Type 0) : Type 0 where
  pub as_stat : D → Option StatPayload
  pub as_table : D → Option TablePayload
  pub as_list : D → Option (List ListItem)
  pub as_text : D → Option Text

abbrev pub shaped {ℓ κ} : {A : Type ℓ} {B : Type κ} → Fault → Option A → (A → Checked B) → Checked B
shaped fault none f = invalid fault
shaped fault (some a) f = f a

module _ {D : Type 0} (lower : Text → Text) (shapes : Shapes D) where
  -- `validate_widget_payload`; of several faults one is told.
  unfoldable pub validate_widget_payload : String → D → Checked Payload
  unfolding check_items clean_markdown clean_display_text
  validate_widget_payload renderer data_ =
      if renderer == "stat"
      then shaped wrong_shape (shapes.as_stat data_) (λ p. valid (stat (clean_stat p)))
      else if renderer == "table"
      then shaped wrong_shape (shapes.as_table data_) (λ p. valid (table (clean_table p)))
      else if renderer == "list"
      then shaped wrong_shape (shapes.as_list data_)
          (λ items. next (check_items lower items) (λ checked. valid (list checked)))
      else if renderer == "markdown"
      then shaped not_text (shapes.as_text data_) (λ t. valid (markdown (clean_markdown t)))
      else invalid unknown_renderer
