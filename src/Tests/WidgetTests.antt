-- ===== src/Tests/WidgetTests.antt =====
-- src/dudamel/widgets.py with the app of the registry's tests.
use dudamel.Prelude.{
  ◌≡◌, refl, true, false, String, none, some, List, [], ◌∷◌, codes, strip, skip_spaces, is_space,
  after_prefix,
}
use dudamel.Dict.{Dict}
use dudamel.Llm.Json.{end}
use dudamel.Contract.{Tool, Widget, Origin}
use dudamel.Contract.Labels.{is_unsafe, clean_action_label, clean_display_text, fault_of_label}
use dudamel.Contract.Payloads.{
  ListItem, validate_widget_payload, check_items, check_item, check_title, check_url, check_label,
  clean_subtitle, has_safe_prefix,
}
use dudamel.Widgets.{
  WidgetEnv, returned, fine, run_widget, body_of, serve_data, serve_items, resolve, resolve_all,
  card_title, error_card, served, error, list_data,
}

abbrev sweep : Tool
sweep = record {
  name = "sweep";
  app_name = "notes";
  description = codes "Does it.";
  read_only = false;
  confirm = true;
  timeout = codes "30";
  origin = Origin.native;
  external = false;
  action = some (codes "Sweep");
}

abbrev actions : Dict Tool
actions = ("sweep", sweep) ∷ []

abbrev item : ListItem
item = record {
  title = codes "Buy milk";
  subtitle = none;
  url = none;
  action = some (record { tool = "sweep"; args = end; label = none });
}

abbrev env : WidgetEnv ListItem
env = record {
  shapes = record {
    as_stat = λ d. none;
    as_table = λ d. none;
    as_list = λ d. some (d ∷ []);
    as_text = λ d. none;
  };
  lower = λ t. t;
  repr = λ t. t;
  coerce = λ tool args. fine args;
  fault_text = λ fault. codes "bad payload";
}

abbrev card : List String → Widget
card buttons = record {
  id = "card";
  app_name = "notes";
  title = codes "Notes";
  renderer = "list";
  timeout = codes "15.0";
  actions = buttons;
}

-- The item's button takes its label and its need of approval from the tool.
card_run :
    (run_widget env actions (card []) (returned item)).body
    ≡ served
        (list_data (
          record {
            title = codes "Buy milk";
            subtitle = none;
            url = none;
            action =
                some (record { tool = "sweep"; args = end; label = codes "Sweep"; confirm = true });
          }
          ∷ []))
        []
unfolding run_widget body_of serve_data serve_items resolve resolve_all card_title error_card
    validate_widget_payload check_items check_item check_title check_url check_label clean_subtitle
    has_safe_prefix after_prefix clean_display_text clean_action_label fault_of_label is_unsafe
    strip skip_spaces is_space
card_run = refl

-- A button that no tool of the app answers fails the card.
card_failed :
    (run_widget env actions (card ("wipe" ∷ [])) (returned item)).body
    ≡ error (codes "action wipe is not an action-labelled tool of this widget's app")
unfolding run_widget body_of serve_data serve_items resolve resolve_all card_title error_card
    validate_widget_payload check_items check_item check_title check_url check_label clean_subtitle
    has_safe_prefix after_prefix clean_display_text clean_action_label fault_of_label is_unsafe
    strip skip_spaces is_space
card_failed = refl
