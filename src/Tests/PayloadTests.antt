-- ===== src/Tests/PayloadTests.antt =====
-- src/dudamel/contract/renderers.py on a list of one item.
use dudamel.Prelude.{
  ◌≡◌, refl, none, some, [], ◌∷◌, Text, codes, strip, skip_spaces, is_space, after_prefix,
}
use dudamel.Llm.Json.{end}
use dudamel.Contract.Labels.{is_unsafe, clean_action_label, clean_display_text, fault_of_label}
use dudamel.Contract.Payloads.{
  ListItem, Payload, list, Shapes, valid, invalid, Fault, validate_widget_payload, check_items,
  check_item, check_title, check_url, check_label, clean_subtitle, has_safe_prefix,
}
use dudamel.Contract.Payloads.Safe.{IsSafe, validate-IsSafe}

abbrev item_of : Text → Text → ListItem
item_of title url = record {
  title = title;
  subtitle = some (codes " ");
  url = some url;
  action = some (record { tool = "done"; args = end; label = some (codes " Done ") });
}

-- A title with an override of the direction in it.
abbrev returned : ListItem
returned = item_of (8238 ∷ codes "Buy milk\n") (codes "https://shop")

abbrev shapes : Shapes ListItem
shapes = record {
  as_stat = λ d. none;
  as_table = λ d. none;
  as_list = λ d. some (d ∷ []);
  as_text = λ d. none;
}

abbrev shown : Payload
shown = list (
    record {
      title = codes "Buy milk";
      subtitle = none;
      url = some (codes "https://shop");
      action = some (record { tool = "done"; args = end; label = some (codes "Done") });
    }
    ∷ [])

accepted : validate_widget_payload (λ t. t) shapes "list" returned ≡ valid shown
unfolding validate_widget_payload check_items check_item check_title check_url check_label
    clean_subtitle has_safe_prefix after_prefix clean_display_text clean_action_label fault_of_label
    is_unsafe strip skip_spaces is_space
accepted = refl

validate-IsSafe_example : IsSafe (λ t. t) shown
validate-IsSafe_example = validate-IsSafe (λ t. t) shapes "list" returned shown accepted

script_refused :
    validate_widget_payload (λ t. t) shapes "list" (item_of (codes "Hi") (codes "javascript:x"))
    ≡ invalid Fault.url_scheme
unfolding validate_widget_payload check_items check_item check_title check_url check_label
    clean_subtitle has_safe_prefix after_prefix clean_display_text clean_action_label fault_of_label
    is_unsafe strip skip_spaces is_space
script_refused = refl
