-- ===== src/Tests/RuntimeTests.antt =====
-- src/dudamel/runtime.py with the app of the registry's tests.
use dudamel.Prelude.{
  ◌≡◌, ◌⊎◌, refl, true, false, String, none, some, [], ◌∷◌, map, codes, after_prefix, strip,
  skip_spaces, is_space,
}
use dudamel.Dict.{lookup}
use dudamel.Llm.Json.{end}
use dudamel.Contract.{Widget}
use dudamel.Contract.Payloads.{
  ListItem, validate_widget_payload, check_items, check_item, check_title, check_url, check_label,
  clean_subtitle, has_safe_prefix,
}
use dudamel.Widgets.{
  WidgetEnv, FnEnd, returned, fine, ResolvedAction, Card, served, list_data, run_widget, body_of,
  serve_data, serve_items, resolve, resolve_all, card_title, error_card,
}
use dudamel.Contract.Labels.{clean_display_text, clean_action_label, fault_of_label, is_unsafe}
use dudamel.Runtime.{app_actions, render_widgets}
use dudamel.Runtime.Actions.{
  ActionEnv, ActionCall, Audit, ToolEnd, Coerced, unknown_action, answered, run_action,
  with_arguments, after_call, logged, capped_result,
}
use dudamel.Runtime.Actions.Audited.{is_action, IsAudited, run_action-IsAudited}
use dudamel.Tests.RegistryTests.{registry}

abbrev env : WidgetEnv ListItem
env = record {
  shapes = record {
    as_stat = λ d. none;
    as_table = λ d. none;
    as_list = λ d. some (d ∷ []);
    as_text = λ d. none;
  };
  lower = λ t. t;
  repr = λ t. t;
  coerce = λ tool args. fine args;
  fault_text = λ fault. codes "bad payload";
}

-- The widget lists one item, with a button.
abbrev ends : Widget → FnEnd ListItem
ends w = returned (record {
  title = codes "Buy milk";
  subtitle = none;
  url = none;
  action = some (record { tool = "sweep"; args = end; label = none });
})

abbrev button : ResolvedAction
button = record { tool = "sweep"; args = end; label = codes "Sweep"; confirm = true }

bodies :
    map (λ (c : Card). c.body) (render_widgets env ends registry)
    ≡ served
        (list_data (
          record { title = codes "Buy milk"; subtitle = none; url = none; action = some button }
          ∷ []))
        (button ∷ [])
      ∷ []
unfolding render_widgets app_actions run_widget body_of serve_data serve_items resolve resolve_all
    card_title error_card validate_widget_payload check_items check_item check_title check_url
    check_label clean_subtitle has_safe_prefix after_prefix clean_display_text clean_action_label
    fault_of_label is_unsafe strip skip_spaces is_space
bodies = refl

abbrev action_env : ActionEnv
action_env = record {
  coerce = λ tool args. Coerced.coerced args;
  call = λ tool args. ToolEnd.returned (codes "swept");
  written = true;
  tool_result_cap = 100;
}

abbrev call : String → ActionCall
call name = record { tool_name = name; args = end; actor = "session"; source = "web" }

abbrev nothing : Audit
nothing = record { rows = []; calls = [] }

swept : (run_action action_env (call "sweep") registry nothing).0 ≡ answered (codes "swept")
unfolding run_action with_arguments after_call logged capped_result
swept = refl

run_action-IsAudited_example :
    ((is_action (lookup "sweep" registry.tools) ≡ false)
      × (run_action action_env (call "sweep") registry nothing ≡ (unknown_action, nothing)))
    ⊎ IsAudited action_env
        (call "sweep")
        registry
        nothing
        (run_action action_env (call "sweep") registry nothing)
run_action-IsAudited_example = run_action-IsAudited action_env (call "sweep") registry nothing refl
