-- ===== src/Runtime.antt =====
-- src/dudamel/runtime.py: the homescreen, and the actions that its buttons run.
pub mod Home
pub mod Actions
use dudamel.Prelude.{
  Bool, true, false, String, Option, none, some, List, [], ◌∷◌, map, keep, is_some,
}
use dudamel.Dict.{Dict, lookup}
use dudamel.Contract.{Tool, Widget}
use dudamel.Registry.{App, Registry}
use dudamel.Widgets.{Card, FnEnd, WidgetEnv, run_widget}

abbrev labelled_tools : Option App → Dict Tool
labelled_tools none = []
labelled_tools (some app) = keep (λ e. is_some e.1.action) app.tools

-- `Runtime._app_actions`
unfoldable pub app_actions : Registry → String → Dict Tool
app_actions r app_name = labelled_tools (lookup app_name r.apps)

module _ {D : Type 0} (env : WidgetEnv D) (ends : Widget → FnEnd D) (r : Registry) where
  abbrev pub card_for : Widget → Card
  card_for widget = run_widget env (app_actions r widget.app_name) widget (ends widget)

  -- `Runtime.render_widgets`; the widgets run at once, and share nothing.
  unfoldable pub render_widgets : List Card
  render_widgets = map card_for r.widgets
