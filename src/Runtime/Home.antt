-- ===== src/Runtime/Home.antt =====
-- src/dudamel/runtime.py, registry.py, app.py and widgets.py together: the cards of the homescreen.
use dudamel.Prelude.{◌≡◌, true, String, some, List, [], ◌∷◌, is_some}
use dudamel.Dict.{Dict, lookup}
use dudamel.Contract.{Tool, Widget}
use dudamel.Registry.{App, Registry}
use dudamel.Widgets.{Card, FnEnd, WidgetEnv}
use dudamel.Widgets.Explained.{IsExplained}
use dudamel.Widgets.Buttons.{IsCardOf}

-- A tool that a button of the widget may call: a labelled one of the app that is registered under the
-- widget's app name.
pub record IsOwnTool (r : Registry) (w : Widget) (name : String) (tool : Tool) : Type 0 where
  pub app : App
  pub installed : lookup w.app_name r.apps ≡ some app
  pub declared : lookup name app.tools ≡ some tool
  pub labelled : is_some tool.action ≡ true
  pub owner : tool.app_name ≡ w.app_name

-- One safe card for each widget, in order, with buttons of the widget's own app only, which shows what
-- the widget's function returned unless there is a reason not to.
module _ {D : Type 0} (env : WidgetEnv D) (ends : Widget → FnEnd D) (r : Registry) where
  abbrev pub AreCardsOf : List Widget → List Card → Type 0
  AreCardsOf [] [] = Unit
  AreCardsOf (w ∷ ws) (c ∷ cs) =
      (IsCardOf env.lower (IsOwnTool r w) w c × IsExplained env (IsOwnTool r w) w (ends w) c.body)
      × AreCardsOf ws cs
  AreCardsOf [] (c ∷ cs) = ⊥
  AreCardsOf (w ∷ ws) [] = ⊥
