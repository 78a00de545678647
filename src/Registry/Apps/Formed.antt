-- ===== src/Registry/Apps/Formed.antt =====
-- src/dudamel/app.py: what holds of an app that its decorators have built.
use dudamel.Prelude.{
  is_empty, ◌≡◌, subst, refl, Bool, true, false, not, String, Option, none, some, List, [], ◌∷◌,
  Text, codes, All, All-append, is_none, arith,
}
use dudamel.Dict.{has_key, IsDict, AllValues, insert-IsDict, insert-AllValues}
use dudamel.Contract.{Tool, Widget, Job, Origin}
use dudamel.Contract.Names.{is_tool_name, is_app_name}
use dudamel.Contract.Labels.{LabelFault, clean_action_label, fault_of_label}
use dudamel.Contract.Payloads.Cleaned.{
  IsClean, MaybeButton, fault_of_label-IsLabel, clean_action_label-IsClean,
}
use dudamel.Registry.{App, Attempt, done, and_then}
use dudamel.Registry.Attempts.{and_then-done, done-injective, refused-done, guard-done}
use dudamel.Registry.Apps.{
  Function, ToolOptions, WidgetOptions, JobOptions, new_app, sound_label, checked_label, tool_of,
  register_tool, is_renderer, widget_of, register_widget, job_of, job_id, has_job, register_job,
  same_presence, cron_holds,
}

pub record IsSoundTool (app_name : String) (t : Tool) : Type 0 where
  pub owner : t.app_name ≡ app_name
  pub named : is_tool_name (codes t.name) ≡ true
  pub described : is_empty t.description ≡ false
  pub native : t.origin ≡ Origin.native
  pub labelled : MaybeButton t.action

pub record IsSoundWidget (app_name : String) (w : Widget) : Type 0 where
  pub owner : w.app_name ≡ app_name
  pub shown : is_renderer w.renderer ≡ true

-- A job has one schedule, a crontab that is valid or an interval.
pub record IsSoundJob (is_crontab : Text → Bool) (app_name : String) (j : Text × Job) : Type 0 where
  pub keyed : j.1.id ≡ j.0
  pub owner : j.1.app_name ≡ app_name
  pub one : same_presence (is_none j.1.cron) (is_none j.1.interval_seconds) ≡ false
  pub crontab : cron_holds is_crontab j.1.cron ≡ true

-- What the decorators keep of an app.
pub record IsFormed (is_crontab : Text → Bool) (app : App) : Type 0 where
  pub named : is_app_name (codes app.name) ≡ true
  pub distinct_tools : IsDict app.tools
  pub distinct_widgets : IsDict app.widgets
  pub tools : AllValues (IsSoundTool app.name) app.tools
  pub widgets : AllValues (IsSoundWidget app.name) app.widgets
  pub jobs : All (IsSoundJob is_crontab app.name) app.jobs

not-false : (b : Bool) → not b ≡ false → b ≡ true
not-false b h = ground arith

sound_label-MaybeButton :
    (name : String) (t : Text) (o : Option LabelFault) (label : Option Text)
    → IsClean t
    → fault_of_label t ≡ o
    → sound_label name t o ≡ done label
    → MaybeButton label
sound_label-MaybeButton name t none label clean e h =
    subst MaybeButton (done-injective h) (clean, fault_of_label-IsLabel t e)
sound_label-MaybeButton name t (some fault) label clean e h = absurd (refused-done h)

checked_label-MaybeButton :
    (name : String) (o label : Option Text) → checked_label name o ≡ done label → MaybeButton label
unfolding checked_label
checked_label-MaybeButton name none label h = subst MaybeButton (done-injective h) tt
checked_label-MaybeButton name (some action) label h =
    sound_label-MaybeButton name (clean_action_label action) _ label
      (clean_action_label-IsClean action) refl h

module _ (is_crontab : Text → Bool) where
  new_app-IsFormed :
      (name : String) (description : Text) (app : App)
      → new_app name description ≡ done app
      → IsFormed is_crontab app
  unfolding new_app
  new_app-IsFormed name description app h =
      let (fine, same) = guard-done (not (is_app_name (codes name))) _ _ h in
      subst (IsFormed is_crontab) (done-injective same) (record {
        named = not-false (is_app_name (codes name)) fine;
        distinct_tools = tt;
        distinct_widgets = tt;
        tools = tt;
        widgets = tt;
        jobs = tt;
      })

  register_tool-IsFormed :
      (makes_schema : Function → Bool) (fn : Function) (options : ToolOptions) (app app' : App)
      → IsFormed is_crontab app
      → register_tool makes_schema fn options app ≡ done app'
      → IsFormed is_crontab app'
  unfolding register_tool
  register_tool-IsFormed makes_schema fn options app app' f h =
      let (async, h1) = guard-done (not fn.is_async) _ _ h in
      let (named, h2) = guard-done (not (is_tool_name (codes fn.name))) _ _ h1 in
      let (described, h3) = guard-done (is_empty fn.doc) _ _ h2 in
      let (fresh, h4) = guard-done (has_key fn.name app.tools) _ _ h3 in
      let (schema, h5) = guard-done (not (makes_schema fn)) _ _ h4 in
      let (label, checked, same) = and_then-done (checked_label fn.name options.action) _ h5 in
      let sound : IsSoundTool app.name (tool_of app fn options label) = record {
        owner = refl;
        named = not-false (is_tool_name (codes fn.name)) named;
        described = described;
        native = refl;
        labelled = checked_label-MaybeButton fn.name options.action label checked;
      } in
      subst (IsFormed is_crontab) (done-injective same) (record {
        named = f.named;
        distinct_tools = insert-IsDict fn.name _ app.tools f.distinct_tools;
        distinct_widgets = f.distinct_widgets;
        tools = insert-AllValues (IsSoundTool app.name) fn.name _ app.tools sound f.tools;
        widgets = f.widgets;
        jobs = f.jobs;
      })

  register_widget-IsFormed :
      (fn : Function) (options : WidgetOptions) (app app' : App)
      → IsFormed is_crontab app
      → register_widget fn options app ≡ done app'
      → IsFormed is_crontab app'
  unfolding register_widget
  register_widget-IsFormed fn options app app' f h =
      let (shown, h1) = guard-done (not (is_renderer options.renderer)) _ _ h in
      let (async, h2) = guard-done (not fn.is_async) _ _ h1 in
      let (empty, h3) = guard-done (not (is_empty fn.required)) _ _ h2 in
      let (fresh, same) = guard-done (has_key fn.name app.widgets) _ _ h3 in
      let sound : IsSoundWidget app.name (widget_of app fn options) = record {
        owner = refl;
        shown = not-false (is_renderer options.renderer) shown;
      } in
      subst (IsFormed is_crontab) (done-injective same) (record {
        named = f.named;
        distinct_tools = f.distinct_tools;
        distinct_widgets = insert-IsDict fn.name _ app.widgets f.distinct_widgets;
        tools = f.tools;
        widgets = insert-AllValues (IsSoundWidget app.name) fn.name _ app.widgets sound f.widgets;
        jobs = f.jobs;
      })

  register_job-IsFormed :
      (fn : Function) (options : JobOptions) (app app' : App)
      → IsFormed is_crontab app
      → register_job is_crontab fn options app ≡ done app'
      → IsFormed is_crontab app'
  unfolding register_job
  register_job-IsFormed fn options app app' f h =
      let (one, h1) =
        guard-done (same_presence (is_none options.cron) (is_none options.interval_seconds)) _ _
          h in
      let (crontab, h2) = guard-done (not (cron_holds is_crontab options.cron)) _ _ h1 in
      let (async, h3) = guard-done (not fn.is_async) _ _ h2 in
      let (fresh, same) = guard-done (has_job (job_id app fn) app.jobs) _ _ h3 in
      let sound : IsSoundJob is_crontab app.name (job_id app fn, job_of app fn options) = record {
        keyed = refl;
        owner = refl;
        one = one;
        crontab = not-false (cron_holds is_crontab options.cron) crontab;
      } in
      subst (IsFormed is_crontab) (done-injective same) (record {
        named = f.named;
        distinct_tools = f.distinct_tools;
        distinct_widgets = f.distinct_widgets;
        tools = f.tools;
        widgets = f.widgets;
        jobs = All-append (IsSoundJob is_crontab app.name) app.jobs _ f.jobs (sound, tt);
      })

-- The decorators that an app's module applies, one after the other.
pub data Declaration : Type 0 where
  tool : Function → ToolOptions → Declaration
  widget : Function → WidgetOptions → Declaration
  job : Function → JobOptions → Declaration

module _ (makes_schema : Function → Bool) (is_crontab : Text → Bool) where
  abbrev pub declare : Declaration → App → Attempt App
  declare (tool fn options) app = register_tool makes_schema fn options app
  declare (widget fn options) app = register_widget fn options app
  declare (job fn options) app = register_job is_crontab fn options app

  abbrev pub declare_all : List Declaration → App → Attempt App
  declare_all [] app = done app
  declare_all (d ∷ ds) app = and_then (declare d app) (declare_all ds)

  declare-IsFormed :
      (d : Declaration) (app app' : App)
      → IsFormed is_crontab app
      → declare d app ≡ done app'
      → IsFormed is_crontab app'
  declare-IsFormed (tool fn options) app app' f h =
      register_tool-IsFormed is_crontab makes_schema fn options app app' f h
  declare-IsFormed (widget fn options) app app' f h =
      register_widget-IsFormed is_crontab fn options app app' f h
  declare-IsFormed (job fn options) app app' f h =
      register_job-IsFormed is_crontab fn options app app' f h

  declare_all-IsFormed :
      (ds : List Declaration) (app app' : App)
      → IsFormed is_crontab app
      → declare_all ds app ≡ done app'
      → IsFormed is_crontab app'
  declare_all-IsFormed [] app app' f h = subst (IsFormed is_crontab) (done-injective h) f
  declare_all-IsFormed (d ∷ ds) app app' f h =
      let (mid, first, rest) = and_then-done (declare d app) (declare_all ds) h in
      declare_all-IsFormed ds mid app' (declare-IsFormed d app mid f first) rest

  -- The app that a module makes by its declarations.
  abbrev pub app_of : String → Text → List Declaration → Attempt App
  app_of name description ds = and_then (new_app name description) (declare_all ds)

  -- Whatever a module declares, an app that it can make is well formed: its tools and widgets are
  -- listed once and are the app's own, each tool is native, has a name that the pattern allows, a
  -- description and no label or a clean one of 1 to 32 characters, each widget has a known
  -- renderer, and each job has one schedule, which is an interval or a valid crontab.
  pub app_of-IsFormed :
      (name : String) (description : Text) (ds : List Declaration) (app : App)
      → app_of name description ds ≡ done app
      → IsFormed is_crontab app
  app_of-IsFormed name description ds app h =
      let (fresh, first, rest) = and_then-done (new_app name description) (declare_all ds) h in
      declare_all-IsFormed ds fresh app (new_app-IsFormed is_crontab name description fresh first)
        rest
