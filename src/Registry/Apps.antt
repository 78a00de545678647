-- ===== src/Registry/Apps.antt =====
-- src/dudamel/app.py: the decorators of an app, which register its tools, widgets and jobs.
-- A decorated function is what its decorator reads of it; that it makes a tool schema and that a
-- crontab is valid are answered by parameters, for pydantic and APScheduler.
pub mod Formed
use dudamel.Prelude.{
  is_empty, ◌==◌, ◌≡◌, refl, ℕ, Bool, true, false, not, ◌&&◌, ◌||◌, String, Option, none, some,
  List, [], ◌∷◌, ◌++◌, Text, codes, any, all, text_eq, nat_eq, is_some, is_none, if◌then◌else◌,
}
use dudamel.Dict.{Dict, has_key, insert}
use dudamel.Contract.{Tool, Widget, Job, Origin}
use dudamel.Contract.Names.{is_tool_name, is_app_name}
use dudamel.Contract.Labels.{LabelFault, clean_action_label, fault_of_label}
use dudamel.Registry.{App, RegistryError, Attempt, done, refused, and_then}

pub record Function : Type 0 where
  pub name : String
  pub is_async : Bool
  pub doc : Text
  pub required : List String

pub record ToolOptions : Type 0 where
  pub read_only : Bool
  pub confirm : Bool
  pub external : Bool
  pub action : Option Text
  pub timeout : Text

-- `App.__init__`
unfoldable pub new_app : String → Text → Attempt App
new_app name description =
    if not (is_app_name (codes name))
    then refused (RegistryError.bad_app_name name)
    else done
        (record { name = name; description = description; tools = []; widgets = []; jobs = [] })

abbrev pub sound_label : String → Text → Option LabelFault → Attempt (Option Text)
sound_label name label none = done (some label)
sound_label name label (some fault) = refused (RegistryError.bad_label name fault)

-- `if action is not None: ...`
unfoldable pub checked_label : String → Option Text → Attempt (Option Text)
checked_label name none = done none
checked_label name (some action) =
    let label = clean_action_label action in sound_label name label (fault_of_label label)

abbrev pub tool_of : App → Function → ToolOptions → Option Text → Tool
tool_of app fn options label = record {
  name = fn.name;
  app_name = app.name;
  description = fn.doc;
  read_only = options.read_only;
  confirm = options.confirm;
  timeout = options.timeout;
  origin = Origin.native;
  external = options.external;
  action = label;
}

module _ (makes_schema : Function → Bool) where
  -- `_register_tool`
  unfoldable pub register_tool : Function → ToolOptions → App → Attempt App
  unfolding checked_label
  register_tool fn options app =
      if not fn.is_async
      then refused (RegistryError.not_async fn.name)
      else if not (is_tool_name (codes fn.name))
      then refused (RegistryError.bad_tool_name fn.name)
      else if is_empty fn.doc
      then refused (RegistryError.no_docstring fn.name)
      else if has_key fn.name app.tools
      then refused (RegistryError.already_there fn.name)
      else if not (makes_schema fn)
      then refused (RegistryError.bad_schema fn.name)
      else and_then (checked_label fn.name options.action) (λ label.
        done (record app { tools = insert fn.name (tool_of app fn options label) app.tools }))

pub record WidgetOptions : Type 0 where
  pub title : Text
  pub renderer : String
  pub actions : List String
  pub timeout : Text

-- `renderer in RENDERERS`
abbrev pub is_renderer : String → Bool
is_renderer r = (r == "stat") || ((r == "table") || ((r == "list") || (r == "markdown")))

abbrev pub widget_of : App → Function → WidgetOptions → Widget
widget_of app fn options = record {
  id = fn.name;
  app_name = app.name;
  title = options.title;
  renderer = options.renderer;
  timeout = options.timeout;
  actions = options.actions;
}

-- `App.widget`
unfoldable pub register_widget : Function → WidgetOptions → App → Attempt App
register_widget fn options app =
    if not (is_renderer options.renderer)
    then refused (RegistryError.unknown_renderer options.renderer)
    else if not fn.is_async
    then refused (RegistryError.not_async fn.name)
    else if not (is_empty fn.required)
    then refused (RegistryError.widget_needs_input fn.name)
    else if has_key fn.name app.widgets
    then refused (RegistryError.already_there fn.name)
    else done (record app { widgets = insert fn.name (widget_of app fn options) app.widgets })

pub record JobOptions : Type 0 where
  pub cron : Option Text
  pub interval_seconds : Option ℕ
  pub timeout : Text

abbrev pub job_id : App → Function → Text
job_id app fn = codes app.name ++ (codes "." ++ codes fn.name)

unfoldable pub has_job : Text → List (Text × Job) → Bool
unfolding text_eq
has_job id jobs = any (λ e. text_eq e.0 id) jobs

abbrev pub job_of : App → Function → JobOptions → Job
job_of app fn options = record {
  id = job_id app fn;
  app_name = app.name;
  cron = options.cron;
  interval_seconds = options.interval_seconds;
  timeout = options.timeout;
}

abbrev pub same_presence : Bool → Bool → Bool
same_presence true b = b
same_presence false b = not b

abbrev pub cron_holds : (Text → Bool) → Option Text → Bool
cron_holds is_crontab none = true
cron_holds is_crontab (some cron) = is_crontab cron

module _ (is_crontab : Text → Bool) where
  -- `App.job`; the key is new, so that the new row is the last one.
  unfoldable pub register_job : Function → JobOptions → App → Attempt App
  unfolding has_job
  register_job fn options app =
      if same_presence (is_none options.cron) (is_none options.interval_seconds)
      then refused RegistryError.no_single_schedule
      else if not (cron_holds is_crontab options.cron)
      then refused RegistryError.bad_cron
      else if not fn.is_async
      then refused (RegistryError.not_async fn.name)
      else if has_job (job_id app fn) app.jobs
      then refused (RegistryError.already_there fn.name)
      else done (record app { jobs = app.jobs ++ ((job_id app fn, job_of app fn options) ∷ []) })
