-- ===== src/Registry.antt =====
-- src/dudamel/registry.py: the apps of one process, and the tools mounted from MCP servers.
-- Registration into one app (app.py) is in Apps. A failed construction has no registry; `metadatas`
-- has the keys of `apps` and SQLAlchemy's values, and is left out.
pub mod Attempts
pub mod Apps
pub mod Combined
pub mod Mounted
use dudamel.Prelude.{
  ◌==◌, ◌∙◌, Bool, true, false, not, ◌&&◌, ◌||◌, String, Option, none, some, List, [], ◌∷◌, ◌++◌,
  Text, codes, any, map, is_some, is_none, after_prefix, if◌then◌else◌,
}
use dudamel.Dict.{Dict, lookup, has_key, insert, update}
use dudamel.Contract.{Tool, Widget, Job, Origin, is_mcp}
use dudamel.Contract.Names.{is_tool_name}
use dudamel.Contract.Labels.{LabelFault}

-- `App`, without what the runtime binds.
pub record App : Type 0 where
  pub name : String
  pub description : Text
  pub tools : Dict Tool
  pub widgets : Dict Widget
  pub jobs : List (Text × Job)

pub data RegistryError : Type 0 where
  reserved shadows duplicate_app : String → RegistryError
  tool_clash : String → RegistryError
  card_unknown card_unlabelled card_required : String → RegistryError
  not_mcp mcp_labelled mcp_name native_clash : String → RegistryError
  bad_app_name not_async bad_tool_name no_docstring already_there bad_schema :
      String → RegistryError
  bad_label : String → LabelFault → RegistryError
  unknown_renderer widget_needs_input : String → RegistryError
  no_single_schedule bad_cron : RegistryError

pub data Attempt {ℓ} (A : Type ℓ) : Type ℓ where
  done : A → Attempt A
  refused : RegistryError → Attempt A

abbrev pub and_then {ℓ κ} : {A : Type ℓ} {B : Type κ} → Attempt A → (A → Attempt B) → Attempt B
and_then (done a) f = f a
and_then (refused e) f = refused e

pub record Registry : Type 0 where
  pub apps : Dict App
  pub tools : Dict Tool
  pub widgets : List Widget
  pub jobs : List Job

-- `RESERVED_APP_NAMES`
abbrev pub is_reserved : String → Bool
is_reserved name = (name == "dudamel") || (name == "core")

-- `_CORE_NAMESPACE_CANDIDATES`: the tables of models_core.py and the version tables' namespace.
abbrev core_namespace : List String
core_namespace =
    "conversations" ∷ "messages" ∷ "activity" ∷ "job_runs" ∷ "pending_confirmations" ∷ "llm_calls"
    ∷ "summaries" ∷ "alembic_" ∷ []

-- `_core_namespace_collision`: which of several candidates is named is left to the set's order.
unfoldable pub collides : String → Bool
unfolding after_prefix
collides app_name =
    any (λ candidate. is_some (after_prefix (codes app_name ++ codes "_") (codes candidate)))
      core_namespace

unfoldable pub add_tools : Dict Tool → Dict Tool → Attempt (Dict Tool)
add_tools [] known = done known
add_tools ((name, tool) ∷ tools) known =
    let rest = add_tools tools (insert name tool known) in
    if has_key name known then refused (RegistryError.tool_clash name) else rest

abbrev pub values {ℓ κ} : {K : Type ℓ} {V : Type κ} → List (K × V) → List V
values = map (λ e. e.1)

abbrev pub first_of : Option RegistryError → Option RegistryError → Option RegistryError
first_of none f = f
first_of (some e) f = some e

abbrev pub extended : App → Registry → Dict Tool → Registry
extended app r tools = record {
  apps = insert app.name app r.apps;
  tools = tools;
  widgets = r.widgets ++ values app.widgets;
  jobs = r.jobs ++ values app.jobs;
}

abbrev pub unless {ℓ} : {A : Type ℓ} → Option RegistryError → A → Attempt A
unless none a = done a
unless (some e) a = refused e

-- The names of a tool's required parameters, which its argument model knows.
module _ (required : Tool → List String) where
  abbrev pub card_fault : String → Option Tool → Option RegistryError
  card_fault action none = some (RegistryError.card_unknown action)
  card_fault action (some tool) = elim tool.action [
    | none ↦ some (RegistryError.card_unlabelled action)
    | some _ ↦ elim (required tool) [
      | [] ↦ none
      | _ ∷ _ ↦ some (RegistryError.card_required action)
    ]
  ]

  -- `_validate_card_actions`
  unfoldable pub card_faults : App → List String → Option RegistryError
  card_faults app [] = none
  card_faults app (action ∷ actions) =
      first_of (card_fault action (lookup action app.tools)) (card_faults app actions)

  unfoldable pub widget_faults : App → List Widget → Option RegistryError
  unfolding card_faults
  widget_faults app [] = none
  widget_faults app (widget ∷ widgets) =
      first_of (card_faults app widget.actions) (widget_faults app widgets)

  -- One turn of the loop in `Registry.__init__`.
  unfoldable pub register_app : App → Registry → Attempt Registry
  unfolding add_tools widget_faults collides
  register_app app r =
      if is_reserved app.name
      then refused (RegistryError.reserved app.name)
      else if collides app.name
      then refused (RegistryError.shadows app.name)
      else if has_key app.name r.apps
      then refused (RegistryError.duplicate_app app.name)
      else and_then (add_tools app.tools r.tools)
          (λ tools. unless (widget_faults app (values app.widgets)) (extended app r tools))

  unfoldable pub register_all : List App → Registry → Attempt Registry
  unfolding register_app
  register_all [] r = done r
  register_all (app ∷ apps) r = and_then (register_app app r) (register_all apps)

  -- `Registry.__init__`
  unfoldable pub registry_of : List App → Attempt Registry
  unfolding register_all
  registry_of apps = register_all apps (record { apps = []; tools = []; widgets = []; jobs = [] })

-- What is wrong with a tool that is to be mounted, but for its name being taken.
unfoldable pub mount_fault : Tool → Option RegistryError
mount_fault tool =
    if not (is_mcp tool.origin)
    then some (RegistryError.not_mcp tool.name)
    else if is_some tool.action
    then some (RegistryError.mcp_labelled tool.name)
    else if not (is_tool_name (codes tool.name))
    then some (RegistryError.mcp_name tool.name)
    else none

-- `a or b`
abbrev pub or_else {ℓ} : {A : Type ℓ} → Option A → Option A → Option A
or_else none o = o
or_else (some a) o = some a

-- `self.tools.get(name) or seen.get(name)`
abbrev pub existing : Dict Tool → Dict Tool → String → Option Tool
existing known seen name = or_else (lookup name known) (lookup name seen)

abbrev pub mount_named : Tool → Option Tool → Dict Tool → Attempt (Dict Tool)
mount_named tool none seen = done (insert tool.name tool seen)
mount_named tool (some other) seen =
    if is_mcp other.origin then done seen else refused (RegistryError.native_clash tool.name)

abbrev pub mount_checked : Option RegistryError → Dict Tool → Tool → Dict Tool → Attempt (Dict Tool)
mount_checked (some e) known tool seen = refused e
mount_checked none known tool seen = mount_named tool (existing known seen tool.name) seen

unfoldable pub mount_step : Dict Tool → Tool → Dict Tool → Attempt (Dict Tool)
unfolding mount_fault
mount_step known tool seen = mount_checked (mount_fault tool) known tool seen

unfoldable pub mount_all : Dict Tool → List Tool → Dict Tool → Attempt (Dict Tool)
unfolding mount_step
mount_all known [] seen = done seen
mount_all known (tool ∷ tools) seen = and_then (mount_step known tool seen) (mount_all known tools)

-- `add_mcp_tools`
unfoldable pub add_mcp_tools : List Tool → Registry → Attempt Registry
unfolding mount_all
add_mcp_tools tools r =
    and_then (mount_all r.tools tools []) (λ seen. done (record r { tools = update r.tools seen }))
