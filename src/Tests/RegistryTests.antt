-- ===== src/Tests/RegistryTests.antt =====
-- src/dudamel/registry.py and app.py with one app and one MCP server.
use dudamel.Prelude.{
  any, ◌||◌, ◌≡◌, refl, true, false, String, none, some, List, [], ◌∷◌, codes, strip, skip_spaces,
  is_space, after_prefix, text_eq,
}
use dudamel.Contract.{Tool, Widget, Job, Origin}
use dudamel.Contract.Names.{is_tool_name, is_app_name, is_name_char, before_newline}
use dudamel.Contract.Labels.{clean_action_label, fault_of_label, is_unsafe}
use dudamel.Registry.{
  App, RegistryError, done, refused, Registry, collides, add_tools, card_faults, widget_faults,
  register_app, register_all, registry_of, mount_fault, mount_step, mount_all, add_mcp_tools,
}
use dudamel.Registry.Apps.{
  Function, new_app, checked_label, register_tool, register_widget, register_job, has_job,
}
use dudamel.Registry.Apps.Formed.{tool, widget, job, IsFormed, Declaration, app_of, app_of-IsFormed}
use dudamel.Registry.Combined.{IsCombined, registry_of-IsCombined}
use dudamel.Registry.Mounted.{
  is_malformed, is_native_name, add_mcp_tools-is_refused, IsMounted, add_mcp_tools-IsMounted,
}
use dudamel.Registry.Attempts.{is_refused}

abbrev function : String → Function
function name = record { name = name; is_async = true; doc = codes "Does it."; required = [] }

-- A tool with a label that needs cleaning, a card with its button, and a job every minute.
abbrev pub declarations : List Declaration
declarations =
    tool (function "sweep") (record {
      read_only = false;
      confirm = true;
      external = false;
      action = some (codes " Sweep\n");
      timeout = codes "30";
    })
    ∷ widget (function "card") (record {
      title = codes "Notes";
      renderer = "list";
      actions = "sweep" ∷ [];
      timeout = codes "15";
    })
    ∷ job (function "tick")
        (record { cron = none; interval_seconds = some 60; timeout = codes "300" })
    ∷ []

abbrev sweep : Tool
sweep = record {
  name = "sweep";
  app_name = "notes";
  description = codes "Does it.";
  read_only = false;
  confirm = true;
  timeout = codes "30";
  origin = Origin.native;
  external = false;
  action = some (codes "Sweep");
}

abbrev card : Widget
card = record {
  id = "card";
  app_name = "notes";
  title = codes "Notes";
  renderer = "list";
  timeout = codes "15";
  actions = "sweep" ∷ [];
}

abbrev tick : Job
tick = record {
  id = codes "notes.tick";
  app_name = "notes";
  cron = none;
  interval_seconds = some 60;
  timeout = codes "300";
}

abbrev pub notes : App
notes = record {
  name = "notes";
  description = codes "Notes.";
  tools = ("sweep", sweep) ∷ [];
  widgets = ("card", card) ∷ [];
  jobs = (codes "notes.tick", tick) ∷ [];
}

pub notes_made : app_of (λ f. true) (λ c. false) "notes" (codes "Notes.") declarations ≡ done notes
unfolding new_app is_app_name register_tool register_widget register_job is_tool_name is_name_char
    before_newline checked_label clean_action_label fault_of_label is_unsafe strip skip_spaces
    is_space has_job text_eq
notes_made = refl

app_of-IsFormed_example : IsFormed (λ c. false) notes
app_of-IsFormed_example =
    app_of-IsFormed (λ f. true) (λ c. false) "notes" (codes "Notes.") declarations notes notes_made

abbrev pub registry : Registry
registry = record {
  apps = ("notes", notes) ∷ [];
  tools = ("sweep", sweep) ∷ [];
  widgets = card ∷ [];
  jobs = tick ∷ [];
}

pub registry_made : registry_of (λ t. []) (notes ∷ []) ≡ done registry
unfolding registry_of register_all register_app collides after_prefix add_tools widget_faults
    card_faults
registry_made = refl

registry_of-IsCombined_example : IsCombined (λ t. []) (notes ∷ []) registry
registry_of-IsCombined_example =
    registry_of-IsCombined (λ t. []) (notes ∷ []) registry registry_made

-- An app whose prefix begins the name of a table of the framework.
shadowing :
    registry_of (λ t. []) (record notes { name = "job" } ∷ [])
    ≡ refused (RegistryError.shadows "job")
unfolding registry_of register_all register_app collides after_prefix add_tools widget_faults
    card_faults
shadowing = refl

abbrev mounted_tool : String → String → Tool
mounted_tool name server = record sweep {
  name = name;
  app_name = server;
  origin = Origin.mcp;
  action = none;
}

-- The second server offers a name that the first one has taken.
abbrev batch : List Tool
batch = mounted_tool "search" "one" ∷ mounted_tool "search" "two" ∷ []

abbrev mounted : Registry
mounted = record registry {
  tools = ("sweep", sweep) ∷ ("search", mounted_tool "search" "one") ∷ [];
}

mounting : add_mcp_tools batch registry ≡ done mounted
unfolding add_mcp_tools mount_all mount_step mount_fault is_tool_name is_name_char before_newline
mounting = refl

add_mcp_tools-IsMounted_example : IsMounted batch registry mounted
add_mcp_tools-IsMounted_example = add_mcp_tools-IsMounted batch registry mounted mounting

-- A server may not take the name of a native tool.
native_name_refused : is_refused (add_mcp_tools (mounted_tool "sweep" "one" ∷ []) registry) ≡ true
unfolding add_mcp_tools mount_all mount_step mount_fault is_tool_name is_name_char before_newline
native_name_refused = refl

add_mcp_tools-is_refused_example :
    is_refused (add_mcp_tools (mounted_tool "sweep" "one" ∷ batch) registry)
    ≡ any
        (λ t. is_malformed t || is_native_name registry.tools t.name)
        (mounted_tool "sweep" "one" ∷ batch)
add_mcp_tools-is_refused_example =
    add_mcp_tools-is_refused (mounted_tool "sweep" "one" ∷ batch) registry
