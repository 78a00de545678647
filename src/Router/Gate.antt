-- ===== src/Router/Gate.antt =====
-- The taint rule of src/dudamel/router.py: which names are untrusted, and which calls must wait for
-- the user's approval.
use dudamel.Prelude.{Bool, true, false, ◌||◌, String, Option, none, some, List, any, if◌then◌else◌}
use dudamel.Dict.{Dict, lookup}
use dudamel.Llm.{Message}
use dudamel.Contract.{Tool, untrusted}
use dudamel.Router.Env.{Config, is_off}

abbrev pub untrusted_option : Option Tool → Bool
untrusted_option none = true
untrusted_option (some tool) = untrusted tool

-- `_untrusted_name`: unknown provenance is untrusted.
unfoldable pub untrusted_name : Dict Tool → String → Bool
untrusted_name tools name = untrusted_option (lookup name tools)

-- `_window_tainted`, which `_dropped_tainted` calls too.
unfoldable pub window_tainted : Dict Tool → List Message → Bool
window_tainted tools window =
    any (λ m. any (λ tc. untrusted_name tools tc.name) m.tool_calls) window

-- `_needs_confirm`
unfoldable pub needs_confirm : Config → Tool → Bool → Bool → Bool
needs_confirm config tool turn_tainted batch_has_untrusted =
    if tool.confirm
    then true
    else if is_off config.taint_mode
    then false
    else if tool.read_only
    then false
    else turn_tainted || batch_has_untrusted
