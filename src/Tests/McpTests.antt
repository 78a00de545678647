-- ===== src/Tests/McpTests.antt =====
-- src/dudamel/mcp_mount.py with two servers of one name.
use dudamel.Prelude.{◌≡◌, refl, true, false, String, none, some, List, [], ◌∷◌, codes}
use dudamel.Contract.Names.{is_tool_name, is_name_char, before_newline}
use dudamel.Mcp.{
  RemoteTool, Listing, mount, mount_entries, collect, consider, mcp_tool_name, build_tool,
  sanitize_mcp_name, safe_chars, concat, head_chars,
}
use dudamel.Mcp.Taken.{IsTaken, names, mount-IsTaken}

abbrev remote : String → RemoteTool
remote name = record {
  name = name;
  description = none;
  schema_bytes = some 40;
  read_only_hint = true;
  destructive_hint = false;
}

-- A server fails, and the last one takes the name of the first.
abbrev entries : List Listing
entries =
    some ("web", remote "search it" ∷ [])
    ∷ none
    ∷ some ("web", remote "search/it" ∷ remote "" ∷ [])
    ∷ []

mounted_names : names (mount (codes "35.0") entries) ≡ "web__search_it" ∷ "web___" ∷ []
unfolding mount mount_entries collect consider mcp_tool_name build_tool sanitize_mcp_name safe_chars
    concat head_chars is_tool_name is_name_char before_newline
mounted_names = refl

mount-IsTaken_example : IsTaken (mount (codes "35.0") entries)
mount-IsTaken_example = mount-IsTaken (codes "35.0") entries
