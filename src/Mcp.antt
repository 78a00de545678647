-- ===== src/Mcp.antt =====
-- src/dudamel/mcp_mount.py: the tools that are taken over from MCP servers when they are mounted.
-- The protocol is not modelled: a server is what its discovery answers, or a failure; the size of
-- a schema is that of `json.dumps`, where it succeeds.
pub mod Taken
use Prim.Native.Char.{Char}
use dudamel.Prelude.{
  ℕ, zero, suc, Bool, true, false, not, ◌||◌, String, ◌==◌, Option, none, some, List, [], ◌∷◌, ◌++◌,
  Text, codes, code, any, take, length, leb, ltb, if◌then◌else◌,
}
use dudamel.Contract.{Tool, Origin}
use dudamel.Contract.Names.{is_name_char, is_tool_name}

-- `types.Tool`, as far as it is read.
pub record RemoteTool : Type 0 where
  pub name : String
  pub description : Option Text
  pub schema_bytes : Option ℕ
  pub read_only_hint : Bool
  pub destructive_hint : Bool

abbrev pub max_schema_bytes : ℕ
max_schema_bytes = 16384

abbrev pub max_description_chars : ℕ
max_description_chars = 1024

abbrev pub max_tools_per_server : ℕ
max_tools_per_server = 64

abbrev pub safe_char : Char → Char
safe_char c = if is_name_char (code c) then c else "_"

unfoldable pub safe_chars : String → String
unfolding is_name_char
safe_chars String.[] = String.[]
safe_chars (String.◌∷◌ c s) = String.◌∷◌ (safe_char c) (safe_chars s)

abbrev pub or_underscore : String → String
or_underscore String.[] = "_"
or_underscore (String.◌∷◌ c s) = String.◌∷◌ c s

-- `sanitize_mcp_name`
unfoldable pub sanitize_mcp_name : String → String
unfolding safe_chars
sanitize_mcp_name name = or_underscore (safe_chars name)

unfoldable pub concat : String → String → String
concat String.[] t = t
concat (String.◌∷◌ c s) t = String.◌∷◌ c (concat s t)

-- `s[:n]`
unfoldable pub head_chars : ℕ → String → String
head_chars zero s = String.[]
head_chars (suc n) String.[] = String.[]
head_chars (suc n) (String.◌∷◌ c s) = String.◌∷◌ c (head_chars n s)

-- `mcp_tool_name`
unfoldable pub mcp_tool_name : String → String → String
unfolding sanitize_mcp_name concat head_chars
mcp_tool_name server tool =
    head_chars 64 (concat (sanitize_mcp_name server) (concat "__" (sanitize_mcp_name tool)))

abbrev pub text_or_name : Option Text → String → Text
text_or_name none name = codes name
text_or_name (some []) name = codes name
text_or_name (some (c ∷ t)) name = c ∷ t

-- `_build_tool`; the timeout is printed by the caller.
unfoldable pub build_tool : String → Text → String → RemoteTool → Tool
unfolding concat
build_tool server_name timeout tool_name t =
    let raw = text_or_name t.description t.name in
    record {
      name = tool_name;
      app_name = concat "mcp:" server_name;
      description =
          codes "[experimental MCP] "
          ++ (if ltb max_description_chars (length raw)
              then take max_description_chars raw ++ codes "..."
              else raw);
      read_only = t.read_only_hint;
      confirm = t.destructive_hint;
      timeout = timeout;
      origin = Origin.mcp;
      external = false;
      action = none;
    }

abbrev pub has_name : String → List String → Bool
has_name name names = any (λ n. n == name) names

abbrev pub fits : Option ℕ → Bool
fits none = false
fits (some bytes) = leb bytes max_schema_bytes

-- The tools of one server so far, and the names that all servers have claimed.
abbrev pub Claimed : Type 0
Claimed = List Tool × List String

-- One turn of the loop in `_collect_server_tools`
unfoldable pub consider : String → Text → RemoteTool → Claimed → Claimed
unfolding mcp_tool_name build_tool is_tool_name
consider server_name timeout t (tools, seen) =
    let name = mcp_tool_name server_name t.name in
    if leb max_tools_per_server (length tools)
      || (not (is_tool_name (codes name)) || (has_name name seen || not (fits t.schema_bytes)))
    then (tools, seen)
    else (tools ++ (build_tool server_name timeout name t ∷ []), seen ++ (name ∷ []))

unfoldable pub collect : String → Text → List RemoteTool → Claimed → Claimed
unfolding consider
collect server_name timeout [] claimed = claimed
collect server_name timeout (t ∷ ts) claimed =
    collect server_name timeout ts (consider server_name timeout t claimed)

-- What an entry's server answers at discovery: its name and tools, or nothing where it fails.
abbrev pub Listing : Type 0
Listing = Option (String × List RemoteTool)

abbrev pub mount_entry : Text → Listing → Claimed → Claimed
mount_entry timeout none (mounted, seen) = (mounted, seen)
mount_entry timeout (some (server_name, listed)) (mounted, seen) =
    let (tools, seen') = collect server_name timeout listed ([], seen) in (mounted ++ tools, seen')

-- The loop of `MCPMount.mount`
unfoldable pub mount_entries : Text → List Listing → Claimed → Claimed
unfolding collect
mount_entries timeout [] claimed = claimed
mount_entries timeout (entry ∷ entries) claimed =
    mount_entries timeout entries (mount_entry timeout entry claimed)

-- `MCPMount.mount`
unfoldable pub mount : Text → List Listing → List Tool
unfolding mount_entries
mount timeout entries = (mount_entries timeout entries ([], [])).0
