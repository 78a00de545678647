-- ===== src/Mcp/Taken.antt =====
-- src/dudamel/mcp_mount.py and registry.py: the mounted tools at the registry.
use mathlib.Core.List.{map-append}
use dudamel.Prelude.{
  ◌≡◌, ◌∙◌, refl, sym, ap, subst, inl, inr, Bool, true, false, not, ◌||◌, String, ◌==◌, none, some,
  List, [], ◌∷◌, ◌++◌, Text, codes, All, All-append, any, length, leb, Bool-cases, map, any-append,
  append_assoc, append-nil, eq_iff, arith,
}
use dudamel.Contract.{Tool}
use dudamel.Contract.Names.{is_tool_name}
use dudamel.Registry.{Registry, add_mcp_tools}
use dudamel.Registry.Attempts.{is_refused}
use dudamel.Registry.Mounted.{IsMountable, is_malformed, is_native_name, add_mcp_tools-is_refused}
use dudamel.Mcp.{
  RemoteTool, mcp_tool_name, build_tool, has_name, fits, Claimed, consider, collect, Listing,
  mount_entry, mount_entries, mount, max_tools_per_server,
}

-- No name is there twice.
abbrev pub IsDistinct : List String → Type 0
IsDistinct [] = Unit
IsDistinct (n ∷ ns) = (has_name n ns ≡ false) × IsDistinct ns

abbrev pub names : List Tool → List String
names = map (λ t. t.name)

names-append : (ts us : List Tool) → names (ts ++ us) ≡ names ts ++ names us
names-append ts us = map-append (λ t. t.name) ts us

has_name-append :
    (n : String) (ns ms : List String) → has_name n (ns ++ ms) ≡ (has_name n ns || has_name n ms)
has_name-append n ns ms = any-append (λ m. m == n) ns ms

snoc-IsDistinct :
    (n : String) (ns : List String)
    → has_name n ns ≡ false
    → IsDistinct ns
    → IsDistinct (ns ++ (n ∷ []))
snoc-IsDistinct n [] h d = (refl, tt)
snoc-IsDistinct n (m ∷ ns) h d = (
  ground (arith, eq_iff m n, eq_iff n m, has_name-append m ns (n ∷ [])),
  snoc-IsDistinct n ns (ground arith) d.1,
)

-- The tools so far are ones that the registry takes, and the names claimed since `before` are theirs.
record IsClaimed (before : List String) (claimed : Claimed) : Type 0 where
  mountable : All IsMountable claimed.0
  claims : claimed.1 ≡ before ++ names claimed.0
  distinct : IsDistinct claimed.1

taken : (a b c d : Bool) → (a || (not b || (c || d))) ≡ false → (b ≡ true) × (c ≡ false)
taken a b c d h = ground arith

module _ (timeout : Text) where
  consider-IsClaimed :
      (before : List String) (server_name : String) (t : RemoteTool) (claimed : Claimed)
      → IsClaimed before claimed
      → IsClaimed before (consider server_name timeout t claimed)
  unfolding consider build_tool
  consider-IsClaimed before server_name t (tools, seen) h =
      let name = mcp_tool_name server_name t.name in
      elim (Bool-cases (
        leb max_tools_per_server (length tools)
        || (not (is_tool_name (codes name))
            || (has_name name seen || not (fits t.schema_bytes))))) [
              | inl e ↦ rw e h
              | inr e ↦
                  let (named, fresh) = taken (leb max_tools_per_server (length tools)) _ _ _ e in
                  rw e (record {
                    mountable =
                        All-append IsMountable tools (build_tool server_name timeout name t ∷ [])
                          h.mountable ((refl, refl, named), tt);
                    claims =
                        ap (λ (ns : List String). ns ++ (name ∷ [])) h.claims
                        ∙ append_assoc before (names tools) (name ∷ [])
                        ∙ ap (λ (ns : List String). before ++ ns)
                            (sym (names-append tools (build_tool server_name timeout name t ∷ [])));
                    distinct = snoc-IsDistinct name seen fresh h.distinct;
                  })
            ]

  collect-IsClaimed :
      (before : List String) (server_name : String) (ts : List RemoteTool) (claimed : Claimed)
      → IsClaimed before claimed
      → IsClaimed before (collect server_name timeout ts claimed)
  unfolding collect
  collect-IsClaimed before server_name [] claimed h = h
  collect-IsClaimed before server_name (t ∷ ts) claimed h =
      collect-IsClaimed before server_name ts _ (consider-IsClaimed before server_name t claimed h)

  mount_entry-IsClaimed :
      (entry : Listing) (claimed : Claimed)
      → IsClaimed [] claimed
      → IsClaimed [] (mount_entry timeout entry claimed)
  mount_entry-IsClaimed none claimed h = h
  mount_entry-IsClaimed (some (server_name, listed)) (mounted, seen) h =
      let new =
        collect-IsClaimed seen server_name listed ([], seen)
          (record { mountable = tt; claims = sym (append-nil seen); distinct = h.distinct }) in
      let tools = (collect server_name timeout listed ([], seen)).0 in
      record {
        mountable = All-append IsMountable mounted tools h.mountable new.mountable;
        claims =
            new.claims
            ∙ ap (λ (ns : List String). ns ++ names tools) h.claims
            ∙ sym (names-append mounted tools);
        distinct = new.distinct;
      }

  mount_entries-IsClaimed :
      (entries : List Listing) (claimed : Claimed)
      → IsClaimed [] claimed
      → IsClaimed [] (mount_entries timeout entries claimed)
  unfolding mount_entries
  mount_entries-IsClaimed [] claimed h = h
  mount_entries-IsClaimed (entry ∷ entries) claimed h =
      mount_entries-IsClaimed entries _ (mount_entry-IsClaimed entry claimed h)

any-is_malformed :
    (native : Tool → Bool) (ts : List Tool)
    → All IsMountable ts
    → any (λ t. is_malformed t || native t) ts ≡ any native ts
any-is_malformed native [] h = refl
any-is_malformed native (t ∷ ts) h =
    let (origin, unlabelled, named) = h.0 in
    let fine : is_malformed t ≡ false = rw (origin, unlabelled, named) refl in
    rw (fine, any-is_malformed native ts h.1) refl

-- What is mounted, as the registry finds it.
pub record IsTaken (tools : List Tool) : Type 0 where
  pub mountable : All IsMountable tools
  pub distinct : IsDistinct (names tools)
  pub refused :
      (r : Registry)
      → is_refused (add_mcp_tools tools r) ≡ any (λ t. is_native_name r.tools t.name) tools

-- Whatever the servers answer, the tools that are mounted are MCP tools without a label, with names
-- that the pattern allows and that are all different, so that the registry refuses them only where
-- one has the name of a registered native tool.
pub mount-IsTaken : (timeout : Text) (entries : List Listing) → IsTaken (mount timeout entries)
unfolding mount
mount-IsTaken timeout entries =
    let h =
      mount_entries-IsClaimed timeout entries ([], [])
        (record { mountable = tt; claims = refl; distinct = tt }) in
    let tools = (mount_entries timeout entries ([], [])).0 in
    record {
      mountable = h.mountable;
      distinct = subst IsDistinct h.claims h.distinct;
      refused = λ r.
          add_mcp_tools-is_refused tools r
          ∙ any-is_malformed (λ t. is_native_name r.tools t.name) tools h.mountable;
    }
