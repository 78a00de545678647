-- ===== src/Registry/Mounted.antt =====
-- src/dudamel/registry.py: what mounting the tools of MCP servers does to a registry.
use dudamel.Prelude.{
  ◌==◌, eq_iff, ◌≡◌, ◌∙◌, refl, sym, ap, subst, Bool, true, false, not, ◌||◌, String, Option, none,
  some, List, [], ◌∷◌, All, any, is_some, or_false, inl, inr, codes, Bool-cases, Option-cases,
  arith, if◌then◌else◌,
}
use dudamel.Dict.{
  Dict, lookup, insert, update, lookup-insert, IsDict, AllValues, insert-IsDict, insert-AllValues,
  lookup-AllValues,
}
use dudamel.Contract.{Tool, is_mcp}
use dudamel.Contract.Names.{is_tool_name}
use dudamel.Registry.{
  RegistryError, done, Registry, mount_fault, or_else, mount_named, mount_checked, mount_step,
  mount_all, add_mcp_tools,
}
use dudamel.Registry.Attempts.{
  is_refused, and_then-is_refused, and_then-done, done-injective, refused-done,
}

-- The first of some tools that has a name.
abbrev pub first_named : String → List Tool → Option Tool
first_named name [] = none
first_named name (t ∷ ts) = if t.name == name then some t else first_named name ts

-- The name is a native tool's.
abbrev is_native : Option Tool → Bool
is_native none = false
is_native (some t) = not (is_mcp t.origin)

abbrev pub is_native_name : Dict Tool → String → Bool
is_native_name known name = is_native (lookup name known)

abbrev pub IsMountable : Tool → Type 0
IsMountable t = (is_mcp t.origin ≡ true) × (t.action ≡ none) × (is_tool_name (codes t.name) ≡ true)

-- A tool that is refused whatever is registered.
abbrev pub is_malformed : Tool → Bool
is_malformed t = not (is_mcp t.origin) || (is_some t.action || not (is_tool_name (codes t.name)))

abbrev IsMcpDict : Dict Tool → Type 0
IsMcpDict seen = AllValues (λ (t : Tool). is_mcp t.origin ≡ true) seen

mount_fault-is_malformed : (t : Tool) → is_some (mount_fault t) ≡ is_malformed t
unfolding mount_fault
mount_fault-is_malformed t = ground arith

mount_fault-IsMountable : (t : Tool) → mount_fault t ≡ none → IsMountable t
mount_fault-IsMountable t h =
    let fine : is_malformed t ≡ false = sym (mount_fault-is_malformed t) ∙ ap is_some h in
    elim (Option-cases t.action) [
      | inl e ↦ (ground arith, e, ground arith)
      | inr (label, e) ↦ absurd (ground arith)
    ]

-- What one tool adds to the tools that the batch has brought so far.
record IsStep (known : Dict Tool) (t : Tool) (seen seen' : Dict Tool) : Type 0 where
  mcp : IsMcpDict seen'
  distinct : IsDict seen'
  mountable : IsMountable t
  lookups :
      (j : String)
      → lookup j seen'
        ≡ or_else
            (lookup j seen)
            (if is_some (lookup j known) then none else if t.name == j then some t else none)

module _ (t : Tool) (seen : Dict Tool) (hm : IsMcpDict seen) where
  mount_named-is_refused :
      (o other : Option Tool)
      → other ≡ lookup t.name seen
      → is_refused (mount_named t (or_else o other) seen) ≡ is_native o
  mount_named-is_refused (some u) other e = ground arith
  mount_named-is_refused none none e = refl
  mount_named-is_refused none (some u) e =
      rw (lookup-AllValues (λ (v : Tool). is_mcp v.origin ≡ true) t.name seen hm (sym e)) refl

  mount_checked-is_refused :
      (o : Option RegistryError) (known : Dict Tool)
      → is_refused (mount_checked o known t seen) ≡ (is_some o || is_native_name known t.name)
  mount_checked-is_refused none known = mount_named-is_refused (lookup t.name known) _ refl
  mount_checked-is_refused (some e) known = refl

  mount_step-is_refused :
      (known : Dict Tool)
      → is_refused (mount_step known t seen) ≡ (is_malformed t || is_native_name known t.name)
  unfolding mount_step
  mount_step-is_refused known =
      mount_checked-is_refused (mount_fault t) known
      ∙ ap (λ b. b || is_native_name known t.name) (mount_fault-is_malformed t)

  unchanged-IsStep :
      (known : Dict Tool) (u : Tool)
      → IsDict seen
      → IsMountable t
      → or_else (lookup t.name known) (lookup t.name seen) ≡ some u
      → IsStep known t seen seen
  unchanged-IsStep known u hd fine taken = record {
    mcp = hm;
    distinct = hd;
    mountable = fine;
    lookups = λ j. elim (Option-cases (lookup t.name known)) [
      | inl e ↦ ground (arith, eq_iff t.name j)
      | inr (v, e) ↦ ground (arith, eq_iff t.name j)
    ];
  }

  dropped-done :
      (u : Tool) (seen' : Dict Tool) → mount_named t (some u) seen ≡ done seen' → seen ≡ seen'
  dropped-done u seen' h = elim (Bool-cases (is_mcp u.origin)) [
    | inl e ↦ done-injective (rw e at h)
    | inr e ↦ absurd (ground arith)
  ]

  mount_named-IsStep :
      (known seen' : Dict Tool) (o : Option Tool)
      → o ≡ or_else (lookup t.name known) (lookup t.name seen)
      → IsDict seen
      → IsMountable t
      → mount_named t o seen ≡ done seen'
      → IsStep known t seen seen'
  mount_named-IsStep known seen' none e hd fine h =
      subst (IsStep known t seen) (done-injective h) (record {
        mcp = insert-AllValues (λ (v : Tool). is_mcp v.origin ≡ true) t.name t seen fine.0 hm;
        distinct = insert-IsDict t.name t seen hd;
        mountable = fine;
        lookups = λ j. elim (Option-cases (lookup t.name known)) [
          | inl e' ↦ ground (arith, eq_iff t.name j, lookup-insert t.name j t seen)
          | inr (v, e') ↦ absurd (ground arith)
        ];
      })
  mount_named-IsStep known seen' (some u) e hd fine h =
      subst (IsStep known t seen) (dropped-done u seen' h)
        (unchanged-IsStep known u hd fine (sym e))

  mount_step-IsStep :
      (known seen' : Dict Tool)
      → IsDict seen
      → mount_step known t seen ≡ done seen'
      → IsStep known t seen seen'
  unfolding mount_step
  mount_step-IsStep known seen' hd h = elim (Option-cases (mount_fault t)) [
    | inl e ↦
        mount_named-IsStep known seen' _ refl hd (mount_fault-IsMountable t e)
          (subst (λ o. mount_checked o known t seen ≡ done seen') e h)
    | inr (fault, e) ↦
        absurd (refused-done (subst (λ o. mount_checked o known t seen ≡ done seen') e h))
  ]

-- What a batch adds.
record IsBatch (known : Dict Tool) (ts : List Tool) (seen seen' : Dict Tool) : Type 0 where
  distinct : IsDict seen'
  mountable : All IsMountable ts
  lookups :
      (j : String)
      → lookup j seen'
        ≡ or_else (lookup j seen) (if is_some (lookup j known) then none else first_named j ts)

module _ (known : Dict Tool) where
  mount_all-IsBatch :
      (ts : List Tool) (seen seen' : Dict Tool)
      → IsMcpDict seen
      → IsDict seen
      → mount_all known ts seen ≡ done seen'
      → IsBatch known ts seen seen'
  unfolding mount_all
  mount_all-IsBatch [] seen seen' hm hd h =
      subst (IsBatch known [] seen) (done-injective h)
        (record { distinct = hd; mountable = tt; lookups = λ j. ground arith })
  mount_all-IsBatch (t ∷ ts) seen seen' hm hd h =
      let (mid, first, rest) = and_then-done (mount_step known t seen) (mount_all known ts) h in
      let one = mount_step-IsStep t seen hm known mid hd first in
      let more = mount_all-IsBatch ts mid seen' one.mcp one.distinct rest in
      record {
        distinct = more.distinct;
        mountable = (one.mountable, more.mountable);
        lookups = λ j. ground (arith, one.lookups j, more.lookups j);
      }

  mount_all-is_refused :
      (ts : List Tool) (seen : Dict Tool)
      → IsMcpDict seen
      → IsDict seen
      → is_refused (mount_all known ts seen)
        ≡ any (λ t. is_malformed t || is_native_name known t.name) ts
  unfolding mount_all
  mount_all-is_refused [] seen hm hd = refl
  mount_all-is_refused (t ∷ ts) seen hm hd =
      and_then-is_refused (mount_step known t seen) (mount_all known ts) _ (λ mid e.
        let one = mount_step-IsStep t seen hm known mid hd e in
        mount_all-is_refused ts mid one.mcp one.distinct)
      ∙ ap (λ b. b || any (λ u. is_malformed u || is_native_name known u.name) ts)
          (mount_step-is_refused t seen hm known)

lookup-update :
    (j : String) (d e : Dict Tool)
    → IsDict e
    → lookup j (update d e) ≡ or_else (lookup j e) (lookup j d)
lookup-update j d [] h = refl
lookup-update j d ((k, t) ∷ e) h =
    ground (arith, lookup-update j (insert k t d) e h.1, lookup-insert k j t d, eq_iff k j)

update-IsDict : (d e : Dict Tool) → IsDict d → IsDict (update d e)
update-IsDict d [] h = h
update-IsDict d ((k, t) ∷ e) h = update-IsDict (insert k t d) e (insert-IsDict k t d h)

-- A registry after a batch of tools has been mounted.
pub record IsMounted (ts : List Tool) (r r' : Registry) : Type 0 where
  apps : r'.apps ≡ r.apps
  widgets : r'.widgets ≡ r.widgets
  jobs : r'.jobs ≡ r.jobs
  mountable : All IsMountable ts
  distinct : IsDict r.tools → IsDict r'.tools
  lookups : (j : String) → lookup j r'.tools ≡ or_else (lookup j r.tools) (first_named j ts)

-- Mounting that is not refused changes no tool that is registered: a name that is free gets the
-- first tool of the batch with this name, which is an MCP tool without a label whose name the
-- pattern allows, and nothing but the tools changes.
pub add_mcp_tools-IsMounted :
    (ts : List Tool) (r r' : Registry) → add_mcp_tools ts r ≡ done r' → IsMounted ts r r'
unfolding add_mcp_tools
add_mcp_tools-IsMounted ts r r' h =
    let (seen, mounted, same) = and_then-done (mount_all r.tools ts []) _ h in
    let b = mount_all-IsBatch r.tools ts [] seen tt tt mounted in
    subst (IsMounted ts r) (done-injective same) (record {
      apps = refl;
      widgets = refl;
      jobs = refl;
      mountable = b.mountable;
      distinct = update-IsDict r.tools seen;
      lookups = λ j. ground (arith, lookup-update j r.tools seen b.distinct, b.lookups j);
    })

-- Mounting is refused exactly where a tool of the batch is not an MCP tool, carries a label, has a
-- name that the pattern does not allow or has the name of a registered native tool; a name that
-- another MCP tool has is no reason.
pub add_mcp_tools-is_refused :
    (ts : List Tool) (r : Registry)
    → is_refused (add_mcp_tools ts r)
      ≡ any (λ t. is_malformed t || is_native_name r.tools t.name) ts
unfolding add_mcp_tools
add_mcp_tools-is_refused ts r =
    and_then-is_refused (mount_all r.tools ts []) _ false (λ seen e. refl)
    ∙ or_false _
    ∙ mount_all-is_refused r.tools ts [] tt tt
