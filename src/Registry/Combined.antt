-- ===== src/Registry/Combined.antt =====
-- src/dudamel/registry.py: what a registry that was constructed holds.
use dudamel.Prelude.{
  ◌≡◌, ◌∙◌, refl, sym, ap, subst, true, false, String, Option, none, some, List, [], ◌∷◌, ◌++◌,
  append_assoc, append-nil, All, List-cases, map, is_some, inl, inr, Option-cases, arith,
}
use dudamel.Dict.{Dict, lookup, has_key, insert, IsDict, snoc-IsDict}
use dudamel.Contract.{Tool, Widget, Job}
use dudamel.Registry.Attempts.{and_then-done, done-injective, guard-done, unless-done}
use dudamel.Registry.{
  App, RegistryError, done, Registry, is_reserved, collides, add_tools, values, card_faults,
  widget_faults, register_app, register_all, registry_of, first_of, card_fault, extended,
}

module _ {ℓ} {V : Type ℓ} where
  has_key-lookup : (k : String) (d : Dict V) → has_key k d ≡ false → lookup k d ≡ none
  has_key-lookup k d h = elim (Option-cases (lookup k d)) [
    | inl e ↦ e
    | inr (v, e) ↦ absurd (ground arith)
  ]

  pub insert-fresh :
      (k : String) (v : V) (d : Dict V) → has_key k d ≡ false → insert k v d ≡ d ++ ((k, v) ∷ [])
  insert-fresh k v [] h = refl
  insert-fresh k v ((j, w) ∷ d) h = ground (arith, insert-fresh k v d)

  pub snoc_insert-IsDict :
      (k : String) (v : V) (d : Dict V) → IsDict d → has_key k d ≡ false → IsDict (insert k v d)
  snoc_insert-IsDict k v d h fresh =
      subst IsDict (sym (insert-fresh k v d fresh)) (snoc-IsDict k v d h (has_key-lookup k d fresh))

-- The apps of a registry, under their names.
abbrev pub by_name : List App → Dict App
by_name = map (λ app. (app.name, app))

-- The tools, widgets and jobs of several apps, in the order of the apps.
abbrev pub all_tools : List App → Dict Tool
all_tools [] = []
all_tools (app ∷ apps) = app.tools ++ all_tools apps

abbrev pub all_widgets : List App → List Widget
all_widgets [] = []
all_widgets (app ∷ apps) = values app.widgets ++ all_widgets apps

abbrev pub all_jobs : List App → List Job
all_jobs [] = []
all_jobs (app ∷ apps) = values app.jobs ++ all_jobs apps

-- The name is not the framework's, and no table of the framework begins with the app's prefix.
abbrev pub IsAllowed : App → Type 0
IsAllowed app = (is_reserved app.name ≡ false) × (collides app.name ≡ false)

module _ (required : Tool → List String) where
  -- A card's button calls a labelled tool of the same app that needs no input.
  abbrev pub IsButton : App → String → Type 0
  IsButton app action =
      (tool : Tool) × (lookup action app.tools ≡ some tool)
      × (is_some tool.action ≡ true)
      × (required tool ≡ [])

  abbrev pub HasButtons : App → Type 0
  HasButtons app = All (λ (w : Widget). All (IsButton app) w.actions) (values app.widgets)

add_tools-append :
    (tools known out : Dict Tool)
    → IsDict known
    → add_tools tools known ≡ done out
    → (out ≡ known ++ tools) × IsDict out
unfolding add_tools
add_tools-append [] known out h e =
    let same = done-injective e in (sym same ∙ sym (append-nil known), subst IsDict same h)
add_tools-append ((k, t) ∷ tools) known out h e =
    let (fresh, rest) = guard-done (has_key k known) _ (add_tools tools (insert k t known)) e in
    let (appended, distinct) =
      add_tools-append tools (insert k t known) out (snoc_insert-IsDict k t known h fresh) rest in
    (
      appended
          ∙ ap (λ (d : Dict Tool). d ++ tools) (insert-fresh k t known fresh)
          ∙ append_assoc known ((k, t) ∷ []) tools,
      distinct,
    )

-- What registering some apps adds to a registry.
record IsExtended (required : Tool → List String) (added : List App) (r r' : Registry)
    : Type 0 where
  apps : r'.apps ≡ r.apps ++ by_name added
  tools : r'.tools ≡ r.tools ++ all_tools added
  widgets : r'.widgets ≡ r.widgets ++ all_widgets added
  jobs : r'.jobs ≡ r.jobs ++ all_jobs added
  distinct_apps : IsDict r'.apps
  distinct_tools : IsDict r'.tools
  allowed : All IsAllowed added
  buttons : All (HasButtons required) added

first_of-none : (o f : Option RegistryError) → first_of o f ≡ none → (o ≡ none) × (f ≡ none)
first_of-none none f h = (refl, h)
first_of-none (some e) f h = absurd (ground arith)

module _ (required : Tool → List String) (app : App) where
  labelled-IsButton :
      (action : String) (tool : Tool)
      → lookup action app.tools ≡ some tool
      → card_fault required action (some tool) ≡ none
      → IsButton required app action
  labelled-IsButton action tool known h = elim (Option-cases tool.action) [
    | inl e ↦ absurd (ground arith)
    | inr (label, e) ↦ elim (List-cases (required tool)) [
      | inl e' ↦ (tool, known, ground arith, e')
      | inr (x, xs, e') ↦ absurd (ground arith)
    ]
  ]

  card_fault-IsButton :
      (action : String)
      → card_fault required action (lookup action app.tools) ≡ none
      → IsButton required app action
  card_fault-IsButton action h = elim (Option-cases (lookup action app.tools)) [
    | inl e ↦ absurd (ground arith)
    | inr (tool, e) ↦
        labelled-IsButton action tool e (subst (λ o. card_fault required action o ≡ none) e h)
  ]

  card_faults-IsButton :
      (actions : List String)
      → card_faults required app actions ≡ none
      → All (IsButton required app) actions
  unfolding card_faults
  card_faults-IsButton [] h = tt
  card_faults-IsButton (action ∷ actions) h =
      let (first, rest) = first_of-none _ _ h in
      (card_fault-IsButton action first, card_faults-IsButton actions rest)

  widget_faults-IsButton :
      (widgets : List Widget)
      → widget_faults required app widgets ≡ none
      → All (λ (w : Widget). All (IsButton required app) w.actions) widgets
  unfolding widget_faults
  widget_faults-IsButton [] h = tt
  widget_faults-IsButton (w ∷ widgets) h =
      let (first, rest) = first_of-none _ _ h in
      (card_faults-IsButton w.actions first, widget_faults-IsButton widgets rest)

  register_app-IsExtended :
      (r r' : Registry)
      → IsDict r.apps
      → IsDict r.tools
      → register_app required app r ≡ done r'
      → IsExtended required (app ∷ []) r r'
  unfolding register_app
  register_app-IsExtended r r' ha ht h =
      let (free, h1) = guard-done (is_reserved app.name) _ _ h in
      let (apart, h2) = guard-done (collides app.name) _ _ h1 in
      let (fresh, h3) = guard-done (has_key app.name r.apps) _ _ h2 in
      let (tools, added, h4) = and_then-done (add_tools app.tools r.tools) _ h3 in
      let (sound, same) = unless-done _ (extended app r tools) h4 in
      let (appended, distinct) = add_tools-append app.tools r.tools tools ht added in
      subst (IsExtended required (app ∷ []) r) same (record {
        apps = insert-fresh app.name app r.apps fresh;
        tools = appended ∙ ap (λ (d : Dict Tool). r.tools ++ d) (sym (append-nil app.tools));
        widgets = ap (λ (d : List Widget). r.widgets ++ d) (sym (append-nil (values app.widgets)));
        jobs = ap (λ (d : List Job). r.jobs ++ d) (sym (append-nil (values app.jobs)));
        distinct_apps = snoc_insert-IsDict app.name app r.apps ha fresh;
        distinct_tools = distinct;
        allowed = ((free, apart), tt);
        buttons = (widget_faults-IsButton (values app.widgets) sound, tt);
      })

module _ (required : Tool → List String) where
  IsExtended-trans :
      (app : App) (apps : List App) (r r' r'' : Registry)
      → IsExtended required (app ∷ []) r r'
      → IsExtended required apps r' r''
      → IsExtended required (app ∷ apps) r r''
  IsExtended-trans app apps r r' r'' h k = record {
    apps = k.apps ∙ rw (h.apps) (append_assoc r.apps ((app.name, app) ∷ []) (by_name apps));
    tools =
        k.tools
        ∙ rw (h.tools, append-nil app.tools) (append_assoc r.tools app.tools (all_tools apps));
    widgets =
        k.widgets
        ∙ rw (h.widgets, append-nil (values app.widgets))
            (append_assoc r.widgets (values app.widgets) (all_widgets apps));
    jobs =
        k.jobs
        ∙ rw (h.jobs, append-nil (values app.jobs))
            (append_assoc r.jobs (values app.jobs) (all_jobs apps));
    distinct_apps = k.distinct_apps;
    distinct_tools = k.distinct_tools;
    allowed = (h.allowed.0, k.allowed);
    buttons = (h.buttons.0, k.buttons);
  }

  register_all-IsExtended :
      (apps : List App) (r r' : Registry)
      → IsDict r.apps
      → IsDict r.tools
      → register_all required apps r ≡ done r'
      → IsExtended required apps r r'
  unfolding register_all
  register_all-IsExtended [] r r' ha ht h =
      subst (IsExtended required [] r) (done-injective h) (record {
        apps = sym (append-nil r.apps);
        tools = sym (append-nil r.tools);
        widgets = sym (append-nil r.widgets);
        jobs = sym (append-nil r.jobs);
        distinct_apps = ha;
        distinct_tools = ht;
        allowed = tt;
        buttons = tt;
      })
  register_all-IsExtended (app ∷ apps) r r' ha ht h =
      let (mid, first, rest) =
        and_then-done (register_app required app r) (register_all required apps) h in
      let one = register_app-IsExtended required app r mid ha ht first in
      IsExtended-trans app apps r mid r' one
        (register_all-IsExtended apps mid r' one.distinct_apps one.distinct_tools rest)

-- The registry of these apps: no name or tool name is used twice, and nothing is lost or added.
pub record IsCombined (required : Tool → List String) (added : List App) (r : Registry)
    : Type 0 where
  pub apps : r.apps ≡ by_name added
  pub tools : r.tools ≡ all_tools added
  pub widgets : r.widgets ≡ all_widgets added
  pub jobs : r.jobs ≡ all_jobs added
  pub distinct_apps : IsDict (by_name added)
  pub distinct_tools : IsDict (all_tools added)
  pub allowed : All IsAllowed added
  pub buttons : All (HasButtons required) added

-- A registry that is constructed holds exactly the apps that it is given, under their names, and
-- their tools, widgets and jobs in order; no app name and no tool name is there twice, no app name
-- is the framework's or shadows a table of the framework, and each button of a card calls a
-- labelled tool of the card's own app that needs no input.
pub registry_of-IsCombined :
    (required : Tool → List String) (apps : List App) (r : Registry)
    → registry_of required apps ≡ done r
    → IsCombined required apps r
unfolding registry_of
registry_of-IsCombined required apps r h =
    let e = register_all-IsExtended required apps _ r tt tt h in
    record {
      apps = e.apps;
      tools = e.tools;
      widgets = e.widgets;
      jobs = e.jobs;
      distinct_apps = subst IsDict e.apps e.distinct_apps;
      distinct_tools = subst IsDict e.tools e.distinct_tools;
      allowed = e.allowed;
      buttons = e.buttons;
    }
