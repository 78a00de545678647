-- ===== src/Widgets/Served.antt =====
-- src/dudamel/widgets.py: the buttons that a card has, and the data that it serves.
use dudamel.Prelude.{
  ◌≡◌, refl, sym, map, ◌∙◌, ap, subst, true, String, Option, none, some, List, [], ◌∷◌, Text, codes,
  All, is_some, arith,
}
use dudamel.Dict.{Dict, lookup, AllValues, lookup-AllValues}
use dudamel.Contract.{Tool}
use dudamel.Contract.Payloads.{ItemAction, ListItem, Payload, stat, table, list, markdown}
use dudamel.Contract.Payloads.Cleaned.{IsClean, IsLabel, MaybeButton}
use dudamel.Contract.Payloads.Safe.{ActionSafe, ItemSafe, IsSafe}
use dudamel.Contract.Payloads.Kinds.{kind_of}
use dudamel.Widgets.{
  ResolvedAction, ServedItem, CardData, Resolved, fine, broken, and_so, WidgetEnv, text_or,
  resolve_tool, resolve, resolve_maybe, serve_items, serve_data, card_action, resolve_all,
}
use dudamel.Widgets.Buttons.{
  IsActionTool, IsButtonOf, MaybeButtonOf, ServedSafe, DataSafe, shown_by,
}

module _ {ℓ κ} {A : Type ℓ} {B : Type κ} where
  pub and_so-fine :
      (m : Resolved A) (f : A → Resolved B) {b : B}
      → and_so m f ≡ fine b
      → (a : A) × (m ≡ fine a) × (f a ≡ fine b)
  and_so-fine (fine a) f h = (a, refl, h)
  and_so-fine (broken message) f h = absurd (cc)

module _ {ℓ} {A : Type ℓ} where
  pub fine-injective : {a b : A} → fine a ≡ fine b → a ≡ b
  fine-injective h = cc

  pub broken-fine : {message : Text} {a : A} → ¬ (broken message ≡ fine a)
  broken-fine h = cc

given-IsLabel :
    (o : Option Text) (t : Text)
    → MaybeButton o
    → IsClean t × IsLabel (some t)
    → IsClean (text_or o t) × IsLabel (some (text_or o t))
given-IsLabel none t h k = k
given-IsLabel (some []) t h k = k
given-IsLabel (some (c ∷ u)) t h k = h

tool-IsLabel :
    (o : Option Text) (t : Text)
    → MaybeButton o
    → is_some o ≡ true
    → IsClean (text_or o t) × IsLabel (some (text_or o t))
tool-IsLabel none t h k = absurd (ground arith)
tool-IsLabel (some []) t h k = absurd (omega (arith, h.1.0))
tool-IsLabel (some (c ∷ u)) t h k = h

module _ {D : Type 0} (env : WidgetEnv D) (app_actions : Dict Tool)
    (labelled : AllValues IsActionTool app_actions) (may_call : String → Tool → Type 0)
    (listed : (name : String) (tool : Tool)
      → lookup name app_actions ≡ some tool
      → may_call name tool) where
  resolve_tool-IsButtonOf :
      (spec : ItemAction) (o : Option Tool) (action : ResolvedAction)
      → MaybeButton spec.label
      → lookup spec.tool app_actions ≡ o
      → resolve_tool env app_actions spec o ≡ fine action
      → IsButtonOf may_call action
  resolve_tool-IsButtonOf spec none action own e h = absurd (broken-fine h)
  resolve_tool-IsButtonOf spec (some tool) action own e h =
      let (args, coerced, same) = and_so-fine (env.coerce tool spec.args) _ h in
      let known = lookup-AllValues IsActionTool spec.tool app_actions labelled e in
      let (clean, label) =
        given-IsLabel spec.label (text_or tool.action (codes spec.tool)) own
          (tool-IsLabel tool.action (codes spec.tool) known.0 known.1) in
      subst (IsButtonOf may_call) (fine-injective same) (record {
        tool = tool;
        known = listed spec.tool tool e;
        confirm = refl;
        clean = clean;
        label = label;
      })

  resolve-IsButtonOf :
      (spec : ItemAction) (action : ResolvedAction)
      → MaybeButton spec.label
      → resolve env app_actions spec ≡ fine action
      → IsButtonOf may_call action
  unfolding resolve
  resolve-IsButtonOf spec action own h =
      resolve_tool-IsButtonOf spec (lookup spec.tool app_actions) action own refl h

  maybe-MaybeButtonOf :
      (o : Option ItemAction) (action : Option ResolvedAction)
      → ActionSafe o
      → resolve_maybe env app_actions o ≡ fine action
      → MaybeButtonOf may_call action
  maybe-MaybeButtonOf none action own h = subst (MaybeButtonOf may_call) (fine-injective h) tt
  maybe-MaybeButtonOf (some spec) action own h =
      let (a, r, same) = and_so-fine (resolve env app_actions spec) _ h in
      subst (MaybeButtonOf may_call) (fine-injective same) (resolve-IsButtonOf spec a own r)

  serve_items-ServedSafe :
      (items : List ListItem) (out : List ServedItem)
      → All (ItemSafe env.lower) items
      → serve_items env app_actions items ≡ fine out
      → All (ServedSafe env.lower may_call) out
  unfolding serve_items
  serve_items-ServedSafe [] out h e =
      subst (All (ServedSafe env.lower may_call)) (fine-injective e) tt
  serve_items-ServedSafe (item ∷ items) out h e =
      let (action, a, e1) = and_so-fine (resolve_maybe env app_actions item.action) _ e in
      let (rest, r, e2) = and_so-fine (serve_items env app_actions items) _ e1 in
      let safe : ItemSafe env.lower item = h.0 in
      subst (All (ServedSafe env.lower may_call)) (fine-injective e2) (
        record {
          title = safe.title;
          subtitle = safe.subtitle;
          url = safe.url;
          action = maybe-MaybeButtonOf item.action action safe.action a;
        },
        serve_items-ServedSafe items rest h.1 r,
      )

  pub serve_data-DataSafe :
      (p : Payload) (data_ : CardData)
      → IsSafe env.lower p
      → serve_data env app_actions p ≡ fine data_
      → DataSafe env.lower may_call data_
  unfolding serve_data
  serve_data-DataSafe (stat p) data_ h e = subst (DataSafe env.lower may_call) (fine-injective e) h
  serve_data-DataSafe (table p) data_ h e = subst (DataSafe env.lower may_call) (fine-injective e) h
  serve_data-DataSafe (markdown t) data_ h e =
      subst (DataSafe env.lower may_call) (fine-injective e) h
  serve_data-DataSafe (list items) data_ h e =
      let (out, s, same) = and_so-fine (serve_items env app_actions items) _ e in
      subst (DataSafe env.lower may_call) (fine-injective same)
        (serve_items-ServedSafe items out h s)

  pub shown_by-serve_data :
      (p : Payload) (data_ : CardData)
      → serve_data env app_actions p ≡ fine data_
      → shown_by data_ ≡ kind_of p
  unfolding serve_data
  shown_by-serve_data (stat p) data_ e = ap shown_by (sym (fine-injective e))
  shown_by-serve_data (table p) data_ e = ap shown_by (sym (fine-injective e))
  shown_by-serve_data (markdown t) data_ e = ap shown_by (sym (fine-injective e))
  shown_by-serve_data (list items) data_ e =
      let (out, s, same) = and_so-fine (serve_items env app_actions items) _ e in
      ap shown_by (sym (fine-injective same))

  tool-resolve :
      (spec : ItemAction) (o : Option Tool) (action : ResolvedAction)
      → resolve_tool env app_actions spec o ≡ fine action
      → action.tool ≡ spec.tool
  tool-resolve spec none action h = absurd (broken-fine h)
  tool-resolve spec (some tool) action h =
      let (args, coerced, same) = and_so-fine (env.coerce tool spec.args) _ h in
      ap (λ (a : ResolvedAction). a.tool) (sym (fine-injective same))

  pub tools-resolve_all :
      (names : List String) (actions : List ResolvedAction)
      → resolve_all env app_actions names ≡ fine actions
      → map (λ (a : ResolvedAction). a.tool) actions ≡ names
  unfolding resolve_all resolve
  tools-resolve_all [] actions e = ap (map (λ a. a.tool)) (sym (fine-injective e))
  tools-resolve_all (name ∷ names) actions e =
      let (action, a, e1) =
        and_so-fine (resolve env app_actions (card_action env app_actions name)) _ e in
      let (rest, r, e2) = and_so-fine (resolve_all env app_actions names) _ e1 in
      ap (map (λ a. a.tool)) (sym (fine-injective e2))
      ∙ ap (λ n. n ∷ map (λ a. a.tool) rest)
          (tool-resolve (card_action env app_actions name) (lookup name app_actions) action a)
      ∙ ap (λ ns. name ∷ ns) (tools-resolve_all names rest r)

  pub resolve_all-IsButtonOf :
      (names : List String) (actions : List ResolvedAction)
      → resolve_all env app_actions names ≡ fine actions
      → All (IsButtonOf may_call) actions
  unfolding resolve_all
  resolve_all-IsButtonOf [] actions e = subst (All (IsButtonOf may_call)) (fine-injective e) tt
  resolve_all-IsButtonOf (name ∷ names) actions e =
      let (action, a, e1) =
        and_so-fine (resolve env app_actions (card_action env app_actions name)) _ e in
      let (rest, r, e2) = and_so-fine (resolve_all env app_actions names) _ e1 in
      subst (All (IsButtonOf may_call)) (fine-injective e2) (
        resolve-IsButtonOf (card_action env app_actions name) action tt a,
        resolve_all-IsButtonOf names rest r,
      )
