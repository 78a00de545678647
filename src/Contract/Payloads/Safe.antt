-- ===== src/Contract/Payloads/Safe.antt =====
-- src/dudamel/contract/renderers.py: what a payload that is accepted may show.
use dudamel.Prelude.{
  ◌≡◌, refl, subst, inl, inr, true, false, String, ◌==◌, Option, none, some, List, [], ◌∷◌, Text,
  map, any, All, Bool-cases, is_empty,
}
use dudamel.Contract.Labels.{
  LabelFault, clean_action_label, clean_display_text, fault_of_label, is_unsafe_markdown,
}
use dudamel.Contract.Payloads.{
  Cell, text, other, ItemAction, ListItem, Fault, Checked, valid, invalid, next, map_some,
  clean_cell, labelled, check_label, check_item_action, nonempty_title, check_title, or_none,
  clean_subtitle, is_url_control, has_safe_prefix, check_url, check_item, check_items, Payload,
  stat, table, list, markdown, Shapes, shaped, validate_widget_payload,
}
use dudamel.Contract.Payloads.Cleaned.{
  IsClean, MaybeButton, IsShown, clean_action_label-IsClean, clean_display_text-IsShown,
  clean_markdown-All, fault_of_label-IsLabel,
}

abbrev pub MaybeShown : Option Text → Type 0
MaybeShown none = Unit
MaybeShown (some t) = IsShown t

abbrev pub CellShown : Cell → Type 0
CellShown (text t) = IsShown t
CellShown (other v) = Unit

abbrev pub ActionSafe : Option ItemAction → Type 0
ActionSafe none = Unit
ActionSafe (some a) = MaybeButton a.label

-- A link has no control character, and one of the allowed schemes.
abbrev pub UrlSafe : (Text → Text) → Option Text → Type 0
UrlSafe lower none = Unit
UrlSafe lower (some url) = (any is_url_control url ≡ false) × (has_safe_prefix (lower url) ≡ true)

pub record ItemSafe (lower : Text → Text) (item : ListItem) : Type 0 where
  pub title : IsShown item.title
  pub titled : is_empty item.title ≡ false
  pub subtitle : MaybeShown item.subtitle
  pub url : UrlSafe lower item.url
  pub action : ActionSafe item.action

-- What a surface may be given.
abbrev pub IsSafe : (Text → Text) → Payload → Type 0
IsSafe lower (stat p) = IsShown p.label × (CellShown p.value × MaybeShown p.unit)
IsSafe lower (table p) = All IsShown p.columns × All (All CellShown) p.rows
IsSafe lower (list items) = All (ItemSafe lower) items
IsSafe lower (markdown t) = All (λ c. is_unsafe_markdown c ≡ false) t

module _ {ℓ κ} {A : Type ℓ} {B : Type κ} where
  pub next-valid :
      (m : Checked A) (f : A → Checked B) {b : B}
      → next m f ≡ valid b
      → (a : A) × (m ≡ valid a) × (f a ≡ valid b)
  next-valid (valid a) f h = (a, refl, h)
  next-valid (invalid e) f h = absurd (cc)

  pub shaped-valid :
      (fault : Fault) (o : Option A) (f : A → Checked B) {b : B}
      → shaped fault o f ≡ valid b
      → (a : A) × (f a ≡ valid b)
  shaped-valid fault none f h = absurd (cc)
  shaped-valid fault (some a) f h = (a, h)

module _ {ℓ} {A : Type ℓ} where
  pub valid-injective : {a b : A} → valid a ≡ valid b → a ≡ b
  valid-injective h = cc

  pub invalid-valid : {e : Fault} {a : A} → ¬ (invalid e ≡ valid a)
  invalid-valid h = cc

maybe_shown : (o : Option Text) → MaybeShown (map_some clean_display_text o)
maybe_shown none = tt
maybe_shown (some t) = clean_display_text-IsShown t

cell_shown : (c : Cell) → CellShown (clean_cell c)
cell_shown (text t) = clean_display_text-IsShown t
cell_shown (other v) = tt

row_shown : (cells : List Cell) → All CellShown (map clean_cell cells)
row_shown [] = tt
row_shown (c ∷ cells) = (cell_shown c, row_shown cells)

rows_shown : (rows : List (List Cell)) → All (All CellShown) (map (map clean_cell) rows)
rows_shown [] = tt
rows_shown (r ∷ rows) = (row_shown r, rows_shown rows)

columns-IsShown : (columns : List Text) → All IsShown (map clean_display_text columns)
columns-IsShown [] = tt
columns-IsShown (c ∷ columns) = (clean_display_text-IsShown c, columns-IsShown columns)

labelled-MaybeButton :
    (t : Text) (o : Option LabelFault) (label : Option Text)
    → IsClean t
    → fault_of_label t ≡ o
    → labelled t o ≡ valid label
    → MaybeButton label
labelled-MaybeButton t none label clean e h =
    subst MaybeButton (valid-injective h) (clean, fault_of_label-IsLabel t e)
labelled-MaybeButton t (some fault) label clean e h = absurd (invalid-valid h)

check_label-MaybeButton : (o label : Option Text) → check_label o ≡ valid label → MaybeButton label
unfolding check_label
check_label-MaybeButton none label h = subst MaybeButton (valid-injective h) tt
check_label-MaybeButton (some value) label h =
    labelled-MaybeButton (clean_action_label value) _ label (clean_action_label-IsClean value) refl
      h

check_action-ActionSafe :
    (o action : Option ItemAction) → check_item_action o ≡ valid action → ActionSafe action
check_action-ActionSafe none action h = subst ActionSafe (valid-injective h) tt
check_action-ActionSafe (some a) action h =
    let (label, checked, same) = next-valid (check_label a.label) _ h in
    subst ActionSafe (valid-injective same) (check_label-MaybeButton a.label label checked)

titled :
    (t title : Text)
    → IsShown t
    → nonempty_title t ≡ valid title
    → IsShown title × (is_empty title ≡ false)
titled [] title shown h = absurd (invalid-valid h)
titled (c ∷ t) title shown h =
    subst (λ u. IsShown u × (is_empty u ≡ false)) (valid-injective h) (shown, refl)

subtitle_shown : (t : Text) → IsShown t → MaybeShown (or_none t)
subtitle_shown [] h = tt
subtitle_shown (c ∷ t) h = h

subtitled : (o : Option Text) → MaybeShown (clean_subtitle o)
unfolding clean_subtitle
subtitled none = tt
subtitled (some value) = subtitle_shown _ (clean_display_text-IsShown value)

module _ (lower : Text → Text) where
  check_url-UrlSafe : (o url : Option Text) → check_url lower o ≡ valid url → UrlSafe lower url
  unfolding check_url
  check_url-UrlSafe none url h = subst (UrlSafe lower) (valid-injective h) tt
  check_url-UrlSafe (some value) url h = elim (Bool-cases (any is_url_control value)) [
    | inl e ↦ absurd (invalid-valid (rw e at h))
    | inr e ↦ elim (Bool-cases (has_safe_prefix (lower value))) [
      | inl e' ↦ subst (UrlSafe lower) (valid-injective (rw (e, e') at h)) (e, e')
      | inr e' ↦ absurd (invalid-valid (rw (e, e') at h))
    ]
  ]

  check_item-ItemSafe :
      (item checked : ListItem) → check_item lower item ≡ valid checked → ItemSafe lower checked
  unfolding check_item check_title
  check_item-ItemSafe item checked h =
      let (title, t, h1) = next-valid (check_title item.title) _ h in
      let (url, u, h2) = next-valid (check_url lower item.url) _ h1 in
      let (action, a, h3) = next-valid (check_item_action item.action) _ h2 in
      let (shown, named) = titled _ title (clean_display_text-IsShown item.title) t in
      subst (ItemSafe lower) (valid-injective h3) (record {
        title = shown;
        titled = named;
        subtitle = subtitled item.subtitle;
        url = check_url-UrlSafe item.url url u;
        action = check_action-ActionSafe item.action action a;
      })

  check_items-ItemSafe :
      (items checked : List ListItem)
      → check_items lower items ≡ valid checked
      → All (ItemSafe lower) checked
  unfolding check_items
  check_items-ItemSafe [] checked h = subst (All (ItemSafe lower)) (valid-injective h) tt
  check_items-ItemSafe (item ∷ items) checked h =
      let (first, f, h1) = next-valid (check_item lower item) _ h in
      let (rest, r, h2) = next-valid (check_items lower items) _ h1 in
      subst (All (ItemSafe lower)) (valid-injective h2)
        (check_item-ItemSafe item first f, check_items-ItemSafe items rest r)

  module _ {D : Type 0} (shapes : Shapes D) where
    list-IsSafe :
        (o : Option (List ListItem)) (p : Payload)
        → shaped Fault.wrong_shape o
            (λ items. next (check_items lower items) (λ checked. valid (list checked)))
          ≡ valid p
        → IsSafe lower p
    list-IsSafe o p h =
        let (items, h1) = shaped-valid Fault.wrong_shape o _ h in
        let (checked, c, h2) = next-valid (check_items lower items) _ h1 in
        subst (IsSafe lower) (valid-injective h2) (check_items-ItemSafe items checked c)

    -- A payload that is accepted for a widget, for whichever renderer, is safe to show next to a
    -- button: its texts are at most 256 characters without control or direction characters, an item
    -- has a title, a label of 1 to 32 such characters and a link with an allowed scheme and no
    -- control character, and a markdown body has no such character but newlines and tabs.
    pub validate-IsSafe :
        (renderer : String) (data_ : D) (p : Payload)
        → validate_widget_payload lower shapes renderer data_ ≡ valid p
        → IsSafe lower p
    unfolding validate_widget_payload
    validate-IsSafe renderer data_ p h = elim (Bool-cases (renderer == "stat")) [
      | inl e ↦
          let (s, h1) = shaped-valid Fault.wrong_shape (shapes.as_stat data_) _ (rw e at h) in
          subst (IsSafe lower) (valid-injective h1)
            (clean_display_text-IsShown s.label, (cell_shown s.value, maybe_shown s.unit))
      | inr e ↦ elim (Bool-cases (renderer == "table")) [
        | inl e' ↦
            let (t, h1) =
              shaped-valid Fault.wrong_shape (shapes.as_table data_) _ (rw (e, e') at h) in
            subst (IsSafe lower) (valid-injective h1) (columns-IsShown t.columns, rows_shown t.rows)
        | inr e' ↦ elim (Bool-cases (renderer == "list")) [
          | inl e'' ↦ list-IsSafe (shapes.as_list data_) p (rw (e, e', e'') at h)
          | inr e'' ↦ elim (Bool-cases (renderer == "markdown")) [
            | inl m ↦
                let (t, h1) =
                  shaped-valid Fault.not_text (shapes.as_text data_) _ (rw (e, e', e'', m) at h) in
                subst (IsSafe lower) (valid-injective h1) (clean_markdown-All t)
            | inr m ↦ absurd (invalid-valid (rw (e, e', e'', m) at h))
          ]
        ]
      ]
    ]
