-- ===== src/Contract/Payloads/Kinds.antt =====
-- src/dudamel/contract/renderers.py: which payload a renderer accepts.
use dudamel.Prelude.{
  ◌≡◌, refl, sym, ap, ◌∙◌, inl, inr, true, String, ◌==◌, eq_iff, List, Option, Text, Bool-cases,
  arith,
}
use dudamel.Contract.Payloads.{
  ListItem, Fault, valid, next, check_items, Payload, stat, table, list, markdown, Shapes, shaped,
  validate_widget_payload,
}
use dudamel.Contract.Payloads.Safe.{next-valid, shaped-valid, valid-injective, invalid-valid}

-- The name of the renderer that a payload is for.
abbrev pub kind_of : Payload → String
kind_of (stat p) = "stat"
kind_of (table p) = "table"
kind_of (list items) = "list"
kind_of (markdown t) = "markdown"

kind_of-valid :
    (kind : String) (a b : Payload) → kind_of a ≡ kind → valid a ≡ valid b → kind_of b ≡ kind
kind_of-valid kind a b e h = ap kind_of (sym (valid-injective h)) ∙ e

module _ (lower : Text → Text) {D : Type 0} (shapes : Shapes D) where
  kind_of-list :
      (o : Option (List ListItem)) (p : Payload)
      → shaped Fault.wrong_shape o
          (λ items. next (check_items lower items) (λ checked. valid (list checked)))
        ≡ valid p
      → kind_of p ≡ "list"
  kind_of-list o p h =
      let (items, h1) = shaped-valid Fault.wrong_shape o _ h in
      let (checked, c, h2) = next-valid (check_items lower items) _ h1 in
      kind_of-valid "list" (list checked) p refl h2

  pub kind_of-validate :
      (renderer : String) (data_ : D) (p : Payload)
      → validate_widget_payload lower shapes renderer data_ ≡ valid p
      → kind_of p ≡ renderer
  unfolding validate_widget_payload
  kind_of-validate renderer data_ p h = elim (Bool-cases (renderer == "stat")) [
    | inl e ↦
        let (s, h1) = shaped-valid Fault.wrong_shape (shapes.as_stat data_) _ (rw e at h) in
        kind_of-valid renderer _ p (named "stat" e) h1
    | inr e ↦ elim (Bool-cases (renderer == "table")) [
      | inl e' ↦
          let (t, h1) =
            shaped-valid Fault.wrong_shape (shapes.as_table data_) _ (rw (e, e') at h) in
          kind_of-valid renderer _ p (named "table" e') h1
      | inr e' ↦ elim (Bool-cases (renderer == "list")) [
        | inl e'' ↦ kind_of-list (shapes.as_list data_) p (rw (e, e', e'') at h) ∙ named "list" e''
        | inr e'' ↦ elim (Bool-cases (renderer == "markdown")) [
          | inl m ↦
              let (t, h1) =
                shaped-valid Fault.not_text (shapes.as_text data_) _ (rw (e, e', e'', m) at h) in
              kind_of-valid renderer _ p (named "markdown" m) h1
          | inr m ↦ absurd (invalid-valid (rw (e, e', e'', m) at h))
        ]
      ]
    ]
  ]
    where
      named : (kind : String) → (renderer == kind) ≡ true → kind ≡ renderer
      named kind e = ground (arith, eq_iff renderer kind, e)
