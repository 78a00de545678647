-- ===== src/Contract/Payloads/Cleaned.antt =====
-- src/dudamel/contract/renderers.py: what the cleaning functions leave of a text.
use mathlib.Core.List.{reverse_aux}
use dudamel.Prelude.{
  ℕ, zero, suc, ◌≤◌, ◌≡◌, refl, Bool, true, false, not, inl, inr, Option, none, some, [], ◌∷◌, Text,
  All, All-append, All-imp, keep-All, take, length, length-take, length-append, ltb, Bool-cases,
  strip, skip_spaces, is_space, arith,
}
use dudamel.Contract.Labels.{
  is_unsafe, is_unsafe_markdown, clean_action_label, clean_markdown, clean_display_text,
  display_text_max, fold_newlines, fault_of_label, action_label_max,
}

-- No character that a surface cannot show honestly.
abbrev pub IsClean : Text → Type 0
IsClean t = All (λ c. is_unsafe c ≡ false) t

abbrev pub IsShown : Text → Type 0
IsShown t = IsClean t × (length t ≤ display_text_max)

module _ (P : ℕ → Type 0) where
  reverse_aux-All : (t r : Text) → All P t → All P r → All P (reverse_aux t r)
  reverse_aux-All [] r h k = k
  reverse_aux-All (c ∷ t) r h k = reverse_aux-All t (c ∷ r) h.1 (h.0, k)

  skip_spaces-All : (t : Text) → All P t → All P (skip_spaces t)
  unfolding skip_spaces
  skip_spaces-All [] h = tt
  skip_spaces-All (c ∷ t) h = elim (Bool-cases (is_space c)) [
    | inl e ↦ rw e (skip_spaces-All t h.1)
    | inr e ↦ rw e h
  ]

  strip-All : (t : Text) → All P t → All P (strip t)
  unfolding strip
  strip-All t h =
      let front = skip_spaces-All t h in
      reverse_aux-All _ [] (skip_spaces-All _ (reverse_aux-All (skip_spaces t) [] front tt)) tt

  take-All : (n : ℕ) (t : Text) → All P t → All P (take n t)
  take-All zero t h = tt
  take-All (suc n) [] h = tt
  take-All (suc n) (c ∷ t) h = (h.0, take-All n t h.1)

not-true : (b : Bool) → not b ≡ true → b ≡ false
not-true b h = ground arith

pub clean_action_label-IsClean : (t : Text) → IsClean (clean_action_label t)
unfolding clean_action_label
clean_action_label-IsClean t =
    strip-All (λ c. is_unsafe c ≡ false) _
      (All-imp (λ c h. not-true (is_unsafe c) h) _ (keep-All (λ c. not (is_unsafe c)) t))

pub clean_display_text-IsShown : (t : Text) → IsShown (clean_display_text t)
unfolding clean_display_text
clean_display_text-IsShown t =
    let text = clean_action_label t in
    let clean = clean_action_label-IsClean t in
    elim (Bool-cases (ltb display_text_max (length text))) [
      | inl e ↦ rw e (
        All-append (λ c. is_unsafe c ≡ false) (take 255 text) (8230 ∷ [])
            (take-All (λ c. is_unsafe c ≡ false) 255 text clean) (ellipsis, tt),
        omega (arith, length-append (take 255 text) (8230 ∷ []), length-take 255 text),
      )
      | inr e ↦ rw e (clean, ground arith)
    ]
  where
    ellipsis : is_unsafe 8230 ≡ false
    ellipsis = unfold is_unsafe in refl

pub clean_markdown-All : (t : Text) → All (λ c. is_unsafe_markdown c ≡ false) (clean_markdown t)
unfolding clean_markdown
clean_markdown-All t =
    All-imp (λ c h. not-true (is_unsafe_markdown c) h) _
      (keep-All (λ c. not (is_unsafe_markdown c)) (fold_newlines t))

-- A label that a button can show: not empty and at most 32 characters.
abbrev pub IsLabel : Option Text → Type 0
IsLabel none = Unit
IsLabel (some label) = (1 ≤ length label) × (length label ≤ action_label_max)

pub fault_of_label-IsLabel : (t : Text) → fault_of_label t ≡ none → IsLabel (some t)
unfolding fault_of_label
fault_of_label-IsLabel [] h = absurd (ground arith)
fault_of_label-IsLabel (c ∷ t) h = (omega arith, ground arith)

-- A label, where there is one, is clean and fits a button.
abbrev pub MaybeButton : Option Text → Type 0
MaybeButton none = Unit
MaybeButton (some label) = IsClean label × IsLabel (some label)
