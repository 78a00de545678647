-- ===== src/Contract/Labels.antt =====
-- src/dudamel/contract/renderers.py: the texts that an app shows on its cards.
use dudamel.Prelude.{
  ℕ, Bool, not, ◌&&◌, ◌||◌, [], ◌∷◌, ◌++◌, Option, none, some, Text, keep, take, length, leb, ltb,
  nat_eq, strip, ◌-◌, if◌then◌else◌,
}

-- `UNSAFE_DISPLAY_CHARS`
unfoldable pub is_unsafe : ℕ → Bool
is_unsafe c =
    leb c 31
    || ((leb 127 c && leb c 159)
        || (nat_eq c 8232
            || (nat_eq c 8233 || ((leb 8234 c && leb c 8238) || (leb 8294 c && leb c 8297)))))

abbrev pub action_label_max : ℕ
action_label_max = 32

abbrev pub display_text_max : ℕ
display_text_max = 256

-- `clean_action_label`
unfoldable pub clean_action_label : Text → Text
unfolding is_unsafe strip
clean_action_label value = strip (keep (λ c. not (is_unsafe c)) value)

-- `UNSAFE_MARKDOWN_CHARS`
unfoldable pub is_unsafe_markdown : ℕ → Bool
is_unsafe_markdown c =
    leb c 8
    || ((leb 11 c && leb c 31)
        || ((leb 127 c && leb c 159)
            || (nat_eq c 8232
                || (nat_eq c 8233 || ((leb 8234 c && leb c 8238) || (leb 8294 c && leb c 8297))))))

-- `value.replace("\r\n", "\n")`
unfoldable pub fold_newlines : Text → Text
fold_newlines [] = []
fold_newlines (c ∷ []) = c ∷ []
fold_newlines (c ∷ d ∷ t) =
    let rest = fold_newlines (d ∷ t) in if nat_eq c 13 && nat_eq d 10 then rest else c ∷ rest

-- `clean_markdown`
unfoldable pub clean_markdown : Text → Text
unfolding is_unsafe_markdown fold_newlines
clean_markdown value = keep (λ c. not (is_unsafe_markdown c)) (fold_newlines value)

-- `clean_display_text`
unfoldable pub clean_display_text : Text → Text
unfolding clean_action_label
clean_display_text value =
    let text = clean_action_label value in
    if ltb display_text_max (length text)
    then take (display_text_max - 1) text ++ (8230 ∷ [])
    else text

pub data LabelFault : Type 0 where
  empty_label too_long : LabelFault

-- A cleaned label, or what is wrong with it: `App._register_tool` and `ItemAction._check_label`.
unfoldable pub fault_of_label : Text → Option LabelFault
fault_of_label [] = some LabelFault.empty_label
fault_of_label (c ∷ t) =
    if ltb action_label_max (length (c ∷ t)) then some LabelFault.too_long else none
