-- ===== src/Contract/Names.antt =====
-- src/dudamel/contract/types.py and app.py: the names that tools and apps may have.
use dudamel.Prelude.{ℕ, Bool, true, false, ◌&&◌, ◌||◌, [], ◌∷◌, Text, all, length, leb, nat_eq}

abbrev is_lower : ℕ → Bool
is_lower c = leb 97 c && leb c 122

abbrev is_digit : ℕ → Bool
is_digit c = leb 48 c && leb c 57

-- `[a-zA-Z0-9_-]`
unfoldable pub is_name_char : ℕ → Bool
is_name_char c =
    is_lower c || ((leb 65 c && leb c 90) || (is_digit c || (nat_eq c 95 || nat_eq c 45)))

-- `$` also matches before a newline that ends the text.
unfoldable pub before_newline : Text → Text
before_newline [] = []
before_newline (c ∷ []) = elim (nat_eq c 10) [ true ↦ [] | false ↦ c ∷ [] ]
before_newline (c ∷ d ∷ t) = c ∷ before_newline (d ∷ t)

abbrev is_short_name : Text → Bool
is_short_name t = all is_name_char t && (leb 1 (length t) && leb (length t) 64)

-- `TOOL_NAME_RE.match(name)`
unfoldable pub is_tool_name : Text → Bool
unfolding is_name_char before_newline
is_tool_name name = is_short_name (before_newline name)

abbrev is_lower_start : Text → Bool
is_lower_start [] = false
is_lower_start (c ∷ t) = is_lower c && (all (λ d. is_lower d || is_digit d) t && leb (length t) 31)

-- `APP_NAME_RE.match(name)`
unfoldable pub is_app_name : Text → Bool
unfolding before_newline
is_app_name name = is_lower_start (before_newline name)
