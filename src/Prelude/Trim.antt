-- ===== src/Prelude/Trim.antt =====
-- Python's `str.strip`, and texts that begin or end in a given way.
use Prim.Native.Nat.{ℕ}
use mathlib.Core.Bool.{Bool, ◌&&◌, ◌||◌}
use mathlib.Core.Option.{Option, none, some}
use mathlib.Core.List.{[], ◌∷◌, reverse}
use dudamel.Prelude.Tests.{leb, nat_eq, if◌then◌else◌}
use dudamel.Prelude.Chars.{Text}

-- `c.isspace()`
unfoldable pub is_space : ℕ → Bool
is_space c =
    (leb 9 c && leb c 13)
    || ((leb 28 c && leb c 32)
        || (nat_eq c 133
            || (nat_eq c 160
                || (nat_eq c 5760
                    || ((leb 8192 c && leb c 8202)
                        || (nat_eq c 8232
                            || (nat_eq c 8233
                                || (nat_eq c 8239 || (nat_eq c 8287 || nat_eq c 12288)))))))))

unfoldable pub skip_spaces : Text → Text
unfolding is_space
skip_spaces [] = []
skip_spaces (c ∷ t) = let rest = skip_spaces t in if is_space c then rest else c ∷ t

-- `text.strip()`
unfoldable pub strip : Text → Text
unfolding skip_spaces
strip t = reverse (skip_spaces (reverse (skip_spaces t)))

-- What follows a prefix.
unfoldable pub after_prefix : Text → Text → Option Text
after_prefix [] t = some t
after_prefix (p ∷ ps) [] = none
after_prefix (p ∷ ps) (c ∷ t) = let rest = after_prefix ps t in if nat_eq p c then rest else none

abbrev pub reversed : Option Text → Option Text
reversed none = none
reversed (some t) = some (reverse t)

-- What stands before a suffix.
unfoldable pub before_suffix : Text → Text → Option Text
unfolding after_prefix
before_suffix suffix t = reversed (after_prefix (reverse suffix) (reverse t))
