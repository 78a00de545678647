-- ===== src/Window/Marker.antt =====
-- `_MARKER_RE` of window.py: the suffix that a truncation leaves, and the search for it.
use dudamel.Prelude.{
  ℕ, zero, suc, ◌+◌, ◌≤◌, ◌≡◌, refl, Bool, true, false, ◌&&◌, ◌||◌, Option, none, some, List, [],
  ◌∷◌, ◌++◌, Text, codes, decimal, decimal-All, decimal-nonempty, IsDigitCode, All, any, length,
  length-append, ltb, leb, nat_eq, arith, or_true_right, if◌then◌else◌,
}

-- The zeros of the decimal digits of Unicode 15, which `\d` matches; each is followed by its nine others.
decimal_zeros : List ℕ
decimal_zeros =
    48 ∷ 1632 ∷ 1776 ∷ 1984 ∷ 2406 ∷ 2534 ∷ 2662 ∷ 2790 ∷ 2918 ∷ 3046 ∷ 3174 ∷ 3302 ∷ 3430 ∷ 3558
    ∷ 3664 ∷ 3792 ∷ 3872 ∷ 4160 ∷ 4240 ∷ 6112 ∷ 6160 ∷ 6470 ∷ 6608 ∷ 6784 ∷ 6800 ∷ 6992 ∷ 7088
    ∷ 7232 ∷ 7248 ∷ 42528 ∷ 43216 ∷ 43264 ∷ 43472 ∷ 43504 ∷ 43600 ∷ 44016 ∷ 65296 ∷ 66720 ∷ 68912
    ∷ 69734 ∷ 69872 ∷ 69942 ∷ 70096 ∷ 70384 ∷ 70736 ∷ 70864 ∷ 71248 ∷ 71360 ∷ 71472 ∷ 71904 ∷ 72016
    ∷ 72784 ∷ 73040 ∷ 73120 ∷ 73552 ∷ 92768 ∷ 92864 ∷ 93008 ∷ 120782 ∷ 120792 ∷ 120802 ∷ 120812
    ∷ 120822 ∷ 123200 ∷ 123632 ∷ 124144 ∷ 125264 ∷ 130032 ∷ []

is_decimal : ℕ → Bool
unfolding decimal_zeros
is_decimal c = any (λ z. leb z c && ltb c (z + 10)) decimal_zeros

strip_prefix : Text → Text → Option Text
strip_prefix [] t = some t
strip_prefix (p ∷ ps) [] = none
strip_prefix (p ∷ ps) (c ∷ t) = if nat_eq p c then strip_prefix ps t else none

-- `$`: the end of the text, or a newline that ends it.
at_end : Text → Bool
at_end [] = true
at_end (c ∷ []) = nat_eq c 10
at_end (c ∷ d ∷ t) = false

abbrev marker_head : Text
marker_head = codes "…[truncated "

abbrev marker_foot : Text
marker_foot = codes " chars]"

foot_here : Text → Bool
unfolding strip_prefix at_end
foot_here t = elim (strip_prefix marker_foot t) [ none ↦ false | some rest ↦ at_end rest ]

-- Up to `k` more digits, then the foot.
digits_here : ℕ → Text → Bool
unfolding foot_here is_decimal
digits_here zero t = foot_here t
digits_here (suc k) [] = foot_here []
digits_here (suc k) (c ∷ t) = foot_here (c ∷ t) || (is_decimal c && digits_here k t)

one_digit : Text → Bool
unfolding digits_here is_decimal
one_digit [] = false
one_digit (c ∷ t) = is_decimal c && digits_here 19 t

marker_here : Text → Bool
unfolding one_digit strip_prefix
marker_here t = elim (strip_prefix marker_head t) [ none ↦ false | some rest ↦ one_digit rest ]

-- `_MARKER_RE.search(text)`
unfoldable pub has_marker : Text → Bool
unfolding marker_here
has_marker [] = marker_here []
has_marker (c ∷ t) = marker_here (c ∷ t) || has_marker t

-- The suffix that `truncate_tool_result` writes.
unfoldable pub marker : ℕ → Text
marker dropped = marker_head ++ (decimal dropped ++ marker_foot)

strip_prefix-append : (p t : Text) → strip_prefix p (p ++ t) ≡ some t
unfolding strip_prefix
strip_prefix-append [] t = refl
strip_prefix-append (c ∷ p) t = ground (arith, strip_prefix-append p t)

is_decimal-IsDigitCode : (c : ℕ) → IsDigitCode c → is_decimal c ≡ true
unfolding is_decimal
is_decimal-IsDigitCode c h = ground arith

foot_found : foot_here marker_foot ≡ true
unfolding foot_here
foot_found = refl

digits_here-append :
    (k : ℕ) (ds : Text)
    → All IsDigitCode ds
    → length ds ≤ k
    → digits_here k (ds ++ marker_foot) ≡ true
unfolding digits_here
digits_here-append zero [] h le = foot_found
digits_here-append (suc k) [] h le = ground (arith, foot_found)
digits_here-append zero (d ∷ ds) h le = absurd (omega arith)
digits_here-append (suc k) (d ∷ ds) h le =
    ground (arith, is_decimal-IsDigitCode d h.0, digits_here-append k ds h.1)

one_digit-append :
    (ds : Text)
    → All IsDigitCode ds
    → 1 ≤ length ds
    → length ds ≤ 20
    → one_digit (ds ++ marker_foot) ≡ true
unfolding one_digit
one_digit-append [] h some_digit le = absurd (omega arith)
one_digit-append (d ∷ ds) h some_digit le =
    ground (arith, is_decimal-IsDigitCode d h.0, digits_here-append 19 ds h.1)

marker_here-marker : (n : ℕ) → length (decimal n) ≤ 20 → marker_here (marker n) ≡ true
unfolding marker_here marker
marker_here-marker n le = ground (
  arith,
  strip_prefix-append marker_head (decimal n ++ marker_foot),
  one_digit-append (decimal n) (decimal-All n) (decimal-nonempty n) le,
)

has_marker-here : (t : Text) → marker_here t ≡ true → has_marker t ≡ true
unfolding has_marker
has_marker-here [] h = h
has_marker-here (c ∷ t) h = ground arith

has_marker-cons : (c : ℕ) (t : Text) → has_marker t ≡ true → has_marker (c ∷ t) ≡ true
unfolding has_marker
has_marker-cons c t h = or_true_right (marker_here (c ∷ t)) h

-- A text that ends in a marker of at most twenty digits is found, whatever stands before.
pub has_marker-marker :
    (t : Text) (n : ℕ) → length (decimal n) ≤ 20 → has_marker (t ++ marker n) ≡ true
has_marker-marker [] n le = has_marker-here (marker n) (marker_here-marker n le)
has_marker-marker (c ∷ t) n le = has_marker-cons c (t ++ marker n) (has_marker-marker t n le)

-- A marker of at most twenty digits has at most 39 characters.
pub length-marker : (n : ℕ) → length (decimal n) ≤ 20 → length (marker n) ≤ 39
unfolding marker
length-marker n le = omega (
  arith,
  length-append marker_head (decimal n ++ marker_foot),
  length-append (decimal n) marker_foot,
)
