-- ===== src/Prelude/Chars.antt =====
-- Text that the program walks: a list of code points, as Python's `str` is.
use Prim.Native.Nat.{ℕ, zero, suc, ◌+◌, ◌/◌, ◌%◌, ◌^◌, ◌≤◌, ◌<◌}
use Prim.Native.Char.{code}
use Prim.Native.String.{String}
use native.Mathlib.Nat.{pow-suc}
use mathlib.Core.Path.{◌≡◌, refl}
use mathlib.Core.List.{List, [], ◌∷◌}
use native.Mathlib.Omega.{arith}
use mathlib.Core.Bool.{Bool, true, false, ◌&&◌}
use dudamel.Prelude.Tests.{ltb, nat_eq, if◌then◌else◌}
use dudamel.Prelude.Lists.{length, All}

abbrev pub Text : Type 0
Text = List ℕ

abbrev pub codes : String → Text
codes String.[] = []
codes (String.◌∷◌ c s) = code c ∷ codes s

-- `s == t`
unfoldable pub text_eq : Text → Text → Bool
text_eq [] [] = true
text_eq (c ∷ s) (d ∷ t) = nat_eq c d && text_eq s t
text_eq _ _ = false

-- The decimal digits of `n` before `rest`, one digit for each unit of fuel at most.
unfoldable pub decimal_digits : ℕ → ℕ → Text → Text
decimal_digits zero n rest = rest
decimal_digits (suc fuel) n rest =
    let more = decimal_digits fuel (n / 10) ((48 + n % 10) ∷ rest) in
    if ltb n 10 then (48 + n) ∷ rest else more

-- `str(n)`: `n + 1` digits are always enough.
unfoldable pub decimal : ℕ → Text
unfolding decimal_digits
decimal n = decimal_digits (suc n) n []

abbrev pub IsDigitCode : ℕ → Type 0
IsDigitCode c = (48 ≤ c) × (c < 58)

decimal_digits-length :
    (k fuel n : ℕ) (rest : Text)
    → n < 10 ^ suc k
    → length (decimal_digits fuel n rest) ≤ suc k + length rest
unfolding decimal_digits
decimal_digits-length k zero n rest h = omega arith
decimal_digits-length zero (suc fuel) n rest h = ground (arith, pow-suc 10 0)
decimal_digits-length (suc k) (suc fuel) n rest h =
    ground (arith, pow-suc 10 (suc k), decimal_digits-length k fuel (n / 10) ((48 + n % 10) ∷ rest))

-- A number below ten to the `k` has at most `k` digits.
pub decimal-length : (k n : ℕ) → n < 10 ^ suc k → length (decimal n) ≤ suc k
unfolding decimal
decimal-length k n h = omega (arith, decimal_digits-length k (suc n) n [] h)

decimal_digits-All :
    (fuel n : ℕ) (rest : Text) → All IsDigitCode rest → All IsDigitCode (decimal_digits fuel n rest)
unfolding decimal_digits
decimal_digits-All zero n rest h = h
decimal_digits-All (suc fuel) n rest h =
    ground (arith, decimal_digits-All fuel (n / 10) ((48 + n % 10) ∷ rest))

-- `str(n)` holds digits only.
pub decimal-All : (n : ℕ) → All IsDigitCode (decimal n)
unfolding decimal
decimal-All n = decimal_digits-All (suc n) n [] tt

decimal_digits-nonempty :
    (fuel n : ℕ) (rest : Text) → 0 < length rest → 0 < length (decimal_digits fuel n rest)
unfolding decimal_digits
decimal_digits-nonempty zero n rest h = h
decimal_digits-nonempty (suc fuel) n rest h =
    ground (arith, decimal_digits-nonempty fuel (n / 10) ((48 + n % 10) ∷ rest))

pub decimal-nonempty : (n : ℕ) → 0 < length (decimal n)
unfolding decimal
decimal-nonempty n = ground (arith, decimal_digits-nonempty n (n / 10) ((48 + n % 10) ∷ []))

decimal_example : decimal 1024 ≡ codes "1024"
unfolding decimal
decimal_example = refl
