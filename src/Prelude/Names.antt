-- ===== src/Prelude/Names.antt =====
-- Sorting names as Python sorts `str`, and `", ".join`.
use Prim.Native.Nat.{Ordering}
use Prim.Native.String.{String, compare}
use mathlib.Core.Bool.{Bool, true, false}
use mathlib.Core.List.{List, [], ◌∷◌, ◌++◌}
use dudamel.Prelude.Tests.{if◌then◌else◌}
use dudamel.Prelude.Chars.{Text, codes}

abbrev pub before : String → String → Bool
before a b = elim (compare a b) [ Ordering.gt ↦ false | _ ↦ true ]

unfoldable pub insert_name : String → List String → List String
insert_name a [] = a ∷ []
insert_name a (b ∷ bs) = if before a b then a ∷ b ∷ bs else b ∷ insert_name a bs

-- `sorted(names)`
unfoldable pub sorted : List String → List String
unfolding insert_name
sorted [] = []
sorted (a ∷ as_) = insert_name a (sorted as_)

-- `", ".join(names)`
unfoldable pub join_names : List String → Text
join_names [] = []
join_names (a ∷ []) = codes a
join_names (a ∷ b ∷ bs) = codes a ++ (codes ", " ++ join_names (b ∷ bs))
