-- ===== src/Router/Subset.antt =====
-- `select_tool_subset` of src/dudamel/router.py: which tools are offered when there are too many.
use dudamel.Prelude.{
  ℕ, ◌-◌, Bool, not, ◌&&◌, ◌||◌, String, List, [], ◌∷◌, ◌++◌, Text, codes, before, sorted, map,
  keep, take, any, length, ltb, leb, nat_eq, text_eq, if◌then◌else◌,
}
use dudamel.Dict.{Dict}
use dudamel.Window.{contains}
use dudamel.Contract.{Tool, is_mcp}

-- `[a-z0-9]`
unfoldable pub is_word : ℕ → Bool
is_word c = (leb b'a' c && leb c b'z') || (leb b'0' c && leb c b'9')

unfoldable pub emit : Text → List Text
emit [] = []
emit (c ∷ word) = (c ∷ word) ∷ []

-- The words of a text, where `word` is the one that is being read.
unfoldable pub split_words : Text → Text → List Text
split_words word [] = emit word
split_words word (c ∷ t) =
    (if is_word c then [] else emit word)
    ++ split_words (if is_word c then word ++ (c ∷ []) else []) t

unfoldable pub distinct : List Text → List Text
distinct [] = []
distinct (w ∷ ws) = let rest = distinct ws in if any (text_eq w) rest then rest else w ∷ rest

-- `_tokenize`, over the text that `casefold` gives
unfoldable pub tokenize : Text → List Text
tokenize folded = distinct (split_words [] folded)

unfoldable pub overlap : List Text → List Text → ℕ
overlap query words = length (keep (λ t. any (text_eq t) words) query)

abbrev pub is_retained : List String → String × Tool → Bool
is_retained must_keep (name, tool) = not (is_mcp tool.origin) || contains name must_keep

unfoldable pub score : (Text → Text) → List Text → Tool → ℕ
score casefold query tool =
    overlap query (tokenize (casefold (codes tool.name ++ (codes " " ++ tool.description))))

-- The order of the candidates: a higher score first, then the name.
unfoldable pub precedes : String × ℕ → String × ℕ → Bool
precedes (a, m) (b, n) = ltb n m || (nat_eq m n && before a b)

unfoldable pub insert_candidate : String × ℕ → List (String × ℕ) → List (String × ℕ)
insert_candidate c [] = c ∷ []
insert_candidate c (d ∷ ds) = if precedes c d then c ∷ d ∷ ds else d ∷ insert_candidate c ds

unfoldable pub rank : List (String × ℕ) → List (String × ℕ)
rank [] = []
rank (c ∷ cs) = insert_candidate c (rank cs)

abbrev pub names : {V : Type 0} → List (String × V) → List String
names = map (λ e. e.0)

unfoldable pub select_tool_subset : (Text → Text) → Dict Tool → ℕ → Text → List String → List String
select_tool_subset casefold tools max_tools query must_keep =
    let query_tokens = tokenize (casefold query) in
    let retained = names (keep (is_retained must_keep) tools) in
    let candidates = rank (
      map (λ (e : String × Tool). (e.0, score casefold query_tokens e.1))
        (keep (λ e. not (is_retained must_keep e)) tools)) in
    sorted (retained ++ take (max_tools - length retained) (names candidates))
