-- ===== src/Router/Offered.antt =====
-- `select_tool_subset` of src/dudamel/router.py: how many tools it offers, and which it never drops.
use dudamel.Prelude.{
  ℕ, All, ◌+◌, ◌-◌, ◌≡◌, refl, max, min, Bool, true, not, ◌||◌, String, ◌==◌, eq_refl, List, [],
  ◌∷◌, ◌++◌, Text, sorted, insert_name, map, keep, take, length, length-append, length-take,
  length-map, arith,
}
use dudamel.Dict.{Dict}
use dudamel.Contract.{Tool, is_mcp}
use dudamel.Window.{contains}
use dudamel.Window.Pairs.{contains-append}
use dudamel.Router.Subset.{
  is_retained, names, insert_candidate, rank, tokenize, score, select_tool_subset,
}

length-insert_name : (a : String) (xs : List String) → length (insert_name a xs) ≡ 1 + length xs
unfolding insert_name
length-insert_name a [] = refl
length-insert_name a (b ∷ bs) = ground (arith, length-insert_name a bs)

length-sorted : (xs : List String) → length (sorted xs) ≡ length xs
unfolding sorted
length-sorted [] = refl
length-sorted (a ∷ as_) = omega (arith, length-insert_name a (sorted as_), length-sorted as_)

contains-insert_name :
    (x a : String) (xs : List String) → contains x (insert_name a xs) ≡ (a == x || contains x xs)
unfolding insert_name
contains-insert_name x a [] = refl
contains-insert_name x a (b ∷ bs) = ground (arith, contains-insert_name x a bs)

contains-sorted : (x : String) (xs : List String) → contains x (sorted xs) ≡ contains x xs
unfolding sorted
contains-sorted x [] = refl
contains-sorted x (a ∷ as_) =
    ground (arith, contains-insert_name x a (sorted as_), contains-sorted x as_)

contains-names :
    (ws : List String) (es : List (String × Tool))
    → ((x : String) → contains x (names es) ≡ true → contains x ws ≡ true)
    → All (λ e. contains e.0 ws ≡ true) es
contains-names ws [] h = tt
contains-names ws ((a, t) ∷ es) h =
    (h a (ground (arith, eq_refl a)), contains-names ws es (λ x held. h x (ground (arith, held))))

length-insert_candidate :
    (c : String × ℕ) (ds : List (String × ℕ)) → length (insert_candidate c ds) ≡ 1 + length ds
unfolding insert_candidate
length-insert_candidate c [] = refl
length-insert_candidate c (d ∷ ds) = ground (arith, length-insert_candidate c ds)

length-rank : (cs : List (String × ℕ)) → length (rank cs) ≡ length cs
unfolding rank
length-rank [] = refl
length-rank (c ∷ cs) = omega (arith, length-insert_candidate c (rank cs), length-rank cs)

length-keep-not :
    {A : Type 0} (p : A → Bool) (xs : List A)
    → length (keep p xs) + length (keep (λ x. not (p x)) xs) ≡ length xs
length-keep-not p [] = refl
length-keep-not p (x ∷ xs) = ground (arith, length-keep-not p xs)

-- A native tool, and a tool of these names.
abbrev pub is_native_or_named : List String → String × Tool → Bool
is_native_or_named must_keep e = not (is_mcp e.1.origin) || contains e.0 must_keep

-- Every native tool and every tool of `must_keep` is offered, and there are `max_tools` names, or as
-- many as there are tools where these are fewer, or as many as these tools where they alone are more.
pub select_tool_subset-retains :
    (casefold : Text → Text) (tools : Dict Tool) (max_tools : ℕ) (query : Text)
    (must_keep : List String)
    → let offered = select_tool_subset casefold tools max_tools query must_keep in
      let kept = keep (is_native_or_named must_keep) tools in
      All (λ e. contains e.0 offered ≡ true) kept
      × (length offered ≡ max (length kept) (min max_tools (length tools)))
unfolding select_tool_subset
select_tool_subset-retains casefold tools max_tools query must_keep =
    let query_tokens = tokenize (casefold query) in
    let retained = names (keep (is_retained must_keep) tools) in
    let others = keep (λ e. not (is_retained must_keep e)) tools in
    let scoring : String × Tool → String × ℕ = λ e. (e.0, score casefold query_tokens e.1) in
    let scored = map scoring others in
    let candidates = names (rank scored) in
    let chosen = take (max_tools - length retained) candidates in
    (
      contains-names (sorted (retained ++ chosen)) (keep (is_native_or_named must_keep) tools)
          (λ x held. ground (
            arith,
            contains-sorted x (retained ++ chosen),
            contains-append x retained chosen,
            held,
          )),
      omega (
        arith,
        length-sorted (retained ++ chosen),
        length-append retained chosen,
        length-take (max_tools - length retained) candidates,
        length-map (keep (is_retained must_keep) tools) (λ (e : String × Tool). e.0),
        length-map (rank scored) (λ (e : String × ℕ). e.0),
        length-rank scored,
        length-map others scoring,
        length-keep-not (is_retained must_keep) tools,
      ),
    )
