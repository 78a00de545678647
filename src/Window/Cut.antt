-- ===== src/Window/Cut.antt =====
-- `build_window` of window.py: what is dropped is a prefix, and what is kept fits the budget.
use mathlib.Core.List.{flatten, reverse, reverse-cons, reverse-reverse}
use dudamel.Prelude.{
  ℕ, ◌+◌, ◌≤◌, ◌≡◌, refl, ap, ◌∙◌, ◌⊎◌, inl, inr, List, [], ◌∷◌, ◌++◌, map, Bool-cases, All,
  All-append, subst, length-map, ◌<◌, sym, append-nil, append_assoc, length, length-append, ltb,
  arith,
}
use dudamel.Llm.{Message}
use dudamel.Window.Turns.{
  users, IsTurn, StartsTurn, sum_tokens-append, users-append, flatten-append, flatten-StartsTurn,
  flatten-one, users-nil, IsTurn-users, split_turns_lem,
}
use dudamel.Window.{
  WindowBuild, build_window, assemble, grow, split_turns, sum_tokens, truncate_tool_result,
  drop_dangling_tool_calls,
}

-- What a window build does to the messages that it is given: it drops a prefix and keeps the rest,
-- which opens a turn, holds a user message if there is any, and fits the budget unless it is one
-- turn alone. Of the prefix, either no part is a turn, or its last turn would not have fitted.
pub record IsCut (budget : ℕ) (given : List Message) (b : WindowBuild) : Type 0 where
  pub skipped : List Message
  pub kept : List Message
  pub parts : given ≡ skipped ++ kept
  pub shown : b.messages ≡ drop_dangling_tool_calls kept
  pub counted : b.dropped ≡ length skipped
  pub opens : StartsTurn kept
  pub newest : users kept ≡ 0 → users given ≡ 0
  pub fits : (sum_tokens kept ≤ budget) ⊎ (users kept ≤ 1)
  pub fullest :
      (users skipped ≡ 0)
      ⊎ ((before : List Message) × (t : List Message) × (skipped ≡ before ++ t)
          × IsTurn t
          × (budget < sum_tokens t + sum_tokens kept))

-- The older turns as they stood, before the window.
abbrev standing : List (List Message) → List (List Message) → List Message
standing older window = flatten (reverse older ++ window)

standing-cons :
    (t : List Message) (older window : List (List Message))
    → standing (t ∷ older) window ≡ standing older (t ∷ window)
standing-cons t older window = ap flatten (
    ap (λ (ts : List (List Message)). ts ++ window) (reverse-cons t older)
    ∙ append_assoc (reverse older) (t ∷ []) window)

-- The window grows to the left: what it leaves out is a prefix, empty or closed by a turn that
-- would have been too much.
abbrev Outgrown : ℕ → List Message → List Message → Type 0
Outgrown budget skipped kept =
    (skipped ≡ [])
    ⊎ ((before : List Message) × (t : List Message) × (skipped ≡ before ++ t)
        × IsTurn t
        × (budget < sum_tokens t + sum_tokens kept))

grow-prefix :
    (budget : ℕ) (window : List (List Message)) (spent : ℕ) (older : List (List Message))
    → spent ≡ sum_tokens (flatten window)
    → All IsTurn older
    → (skipped : List Message) × (standing older window
        ≡ skipped ++ flatten (grow budget window spent older))
      × Outgrown budget skipped (flatten (grow budget window spent older))
unfolding grow flatten
grow-prefix budget window spent [] e turns = ([], refl, inl refl)
grow-prefix budget window spent (t ∷ older) e turns =
    elim (Bool-cases (ltb budget (spent + sum_tokens t))) [
      | inl over ↦ rw over (
        flatten (reverse older) ++ t,
        standing-cons t older window
            ∙ flatten-append (reverse older) (t ∷ window)
            ∙ sym (append_assoc (flatten (reverse older)) t (flatten window)),
        inr (flatten (reverse older), t, refl, turns.0, ground arith),
      )
      | inr fits ↦ rw fits (
          let (skipped, parts, why) =
            grow-prefix budget (t ∷ window) (spent + sum_tokens t) older
              (omega (arith, e, sum_tokens-append t (flatten window))) turns.1 in
          (skipped, standing-cons t older window ∙ parts, why))
    ]

module _ (budget : ℕ) where
  -- The window stays inside: it never loses a user message, and it holds turns only.
  grow-users :
      (window : List (List Message)) (spent : ℕ) (older : List (List Message))
      → users (flatten window) ≤ users (flatten (grow budget window spent older))
  unfolding grow flatten
  grow-users window spent [] = omega arith
  grow-users window spent (t ∷ older) =
      ground (
        arith,
        users-append t (flatten window),
        grow-users (t ∷ window) (spent + sum_tokens t) older,
      )

  grow-All :
      (window : List (List Message)) (spent : ℕ) (older : List (List Message))
      → All IsTurn window
      → All IsTurn older
      → All IsTurn (grow budget window spent older)
  unfolding grow
  grow-All window spent [] hw ho = hw
  grow-All window spent (t ∷ older) hw ho = elim (Bool-cases (ltb budget (spent + sum_tokens t))) [
    | inl over ↦ rw over hw
    | inr fits ↦ rw fits (grow-All (t ∷ window) (spent + sum_tokens t) older (ho.0, hw) ho.1)
  ]

  abbrev Fits : List Message → Type 0
  Fits kept = (sum_tokens kept ≤ budget) ⊎ (users kept ≤ 1)

  grow-Fits :
      (window : List (List Message)) (spent : ℕ) (older : List (List Message))
      → spent ≡ sum_tokens (flatten window)
      → Fits (flatten window)
      → Fits (flatten (grow budget window spent older))
  unfolding grow flatten
  grow-Fits window spent [] e fits = fits
  grow-Fits window spent (t ∷ older) e fits = ground (
    arith,
    sum_tokens-append t (flatten window),
    grow-Fits (t ∷ window) (spent + sum_tokens t) older,
  )

abbrev Fullest : ℕ → List Message → List Message → Type 0
Fullest budget skipped kept =
    (users skipped ≡ 0)
    ⊎ ((before : List Message) × (t : List Message) × (skipped ≡ before ++ t)
        × IsTurn t
        × (budget < sum_tokens t + sum_tokens kept))

-- The orphans stand before what the window left out.
add_orphans :
    (budget : ℕ) (orphans skipped kept : List Message)
    → users orphans ≡ 0
    → Outgrown budget skipped kept
    → Fullest budget (orphans ++ skipped) kept
add_orphans budget orphans skipped kept none_before (inl e) = inl (rw e (rw append-nil none_before))
add_orphans budget orphans skipped kept none_before (inr (before, t, e, turn, over)) =
    inr (orphans ++ before, t, rw (e, append_assoc), turn, over)

-- The turns as `assemble` takes them, newest first, with the orphans before them.
assemble-IsCut :
    (budget : ℕ) (given orphans : List Message) (newest_first : List (List Message))
    → users orphans ≡ 0
    → given ≡ orphans ++ flatten (reverse newest_first)
    → All IsTurn newest_first
    → IsCut budget given (assemble budget (length given) newest_first)
unfolding assemble
assemble-IsCut budget given orphans [] none_before parts turns =
    let no_user : users given ≡ 0 = rw parts (unfold flatten in rw append-nil none_before) in
    record {
      skipped = given;
      kept = [];
      parts = sym (append-nil given);
      shown = unfold drop_dangling_tool_calls in refl;
      counted = refl;
      opens = tt;
      newest = λ _. no_user;
      fits = inr (omega (arith, users-nil));
      fullest = inl no_user;
    }
assemble-IsCut budget given orphans (newest ∷ older) none_before parts turns =
    let kept : List Message = flatten (grow budget (newest ∷ []) (sum_tokens newest) older) in
    let spent : sum_tokens newest ≡ sum_tokens (flatten (newest ∷ [])) =
      ap sum_tokens (sym (flatten-one newest)) in
    let one : users (flatten (newest ∷ [])) ≡ 1 =
      ap users (flatten-one newest) ∙ IsTurn-users newest turns.0 in
    let (left_out, standing_parts, why) =
      grow-prefix budget (newest ∷ []) (sum_tokens newest) older spent turns.1 in
    let split : given ≡ (orphans ++ left_out) ++ kept =
      parts
      ∙ ap (λ (ts : List (List Message)). orphans ++ flatten ts) (reverse-cons newest older)
      ∙ ap (λ (r : List Message). orphans ++ r) standing_parts
      ∙ sym (append_assoc orphans left_out kept) in
    record {
      skipped = orphans ++ left_out;
      kept = kept;
      parts = split;
      shown = refl;
      counted = omega (
        arith,
        ap (λ (r : List Message). length r) split,
        length-append (orphans ++ left_out) kept,
      );
      opens =
          flatten-StartsTurn (grow budget (newest ∷ []) (sum_tokens newest) older)
            (grow-All budget (newest ∷ []) (sum_tokens newest) older (turns.0, tt) turns.1);
      newest = λ none_kept.
          absurd (omega (arith, one, grow-users budget (newest ∷ []) (sum_tokens newest) older));
      fits =
          grow-Fits budget (newest ∷ []) (sum_tokens newest) older spent (inr (omega (arith, one)));
      fullest = add_orphans budget orphans left_out kept none_before why;
    }

All-reverse : (ts : List (List Message)) → All IsTurn ts → All IsTurn (reverse ts)
All-reverse [] h = tt
All-reverse (t ∷ ts) h =
    rw (reverse-cons t ts) (All-append IsTurn (reverse ts) (t ∷ []) (All-reverse ts h.1) (h.0, tt))

-- The build cuts the history, whose tool results it has first truncated: it drops a prefix, of the
-- length that it reports, and shows the rest, sanitised. The rest opens with a user message or is
-- empty, holds a user message if the history has one, and fits the budget unless it is a single
-- turn. The dropped prefix holds no user message, or ends in a turn that would not have fitted.
pub build_window-IsCut :
    (messages : List Message) (budget cap : ℕ)
    → IsCut budget
        (map (λ m. truncate_tool_result m cap) messages)
        (build_window messages budget cap)
unfolding build_window
build_window-IsCut messages budget cap =
    let capped : List Message = map (λ m. truncate_tool_result m cap) messages in
    let (orphans, none_before, parts, turns) = split_turns_lem capped in
    subst (λ (n : ℕ). IsCut budget capped (assemble budget n (reverse (split_turns capped))))
      (length-map messages (λ m. truncate_tool_result m cap))
      (assemble-IsCut budget capped orphans (reverse (split_turns capped)) none_before
        (parts
          ∙ ap (λ (ts : List (List Message)). orphans ++ flatten ts)
              (sym (reverse-reverse (split_turns capped))))
        (All-reverse (split_turns capped) turns))
