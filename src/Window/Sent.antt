-- ===== src/Window/Sent.antt =====
-- What `build_window` of window.py hands to the model provider: calls and results are paired.
use dudamel.Prelude.{subst, sym, ℕ, List, [], ◌∷◌, map, All, All-append_split, arith}
use dudamel.Llm.{Message}
use dudamel.Window.{build_window, truncate_tool_result}
use dudamel.Window.Pairs.{CallsByAssistant, IsPaired, drop_dangling-IsPaired}
use dudamel.Window.Cut.{IsCut, build_window-IsCut}

truncate-CallsByAssistant :
    (cap : ℕ) (m : Message) → CallsByAssistant m → CallsByAssistant (truncate_tool_result m cap)
unfolding truncate_tool_result
truncate-CallsByAssistant cap m h = ground arith

map-CallsByAssistant :
    (cap : ℕ) (ms : List Message)
    → All CallsByAssistant ms
    → All CallsByAssistant (map (λ m. truncate_tool_result m cap) ms)
map-CallsByAssistant cap [] h = tt
map-CallsByAssistant cap (m ∷ ms) h =
    (truncate-CallsByAssistant cap m h.0, map-CallsByAssistant cap ms h.1)

-- Whatever the budget cuts off, the messages that are sent are paired: each call of an assistant
-- message is answered among them and each tool result answers a call among them, provided that
-- in the history only assistant messages carry calls.
pub build_window-IsPaired :
    (messages : List Message) (budget cap : ℕ)
    → All CallsByAssistant messages
    → IsPaired (build_window messages budget cap).messages
build_window-IsPaired messages budget cap by_assistant =
    let cut : IsCut budget _ (build_window messages budget cap) =
      build_window-IsCut messages budget cap in
    let given : All CallsByAssistant (map (λ m. truncate_tool_result m cap) messages) =
      map-CallsByAssistant cap messages by_assistant in
    let kept : All CallsByAssistant cut.kept =
      (All-append_split CallsByAssistant cut.skipped cut.kept
        (subst (λ ms. All CallsByAssistant ms) cut.parts given)).1 in
    subst IsPaired (sym cut.shown) (drop_dangling-IsPaired cut.kept kept)
