-- ===== src/Tests/WindowTests.antt =====
-- src/dudamel/window.py on a conversation with a dangling call.
use mathlib.Core.List.{flatten}
use dudamel.Prelude.{
  ◌+◌, ◌≤◌, ◌≡◌, refl, none, some, List, [], ◌∷◌, map, All, codes, decimal, length, arith,
}
use dudamel.Llm.{Message, Role}
use dudamel.Window.{
  build_window, drop_dangling_tool_calls, truncate_tool_result, max_marker_chars, message_tokens,
}
use dudamel.Window.Marker.{has_marker, marker}
use dudamel.Window.Truncate.{truncate-truncate, length-truncate}
use dudamel.Window.Pairs.{CallsByAssistant, IsPaired, drop_dangling-IsPaired}
use dudamel.Window.Cut.{IsCut, build_window-IsCut}
use dudamel.Window.Sent.{build_window-IsPaired}
use dudamel.Tests.Samples.{call_of, message_of}

-- The first turn is complete; in the second the call `c2` has no result, and `c9` no call.
abbrev conversation : List Message
conversation =
    message_of Role.user (codes "what is new?") [] none
    ∷ message_of Role.assistant [] (call_of "c1" "fetch" ∷ []) none
    ∷ message_of Role.tool (codes "a long page of news") [] (some "c1")
    ∷ message_of Role.user (codes "note it") [] none
    ∷ message_of Role.assistant [] (call_of "c2" "add" ∷ []) none
    ∷ message_of Role.tool (codes "stray") [] (some "c9")
    ∷ []

conversation-CallsByAssistant : All CallsByAssistant conversation
conversation-CallsByAssistant = ground arith

-- Over a budget of ten tokens only the newest turn is sent, without its unpaired messages.
build_window_run :
    (build_window conversation 10 8).messages ≡ message_of Role.user (codes "note it") [] none ∷ []
unfolding build_window flatten message_tokens has_marker marker decimal
build_window_run = refl

build_window_dropped : (build_window conversation 10 8).dropped ≡ 3
unfolding build_window flatten message_tokens has_marker marker decimal
build_window_dropped = refl

build_window-IsCut_example :
    IsCut 10 (map (λ m. truncate_tool_result m 8) conversation) (build_window conversation 10 8)
build_window-IsCut_example = build_window-IsCut conversation 10 8

build_window-IsPaired_example : IsPaired (build_window conversation 50 8).messages
build_window-IsPaired_example =
    build_window-IsPaired conversation 50 8 conversation-CallsByAssistant

drop_dangling-IsPaired_example : IsPaired (drop_dangling_tool_calls conversation)
drop_dangling-IsPaired_example = drop_dangling-IsPaired conversation conversation-CallsByAssistant

abbrev page : Message
page = message_of Role.tool (codes "a long page of news") [] (some "c1")

truncate_run : (truncate_tool_result page 6).text ≡ codes "a long…[truncated 13 chars]"
unfolding truncate_tool_result has_marker marker decimal
truncate_run = refl

truncate-truncate_example :
    truncate_tool_result (truncate_tool_result page 6) 6 ≡ truncate_tool_result page 6
truncate-truncate_example = truncate-truncate page 6 (omega arith)

length-truncate_example : length (truncate_tool_result page 6).text ≤ 6 + max_marker_chars
length-truncate_example = length-truncate page 6 refl (omega arith)
