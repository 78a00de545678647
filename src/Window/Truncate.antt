-- ===== src/Window/Truncate.antt =====
-- What `truncate_tool_result` of window.py promises about length and repetition.
use dudamel.Prelude.{
  ℕ, ◌+◌, ◌-◌, ◌^◌, ◌≤◌, ◌<◌, ◌≡◌, true, false, ◌++◌, take, length, decimal-length, length-append,
  length-take, arith,
}
use dudamel.Llm.{Message, is_tool}
use dudamel.Window.{truncate_tool_result, max_marker_chars}
use dudamel.Window.Marker.{marker, has_marker, has_marker-marker, length-marker}

module _ (m : Message) (cap : ℕ) where
  -- Only tool results are cut.
  pub truncate-other : is_tool m.role ≡ false → truncate_tool_result m cap ≡ m
  unfolding truncate_tool_result
  truncate-other h = ground arith

  -- The cut is a body of `cap` characters and a marker.
  length-cut :
      length m.text < 10 ^ 20
      → length (take cap m.text ++ marker (length m.text - cap)) ≤ cap + max_marker_chars
  length-cut small = omega (
    arith,
    length-append (take cap m.text) (marker (length m.text - cap)),
    length-take cap m.text,
    length-marker (length m.text - cap) (decimal-length 19 (length m.text - cap) (omega arith)),
  )

  cut-has_marker :
      length m.text < 10 ^ 20 → has_marker (take cap m.text ++ marker (length m.text - cap)) ≡ true
  cut-has_marker small =
      has_marker-marker (take cap m.text) (length m.text - cap)
        (decimal-length 19 (length m.text - cap) (omega arith))

  -- A tool result of fewer than 10^20 characters has at most `cap + 39` afterwards.
  pub length-truncate :
      is_tool m.role ≡ true
      → length m.text < 10 ^ 20
      → length (truncate_tool_result m cap).text ≤ cap + max_marker_chars
  unfolding truncate_tool_result
  length-truncate h small = ground (arith, length-cut small)

  -- Truncating twice is truncating once.
  pub truncate-truncate :
      length m.text < 10 ^ 20
      → truncate_tool_result (truncate_tool_result m cap) cap ≡ truncate_tool_result m cap
  unfolding truncate_tool_result
  truncate-truncate small = ground (arith, length-cut small, cut-has_marker small)

-- Truncation changes the text only.
pub truncate-keeps :
    (m : Message) (cap : ℕ)
    → let m' = truncate_tool_result m cap in
      (m'.role ≡ m.role) × (m'.tool_call_id ≡ m.tool_call_id) × (m'.is_error ≡ m.is_error)
unfolding truncate_tool_result
truncate-keeps m cap = ground arith
