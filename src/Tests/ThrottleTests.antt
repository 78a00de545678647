-- ===== src/Tests/ThrottleTests.antt =====
-- src/dudamel/web/throttle.py with one client that fails again and again.
use dudamel.Prelude.{◌+◌, ◌≤◌, ◌≡◌, refl, true, [], ◌∷◌, ltb, leb, arith}
use dudamel.Throttle.{Failures, is_throttled, record_failure, retry_after, max_failures}
use dudamel.Throttle.Bounds.{
  check, failure, success, ask_wait, serve_all, IsBounded, serve_all-IsBounded,
}
use dudamel.Throttle.Lockout.{recent, is_throttled-record_failure, retry_after-is_throttled}

-- Four failures, in nanoseconds.
abbrev four : Failures
four = ("ann", 1 ∷ 2 ∷ 3 ∷ 4 ∷ []) ∷ ("bob", 9 ∷ []) ∷ []

serve_all-IsBounded_example :
    IsBounded
      (serve_all (failure 1 1 "ann" ∷ check 2 "ann" ∷ success "ann" ∷ ask_wait 3 3 "bob" ∷ []) [])
serve_all-IsBounded_example =
    serve_all-IsBounded
      (failure 1 1 "ann" ∷ check 2 "ann" ∷ success "ann" ∷ ask_wait 3 3 "bob" ∷ [])

four-IsBounded : IsBounded four
four-IsBounded = record { distinct = ground arith; clients = omega arith; stamps = ground arith }

is_throttled-record_failure_example :
    (is_throttled 12 "ann" (record_failure 10 11 "ann" four)).0
    ≡ leb max_failures (recent 12 "ann" four + 1)
is_throttled-record_failure_example =
    is_throttled-record_failure 10 11 12 "ann" four four-IsBounded (ground arith) (omega arith)
      (omega arith)

-- The fifth failure locks out.
fifth_failure : leb max_failures (recent 12 "ann" four + 1) ≡ true
fifth_failure = refl

retry_after-is_throttled_example :
    (ltb 0 (retry_after 10 10 "ann" four).0 ≡ (is_throttled 10 "ann" four).0)
    × ((retry_after 10 10 "ann" four).0 ≤ 300)
retry_after-is_throttled_example = retry_after-is_throttled 10 10 "ann" four (ground arith)
