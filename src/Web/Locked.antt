-- ===== src/Web/Locked.antt =====
-- src/dudamel/web/auth.py, the login of web/api.py and web/throttle.py together: failures on
-- protected routes, and the login.
use dudamel.Prelude.{
  ℕ, ◌+◌, ◌≤◌, ◌<◌, ◌≡◌, refl, ap, ◌∙◌, Bool, true, false, String, Option, some, Text, leb,
}
use dudamel.Throttle.{is_throttled, record_failure, Failures, max_failures, window, stamps_of}
use dudamel.Throttle.Bounds.{IsBounded}
use dudamel.Throttle.Lockout.{recent, Ascending, is_throttled-record_failure}
use dudamel.Web.{
  Request, Verdict, Clocks, Gate, bearer_token, is_token, check_bearer, check, authenticate,
  rejected, login,
}

abbrev pub is_locked : Verdict → Bool
is_locked (Verdict.too_many wait) = true
is_locked (Verdict.allowed via) = false
is_locked Verdict.unauthorized = false
is_locked Verdict.forbidden = false

module _ (token : Option Text) (cookie_secure : Bool) (draw : ℕ → String × Text) where
  is_locked-rejected :
      (clocks : Clocks) (client : String) (t : Bool × Failures) (gate : Gate)
      → is_locked (rejected token cookie_secure draw clocks client t gate).0 ≡ t.0
  is_locked-rejected clocks client (true, failures) gate = refl
  is_locked-rejected clocks client (false, failures) gate = refl

  is_locked-login :
      (clocks : Clocks) (client : String) (provided : Text) (gate : Gate)
      → is_token token provided ≡ false
      → is_locked (login token cookie_secure draw clocks client provided gate).0
        ≡ (is_throttled clocks.first client gate.failures).0
  unfolding login
  is_locked-login clocks client provided gate wrong =
      rw wrong
        (is_locked-rejected clocks client (is_throttled clocks.first client gate.failures) gate)

  failures-authenticate :
      (clocks : Clocks) (request : Request) (guess : Text) (gate : Gate)
      → bearer_token request ≡ some guess
      → is_token token guess ≡ false
      → (authenticate token cookie_secure clocks request gate).1.failures
        ≡ record_failure clocks.first clocks.second request.client gate.failures
  unfolding authenticate check check_bearer
  failures-authenticate clocks request guess gate given wrong = rw (given, wrong) refl

  -- A wrong bearer token on a protected route counts against the login: within five minutes of it,
  -- a login of the same client with a wrong token is answered 429 exactly where the failures that
  -- still counted and this one are five or more, for a table that the throttle can have built.
  pub login-authenticate :
      (before after : Clocks) (request : Request) (guess provided : Text) (gate : Gate)
      → bearer_token request ≡ some guess
      → is_token token guess ≡ false
      → is_token token provided ≡ false
      → IsBounded gate.failures
      → Ascending (stamps_of request.client gate.failures)
      → before.first ≤ after.first
      → after.first < before.second + window
      → is_locked
          (login token cookie_secure draw after request.client provided
            (authenticate token cookie_secure before request gate).1).0
        ≡ leb max_failures (recent after.first request.client gate.failures + 1)
  login-authenticate before after request guess provided gate given wrong wrong' bounded asc le lt =
      is_locked-login after request.client provided _ wrong'
      ∙ ap (λ f. (is_throttled after.first request.client f).0)
          (failures-authenticate before request guess gate given wrong)
      ∙ is_throttled-record_failure before.first before.second after.first request.client
          gate.failures bounded asc le lt
