-- ===== src/Web/Closed.antt =====
-- src/dudamel/web/auth.py and the login of web/api.py: visits without the token.
use dudamel.Prelude.{
  ℕ, ◌≡◌, refl, Bool, true, false, String, Option, none, some, List, [], ◌∷◌, Text, All,
}
use dudamel.Throttle.{is_throttled, Failures}
use dudamel.Web.{
  csrf_for, Request, Verdict, Clocks, Gate, bearer_token, is_token, check_bearer, check_csrf,
  check_session, check, authenticate, rejected, login,
}

-- What comes in: a call of a protected route, or a login with the token that it gives.
pub data Visit : Type 0 where
  calls : Clocks → Request → Visit
  logs_in : Clocks → String → Text → Visit

abbrev pub claims : Option Text → Option Text → Bool
claims token none = false
claims token (some provided) = is_token token provided

-- The visit carries the configured token.
abbrev pub knows_token : Option Text → Visit → Bool
knows_token token (calls clocks request) = claims token (bearer_token request)
knows_token token (logs_in clocks client provided) = is_token token provided

module _ (token : Option Text) (cookie_secure : Bool) (draw : ℕ → String × Text) where
  unfoldable pub serve_visit : Visit → Gate → Verdict × Gate
  unfolding authenticate login
  serve_visit (calls clocks request) gate = authenticate token cookie_secure clocks request gate
  serve_visit (logs_in clocks client provided) gate =
      login token cookie_secure draw clocks client provided gate

  -- The answers to some visits, in order, and what is left.
  unfoldable pub serve_visits : List Visit → Gate → List Verdict × Gate
  unfolding serve_visit
  serve_visits [] gate = ([], gate)
  serve_visits (v ∷ vs) gate =
      let (verdict, gate') = serve_visit v gate in
      let (verdicts, last) = serve_visits vs gate' in (verdict ∷ verdicts, last)

abbrev pub is_allowed : Verdict → Bool
is_allowed (Verdict.allowed via) = true
is_allowed Verdict.unauthorized = false
is_allowed Verdict.forbidden = false
is_allowed (Verdict.too_many wait) = false

-- A refusal that leaves no session.
abbrev IsClosed : Verdict × Gate → Type 0
IsClosed (verdict, gate) = (is_allowed verdict ≡ false) × (gate.sessions ≡ [])

module _ (token : Option Text) (cookie_secure : Bool) (draw : ℕ → String × Text) where
  check_bearer-IsClosed :
      (clocks : Clocks) (request : Request) (provided : Text) (gate : Gate)
      → is_token token provided ≡ false
      → gate.sessions ≡ []
      → IsClosed (check_bearer token clocks request provided gate)
  unfolding check_bearer
  check_bearer-IsClosed clocks request provided gate wrong h = rw wrong (refl, h)

  check_session-IsClosed :
      (clocks : Clocks) (request : Request) (o : Option String) (gate : Gate)
      → gate.sessions ≡ []
      → IsClosed (check_session clocks request o gate)
  unfolding check_session csrf_for check_csrf
  check_session-IsClosed clocks request none gate h = (refl, h)
  check_session-IsClosed clocks request (some id) gate h = rw h (refl, refl)

  check-IsClosed :
      (clocks : Clocks) (request : Request) (o : Option Text) (gate : Gate)
      → claims token o ≡ false
      → gate.sessions ≡ []
      → IsClosed (check token cookie_secure o clocks request gate)
  unfolding check
  check-IsClosed clocks request none gate wrong h = check_session-IsClosed clocks request _ gate h
  check-IsClosed clocks request (some provided) gate wrong h =
      check_bearer-IsClosed clocks request provided gate wrong h

  rejected-IsClosed :
      (clocks : Clocks) (client : String) (throttled : Bool × Failures) (gate : Gate)
      → gate.sessions ≡ []
      → IsClosed (rejected token cookie_secure draw clocks client throttled gate)
  rejected-IsClosed clocks client (true, failures) gate h = (refl, h)
  rejected-IsClosed clocks client (false, failures) gate h = (refl, h)

  serve_visit-IsClosed :
      (v : Visit) (gate : Gate)
      → knows_token token v ≡ false
      → gate.sessions ≡ []
      → IsClosed (serve_visit token cookie_secure draw v gate)
  unfolding serve_visit authenticate login
  serve_visit-IsClosed (calls clocks request) gate wrong h =
      check-IsClosed clocks request (bearer_token request) gate wrong h
  serve_visit-IsClosed (logs_in clocks client provided) gate wrong h =
      rw wrong
        (rejected-IsClosed clocks client (is_throttled clocks.first client gate.failures) gate h)

  -- Where no session is open and none of the visits carries the configured token, or none is
  -- configured, whatever else they send, in whatever order, none of them is let in.
  pub serve_visits-refused :
      (vs : List Visit) (gate : Gate)
      → All (λ v. knows_token token v ≡ false) vs
      → gate.sessions ≡ []
      → All
          (λ verdict. is_allowed verdict ≡ false)
          (serve_visits token cookie_secure draw vs gate).0
  unfolding serve_visits
  serve_visits-refused [] gate wrong h = tt
  serve_visits-refused (v ∷ vs) gate wrong h =
      let (refused, closed) = serve_visit-IsClosed v gate wrong.0 h in
      (refused, serve_visits-refused vs _ wrong.1 closed)
