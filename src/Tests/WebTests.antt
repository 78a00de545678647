-- ===== src/Tests/WebTests.antt =====
-- src/dudamel/web/auth.py and the login of web/api.py, with one operator.
use dudamel.Prelude.{
  ℕ, ◌+◌, ◌≡◌, refl, false, String, none, some, List, [], ◌∷◌, Text, codes, All, leb, text_eq,
  after_prefix, arith, Option,
}
use dudamel.Throttle.{max_failures, stamps_of}
use dudamel.Throttle.Lockout.{recent, Ascending}
use dudamel.Throttle.Bounds.{IsBounded}
use dudamel.Web.{
  Request, Via, Verdict, Clocks, Gate, authenticate, check, check_session, check_csrf, csrf_for,
  login,
}
use dudamel.Web.Authentic.{Shows, authenticate-Shows}
use dudamel.Web.Closed.{
  calls, logs_in, Visit, knows_token, is_allowed, serve_visits, serve_visits-refused,
}
use dudamel.Web.Locked.{is_locked, login-authenticate}

abbrev token : Option Text
token = some (codes "secret")

abbrev draw : ℕ → String × Text
draw n = ("s1", codes "csrf")

abbrev clocks_at : ℕ → Clocks
clocks_at t = record { wall = t; first = t; second = t; third = t }

abbrev request : String → Text → Option Text → Request
request method authorization csrf = record {
  method = method;
  authorization = authorization;
  csrf_header = csrf;
  cookies = ("dudamel_session", "s1") ∷ [];
  client = "ann";
}

-- Four failures, and one open session.
abbrev gate : Gate
gate = record {
  sessions = ("s1", record { csrf_token = codes "csrf"; created_at = 5 }) ∷ [];
  failures = ("ann", 1 ∷ 2 ∷ 3 ∷ 4 ∷ []) ∷ [];
  drawn = 1;
}

posted :
    (authenticate token false (clocks_at 9) (request "POST" [] (some (codes "csrf"))) gate).0
    ≡ Verdict.allowed Via.session
unfolding authenticate check check_session check_csrf csrf_for after_prefix text_eq
posted = refl

without_csrf :
    (authenticate token false (clocks_at 9) (request "POST" [] none) gate).0 ≡ Verdict.forbidden
unfolding authenticate check check_session check_csrf csrf_for after_prefix text_eq
without_csrf = refl

authenticate-Shows_example :
    Shows token false 9 (request "POST" [] (some (codes "csrf"))) gate.sessions Via.session
authenticate-Shows_example =
    authenticate-Shows token false (clocks_at 9) (request "POST" [] (some (codes "csrf"))) gate
      Via.session posted

abbrev visits : List Visit
visits =
    calls (clocks_at 9) (request "GET" (codes "Bearer guess") none)
    ∷ logs_in (clocks_at 10) "ann" (codes "guess")
    ∷ calls (clocks_at 11) (request "GET" [] none)
    ∷ []

abbrev closed : Gate
closed = record gate { sessions = [] }

visits-knows_token : All (λ v. knows_token token v ≡ false) visits
unfolding after_prefix text_eq
visits-knows_token = (refl, (refl, (refl, tt)))

serve_visits-refused_example :
    All (λ verdict. is_allowed verdict ≡ false) (serve_visits token false draw visits closed).0
serve_visits-refused_example =
    serve_visits-refused token false draw visits closed visits-knows_token refl

gate-IsBounded : IsBounded gate.failures
gate-IsBounded = record { distinct = ground arith; clients = omega arith; stamps = ground arith }

gate-Ascending : Ascending (stamps_of "ann" gate.failures)
gate-Ascending = ground arith

login-authenticate_example :
    is_locked
      (login token false draw
        (clocks_at 12)
        "ann"
        (codes "again")
        (authenticate token false
          (clocks_at 10)
          (request "GET" (codes "Bearer guess") none)
          gate).1).0
    ≡ leb max_failures (recent 12 "ann" gate.failures + 1)
unfolding after_prefix text_eq
login-authenticate_example =
    login-authenticate token false draw (clocks_at 10) (clocks_at 12)
      (request "GET" (codes "Bearer guess") none) (codes "guess") (codes "again") gate refl refl
      refl gate-IsBounded gate-Ascending (omega arith) (omega arith)
