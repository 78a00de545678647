-- ===== src/Web.antt =====
-- src/dudamel/web/auth.py and the login of web/api.py: who may call the web API.
-- The store's clock is read in microseconds, the throttle's in nanoseconds; each operation is given
-- its readings in order. New ids and tokens are drawn by a parameter. A text stands for its UTF-8.
pub mod Authentic
pub mod Locked
pub mod Closed
use dudamel.Prelude.{
  ℕ, suc, ◌+◌, ◌*◌, ◌^◌, Bool, true, false, not, ◌&&◌, ◌||◌, String, ◌==◌, Option, none, some, List,
  [], ◌∷◌, Text, codes, is_empty, text_eq, ltb, is_some, after_prefix, if◌then◌else◌,
}
use dudamel.Dict.{Dict, lookup, insert, erase}
use dudamel.Throttle.{Failures, is_throttled, record_failure, clear, retry_after}

-- `SESSION_TTL`: a day.
abbrev pub session_ttl : ℕ
session_ttl = 86400 * 10 ^ 6

-- `_Session`
pub record Session : Type 0 where
  pub csrf_token : Text
  pub created_at : ℕ

abbrev pub Sessions : Type 0
Sessions = Dict Session

-- `SessionStore.create`, with the id and the token that are drawn.
unfoldable pub create : ℕ → String → Text → Sessions → Sessions
create now session_id csrf_token sessions =
    insert session_id (record { csrf_token = csrf_token; created_at = now }) sessions

abbrev pub is_expired : ℕ → Session → Bool
is_expired now session = ltb (session.created_at + session_ttl) now

abbrev pub csrf_of : ℕ → String → Option Session → Sessions → Option Text × Sessions
csrf_of now session_id none sessions = (none, sessions)
csrf_of now session_id (some session) sessions =
    if is_expired now session
    then (none, erase session_id sessions)
    else (some session.csrf_token, sessions)

-- `SessionStore.csrf_for`
unfoldable pub csrf_for : ℕ → String → Sessions → Option Text × Sessions
csrf_for now session_id sessions = csrf_of now session_id (lookup session_id sessions) sessions

-- `session_cookie_name`
abbrev pub session_cookie_name : Bool → String
session_cookie_name secure = if secure then "__Host-dudamel_session" else "dudamel_session"

-- `resolve_token`: the value of the variable, where it is set and not empty.
abbrev pub resolve_token : Option Text → Option Text
resolve_token none = none
resolve_token (some []) = none
resolve_token (some (c ∷ t)) = some (c ∷ t)

-- What the dependency reads of a request; `client` is what `_client_key` answers.
pub record Request : Type 0 where
  pub method : String
  pub authorization : Text
  pub csrf_header : Option Text
  pub cookies : Dict String
  pub client : String

pub data Via : Type 0 where
  bearer session : Via

-- How a request is let in, or the status of the refusal; a `429` carries `Retry-After`.
pub data Verdict : Type 0 where
  allowed : Via → Verdict
  unauthorized forbidden : Verdict
  too_many : ℕ → Verdict

-- The readings of the clocks that one request takes.
pub record Clocks : Type 0 where
  pub wall : ℕ
  pub first : ℕ
  pub second : ℕ
  pub third : ℕ

pub record Gate : Type 0 where
  pub sessions : Sessions
  pub failures : Failures
  pub drawn : ℕ

-- `_SAFE_METHODS`
abbrev pub is_safe_method : String → Bool
is_safe_method method = (method == "GET") || ((method == "HEAD") || (method == "OPTIONS"))

-- `token is not None and compare_digest(provided, token)`
abbrev pub is_token : Option Text → Text → Bool
is_token none provided = false
is_token (some token) provided = text_eq provided token

abbrev pub has_csrf : Option Text → Text → Bool
has_csrf none csrf_token = false
has_csrf (some provided) csrf_token = text_eq provided csrf_token

unfoldable pub check_bearer : Option Text → Clocks → Request → Text → Gate → Verdict × Gate
unfolding text_eq
check_bearer token clocks request provided gate =
    if is_token token provided
    then (Verdict.allowed Via.bearer, record gate { failures = clear request.client gate.failures })
    else (
      Verdict.unauthorized,
      record gate {
        failures = record_failure clocks.first clocks.second request.client gate.failures;
      },
    )

-- The CSRF token that the session has, if it lives.
unfoldable pub check_csrf : Request → Option Text → Verdict
unfolding text_eq
check_csrf request none = Verdict.unauthorized
check_csrf request (some csrf_token) =
    if is_safe_method request.method || has_csrf request.csrf_header csrf_token
    then Verdict.allowed Via.session
    else Verdict.forbidden

unfoldable pub check_session : Clocks → Request → Option String → Gate → Verdict × Gate
unfolding check_csrf csrf_for
check_session clocks request none gate = (Verdict.unauthorized, gate)
check_session clocks request (some session_id) gate =
    let (csrf, sessions) = csrf_for clocks.wall session_id gate.sessions in
    (check_csrf request csrf, record gate { sessions = sessions })

abbrev pub bearer_token : Request → Option Text
bearer_token request = after_prefix (codes "Bearer ") request.authorization

module _ (token : Option Text) (cookie_secure : Bool) where
  unfoldable pub check : Option Text → Clocks → Request → Gate → Verdict × Gate
  unfolding check_bearer check_session
  check (some provided) clocks request gate = check_bearer token clocks request provided gate
  check none clocks request gate =
      check_session clocks request (lookup (session_cookie_name cookie_secure) request.cookies) gate

  -- `Authenticator.__call__`
  unfoldable pub authenticate : Clocks → Request → Gate → Verdict × Gate
  unfolding check after_prefix
  authenticate clocks request gate = check (bearer_token request) clocks request gate

  -- The drawn session ids and CSRF tokens, by the number of the draw.
  module _ (draw : ℕ → String × Text) where
    abbrev pub logged_in : Clocks → String → Gate → Gate
    logged_in clocks client gate =
        let (session_id, csrf_token) = draw gate.drawn in
        record {
          sessions = create clocks.wall session_id csrf_token gate.sessions;
          failures = clear client gate.failures;
          drawn = gate.drawn + 1;
        }

    -- The answer to a wrong token; `throttled` is what `is_throttled` answers.
    abbrev pub rejected : Clocks → String → Bool × Failures → Gate → Verdict × Gate
    rejected clocks client (true, failures) gate =
        let (wait, failures') = retry_after clocks.second clocks.third client failures in
        (Verdict.too_many wait, record gate { failures = failures' })
    rejected clocks client (false, failures) gate = (
      Verdict.unauthorized,
      record gate { failures = record_failure clocks.second clocks.third client failures },
    )

    -- `login`; a success is the session that is issued.
    unfoldable pub login : Clocks → String → Text → Gate → Verdict × Gate
    unfolding create text_eq
    login clocks client provided gate =
        if is_token token provided
        then (Verdict.allowed Via.session, logged_in clocks client gate)
        else rejected clocks client (is_throttled clocks.first client gate.failures) gate
