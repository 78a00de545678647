-- ===== src/Web/Authentic.antt =====
-- src/dudamel/web/auth.py: what a request that is let in has shown.
use dudamel.Prelude.{
  ℕ, ◌+◌, ◌≤◌, ◌≡◌, ◌⊎◌, inl, inr, ap, sym, subst, refl, Bool, true, false, ◌||◌, String, Option,
  none, some, [], ◌∷◌, ◌++◌, Text, codes, Bool-cases, text_eq, after_prefix, arith,
}
use dudamel.Dict.{lookup}
use dudamel.Web.{
  session_ttl, Session, Sessions, is_expired, csrf_of, csrf_for, session_cookie_name, Request, Via,
  Verdict, Clocks, Gate, is_safe_method, is_token, has_csrf, check_bearer, check_csrf,
  check_session, bearer_token, check, authenticate,
}

text_eq-same : (t u : Text) → text_eq t u ≡ true → t ≡ u
unfolding text_eq
text_eq-same [] [] h = refl
text_eq-same [] (d ∷ u) h = absurd (ground arith)
text_eq-same (c ∷ t) [] h = absurd (ground arith)
text_eq-same (c ∷ t) (d ∷ u) h = ground (arith, text_eq-same t u)

after_prefix-append : (p t rest : Text) → after_prefix p t ≡ some rest → t ≡ p ++ rest
unfolding after_prefix
after_prefix-append [] t rest h = cc
after_prefix-append (x ∷ p) [] rest h = absurd (ground arith)
after_prefix-append (x ∷ p) (c ∷ t) rest h = ground (arith, after_prefix-append p t rest)

-- The request carries the configured token.
abbrev pub ShowsToken : Option Text → Request → Type 0
ShowsToken token request =
    (secret : Text) × (token ≡ some secret) × (request.authorization ≡ codes "Bearer " ++ secret)

-- The request names a session that lives and, unless its method is safe, repeats its CSRF token.
pub record ShowsSession (cookie_secure : Bool) (now : ℕ) (request : Request) (sessions : Sessions)
    : Type 0 where
  pub id : String
  pub session : Session
  pub cookie : lookup (session_cookie_name cookie_secure) request.cookies ≡ some id
  pub known : lookup id sessions ≡ some session
  pub alive : now ≤ session.created_at + session_ttl
  pub csrf :
      (is_safe_method request.method ≡ true) ⊎ (request.csrf_header ≡ some session.csrf_token)

-- What each way of being let in has shown.
abbrev pub Shows : Option Text → Bool → ℕ → Request → Sessions → Via → Type 0
Shows token cookie_secure now request sessions Via.bearer = ShowsToken token request
Shows token cookie_secure now request sessions Via.session =
    ShowsSession cookie_secure now request sessions

is_token-same :
    (token : Option Text) (provided : Text) → is_token token provided ≡ true → token ≡ some provided
is_token-same none provided h = absurd (ground arith)
is_token-same (some t) provided h = ap some (sym (text_eq-same provided t h))

has_csrf-same : (o : Option Text) (csrf : Text) → has_csrf o csrf ≡ true → o ≡ some csrf
has_csrf-same none csrf h = absurd (ground arith)
has_csrf-same (some t) csrf h = ap some (text_eq-same t csrf h)

or-cases : (a b : Bool) → (a || b) ≡ true → (a ≡ true) ⊎ (b ≡ true)
or-cases true b h = inl refl
or-cases false b h = inr h

allowed-injective : {v w : Via} → Verdict.allowed v ≡ Verdict.allowed w → v ≡ w
allowed-injective h = cc

unauthorized-allowed : {v : Via} → ¬ (Verdict.unauthorized ≡ Verdict.allowed v)
unauthorized-allowed h = cc

forbidden-allowed : {v : Via} → ¬ (Verdict.forbidden ≡ Verdict.allowed v)
forbidden-allowed h = cc

module _ (token : Option Text) (cookie_secure : Bool) (clocks : Clocks) (request : Request) where
  check_bearer-ShowsToken :
      (provided : Text) (gate : Gate) (via : Via)
      → bearer_token request ≡ some provided
      → (check_bearer token clocks request provided gate).0 ≡ Verdict.allowed via
      → Shows token cookie_secure clocks.wall request gate.sessions via
  unfolding check_bearer
  check_bearer-ShowsToken provided gate via e h = elim (Bool-cases (is_token token provided)) [
    | inl same ↦
        subst (Shows token cookie_secure clocks.wall request gate.sessions)
          (allowed-injective (rw same at h))
          (
            provided,
            is_token-same token provided same,
            after_prefix-append (codes "Bearer ") request.authorization provided e,
          )
    | inr other ↦ absurd (unauthorized-allowed (rw other at h))
  ]

  shown_session :
      (id : String) (session : Session) (gate : Gate) (via : Via)
      → lookup (session_cookie_name cookie_secure) request.cookies ≡ some id
      → lookup id gate.sessions ≡ some session
      → is_expired clocks.wall session ≡ false
      → check_csrf request (some session.csrf_token) ≡ Verdict.allowed via
      → Shows token cookie_secure clocks.wall request gate.sessions via
  unfolding check_csrf
  shown_session id session gate via named known alive h =
      elim (Bool-cases
        (is_safe_method request.method || has_csrf request.csrf_header session.csrf_token)) [
          | inl fine ↦
              subst (Shows token cookie_secure clocks.wall request gate.sessions)
                (allowed-injective (rw fine at h))
                (record {
                  id = id;
                  session = session;
                  cookie = named;
                  known = known;
                  alive = ground arith;
                  csrf = elim (or-cases (is_safe_method request.method) _ fine) [
                    | inl safe ↦ inl safe
                    | inr same ↦ inr (has_csrf-same request.csrf_header session.csrf_token same)
                  ];
                })
          | inr wrong ↦ absurd (forbidden-allowed (rw wrong at h))
        ]

  csrf_of-shown :
      (id : String) (o : Option Session) (gate : Gate) (via : Via)
      → lookup (session_cookie_name cookie_secure) request.cookies ≡ some id
      → lookup id gate.sessions ≡ o
      → check_csrf request (csrf_of clocks.wall id o gate.sessions).0 ≡ Verdict.allowed via
      → Shows token cookie_secure clocks.wall request gate.sessions via
  csrf_of-shown id none gate via named known h =
      absurd (unauthorized-allowed {v = via} (unfold check_csrf in h))
  csrf_of-shown id (some session) gate via named known h =
      elim (Bool-cases (is_expired clocks.wall session)) [
        | inl old ↦ absurd (unauthorized-allowed {v = via} (unfold check_csrf in rw old at h))
        | inr alive ↦ shown_session id session gate via named known alive (rw alive at h)
      ]

  check_session-ShowsSession :
      (o : Option String) (gate : Gate) (via : Via)
      → lookup (session_cookie_name cookie_secure) request.cookies ≡ o
      → (check_session clocks request o gate).0 ≡ Verdict.allowed via
      → Shows token cookie_secure clocks.wall request gate.sessions via
  unfolding check_session csrf_for
  check_session-ShowsSession none gate via named h = absurd (unauthorized-allowed h)
  check_session-ShowsSession (some id) gate via named h =
      csrf_of-shown id (lookup id gate.sessions) gate via named refl h

  check-Shows :
      (o : Option Text) (gate : Gate) (via : Via)
      → bearer_token request ≡ o
      → (check token cookie_secure o clocks request gate).0 ≡ Verdict.allowed via
      → Shows token cookie_secure clocks.wall request gate.sessions via
  unfolding check
  check-Shows none gate via e h = check_session-ShowsSession _ gate via refl h
  check-Shows (some provided) gate via e h = check_bearer-ShowsToken provided gate via e h

-- A request is let in as a bearer only if it carries the configured token, and as a session only if
-- its cookie names a session that was made within the last day and, unless the method is GET, HEAD
-- or OPTIONS, its header repeats the session's CSRF token.
pub authenticate-Shows :
    (token : Option Text) (cookie_secure : Bool) (clocks : Clocks) (request : Request) (gate : Gate)
    (via : Via)
    → (authenticate token cookie_secure clocks request gate).0 ≡ Verdict.allowed via
    → Shows token cookie_secure clocks.wall request gate.sessions via
unfolding authenticate
authenticate-Shows token cookie_secure clocks request gate via h =
    check-Shows token cookie_secure clocks request (bearer_token request) gate via refl h
