-- ===== src/Csrf.antt =====
-- app/mojodns/csrf.py, the middleware in front of the application. The application is a parameter, an
-- action on the state `A`; a request is what the middleware reads of it.
pub mod Guard
use mojodns.Prelude.{
  Bool, true, false, not, ◌&&◌, ◌||◌, List, [], ◌∷◌, ◌++◌, Option, none, some, any, elem, ◌≟◌,
  if◌then◌else◌, Result, ok, ℕ, all, ltb,
}
use mojodns.Text.{Text, codes, starts_with, is_empty, is_infix}

-- `chunks` are the bodies of the messages up to the last one.
pub record HttpRequest : Type 0 where
  pub is_http : Bool
  pub method : Text
  pub path : Text
  pub headers : List (Text × Text)
  pub chunks : List Text

abbrev pub safe_methods : List Text
safe_methods = codes "GET" ∷ codes "HEAD" ∷ codes "OPTIONS" ∷ codes "TRACE" ∷ []

abbrev pub exempt_paths : List Text
exempt_paths = codes "/login" ∷ []

abbrev pub exempt_prefixes : List Text
exempt_prefixes = codes "/api/v1" ∷ []

unfoldable pub is_exempt : HttpRequest → Bool
is_exempt r =
    elem r.method safe_methods
    || elem r.path exempt_paths
    || any (λ p. starts_with p r.path) exempt_prefixes

abbrev pub is_ascii : ℕ → Bool
is_ascii c = ltb c 128

-- The first header of that name.
unfoldable pub header_token : List (Text × Text) → Text
header_token [] = []
header_token (h ∷ hs) = if h.0 ≟ codes "x-csrf-token" then h.1 else header_token hs

unfoldable pub body_of : List Text → Text
body_of [] = []
body_of (c ∷ cs) = c ++ body_of cs

-- `hmac.compare_digest` of two texts; none is the TypeError that it raises for one that is not ASCII.
unfoldable pub compare_digest : Text → Text → Option Bool
compare_digest a b = if all is_ascii a && all is_ascii b then some (a ≟ b) else none

-- `expected and header_token and compare_digest(header_token, expected)`, or its TypeError
unfoldable pub header_matches : Option Text → Text → Option Bool
header_matches none token = some false
header_matches (some expected) token =
    if not (is_empty expected) && not (is_empty token)
    then compare_digest token expected
    else some false

-- `expected and expected.encode() in body`
unfoldable pub body_matches : Option Text → Text → Bool
body_matches none body = false
body_matches (some expected) body = not (is_empty expected) && is_infix expected body

-- What the middleware sends itself, an exception that leaves it, or what the application answers.
pub data Answer (B : Type 0) : Type 0 where
  rejected : Answer B
  raised : Answer B
  answered : B → Answer B

-- The request with its buffered body, as the application reads it.
abbrev pub replayed : HttpRequest → HttpRequest
replayed r = record r { chunks = body_of r.chunks ∷ [] }

module _ {A B : Type 0} (app : HttpRequest → A → B × A) where
  abbrev pub run : HttpRequest → A → Answer B × A
  run r a = let (b, a') = app r a in (Answer.answered b, a')

  -- What is left once the header was compared.
  unfoldable pub after_header : Option Text → HttpRequest → Option Bool → A → Answer B × A
  after_header expected r none a = (Answer.raised, a)
  after_header expected r (some true) a = run r a
  after_header expected r (some false) a =
      if body_matches expected (body_of r.chunks) then run (replayed r) a else (Answer.rejected, a)

  -- `CSRFMiddleware.__call__`, with the token of the session
  unfoldable pub csrf_middleware : Option Text → HttpRequest → A → Answer B × A
  csrf_middleware expected r a =
      if not r.is_http
      then run r a
      else if is_exempt r
      then run r a
      else after_header expected r (header_matches expected (header_token r.headers)) a
