-- ===== src/Csrf/Guard.antt =====
-- What reaches the application.
use mojodns.Prelude.{
  Bool, true, false, not, ◌&&◌, Option, none, some, all, ≟_iff, ◌≟◌, ◌≡◌, refl, ◌⊎◌, inl, inr,
  Bool-cases, arith,
}
use mojodns.Text.{Text, is_empty, is_infix}
use mojodns.Csrf.{
  HttpRequest, Answer, rejected, raised, is_ascii, is_exempt, header_token, compare_digest,
  header_matches, body_of, body_matches, after_header, csrf_middleware,
}

-- The request carries the token of the session: in the header, or somewhere in its body.
abbrev pub Presents : Option Text → HttpRequest → Type 0
Presents none r = ⊥
Presents (some token) r =
    (is_empty token ≡ false)
    × ((header_token r.headers ≡ token) ⊎ (is_infix token (body_of r.chunks) ≡ true))

-- The header cannot be compared: it or the token is not ASCII.
abbrev pub Uncomparable : Option Text → HttpRequest → Type 0
Uncomparable none r = ⊥
Uncomparable (some token) r =
    (is_empty (header_token r.headers) ≡ false)
    × ((all is_ascii (header_token r.headers) ≡ false) ⊎ (all is_ascii token ≡ false))

-- What the comparison of the header says.
abbrev Compared : Option Text → HttpRequest → Option Bool → Type 0
Compared expected r none = Uncomparable expected r
Compared expected r (some true) = Presents expected r
Compared expected r (some false) = Unit

compare_digest-Compared :
    (token : Text) (r : HttpRequest)
    → (not (is_empty token) && not (is_empty (header_token r.headers))) ≡ true
    → Compared (some token) r (compare_digest (header_token r.headers) token)
unfolding compare_digest
compare_digest-Compared token r e =
    let header = header_token r.headers in
    elim (Bool-cases (all is_ascii header && all is_ascii token)) [
      | inl f ↦ rw f (elim (Bool-cases (header ≟ token)) [
        | inl g ↦ rw g (ground (arith, ≟_iff header token))
        | inr g ↦ rw g tt
      ])
      | inr f ↦ rw f (ground arith)
    ]

header_matches-Compared :
    (expected : Option Text) (r : HttpRequest)
    → Compared expected r (header_matches expected (header_token r.headers))
unfolding header_matches
header_matches-Compared none r = tt
header_matches-Compared (some token) r =
    elim (Bool-cases (not (is_empty token) && not (is_empty (header_token r.headers)))) [
      | inl e ↦ rw e (compare_digest-Compared token r e)
      | inr e ↦ rw e tt
    ]

body_matches-Presents :
    (expected : Option Text) (r : HttpRequest)
    → body_matches expected (body_of r.chunks) ≡ true
    → Presents expected r
unfolding body_matches
body_matches-Presents none r h = cc
body_matches-Presents (some token) r h = ground arith

module _ {A B : Type 0} (app : HttpRequest → A → B × A) where
  -- An answer without the application, or a request that presents the token.
  abbrev pub Guarded : Option Text → HttpRequest → A → Answer B × A → Type 0
  Guarded expected r a result =
      (result ≡ (rejected, a))
      ⊎ ((result ≡ (raised, a)) × Uncomparable expected r)
      ⊎ Presents expected r

  after_header-Guarded :
      (expected : Option Text) (r : HttpRequest) (a : A) (matches : Option Bool)
      → Compared expected r matches
      → Guarded expected r a (after_header app expected r matches a)
  unfolding after_header
  after_header-Guarded expected r a none h = inr (inl (refl, h))
  after_header-Guarded expected r a (some true) h = inr (inr h)
  after_header-Guarded expected r a (some false) h =
      elim (Bool-cases (body_matches expected (body_of r.chunks))) [
        | inl e ↦ inr (inr (body_matches-Presents expected r e))
        | inr e ↦ rw e (inl refl)
      ]

  -- An HTTP request that is not exempt is rejected, or ends in an exception since its header or the
  -- token of the session is not ASCII, and the application is not called, unless the request presents
  -- the token of the session, which is not empty, in its header or in its body.
  pub csrf_middleware_guarded :
      (expected : Option Text) (r : HttpRequest) (a : A)
      → r.is_http ≡ true
      → is_exempt r ≡ false
      → (csrf_middleware app expected r a ≡ (rejected, a))
        ⊎ ((csrf_middleware app expected r a ≡ (raised, a)) × Uncomparable expected r)
        ⊎ Presents expected r
  unfolding csrf_middleware
  csrf_middleware_guarded expected r a h k = ground (
    arith,
    after_header-Guarded expected r a (header_matches expected (header_token r.headers))
        (header_matches-Compared expected r),
  )
