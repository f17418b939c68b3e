-- ===== src/Spf/Build.antt =====
-- Rendering a term and parsing it again.
use mojodns.Prelude.{
  Bool, true, false, [], ◌∷◌, ◌++◌, elem, All-append, ◌==◌, ◌≡◌, ◌⊎◌, inl, inr, refl, ◌∙◌,
  if◌then◌else◌, sym, append_assoc, ==_iff, Bool-cases, arith, append-nil,
}
use mathlib.Core.Bool.{false≢true}
use mojodns.Text.{Text, lower, is_empty, starts_with}
use mojodns.Text.Trim.{Lacks, starts, starts_with-starts}
use mojodns.Text.Pieces.{partition_found, partition_none}
use mojodns.Spf.{
  Term, IpAddress, mechanisms, modifiers, host_kinds, is_qualifier, validate, name_value, mechanism,
  qualified, parse_term, render_term,
}

-- What makes a text the name of a mechanism in a record: it is one of them, in lower case.
pub record IsMechanism (k : Text) : Type 0 where
  pub lower_id : lower k ≡ k
  pub known : elem k mechanisms ≡ true
  pub no_modifier : elem k modifiers ≡ false
  pub no_colon : Lacks (λ c. c == b':') k
  pub no_slash : Lacks (λ c. c == b'/') k
  pub no_equals : Lacks (λ c. c == b'=') k
  pub filled : is_empty k ≡ false
  pub unsigned : starts is_qualifier k ≡ false

-- One qualifier, or none.
abbrev pub IsQualifier : Text → Type 0
IsQualifier [] = Unit
IsQualifier (c ∷ []) = is_qualifier c ≡ true
IsQualifier (c ∷ d ∷ t) = ⊥

-- A value that can be told apart from what stands in front of it: it has no `=`, and behind the name of
-- a host mechanism a value that begins with a slash has no colon.
abbrev pub Separable : Text → Text → Type 0
Separable k value =
    Lacks (λ c. c == b'=') value
    × ((elem k host_kinds ≡ false)
        ⊎ (starts (λ c. c == b'/') value ≡ false)
        ⊎ Lacks (λ c. c == b':') value)

-- What stands behind the name.
abbrev tail_of : Bool → Text → Text
tail_of host [] = []
tail_of true (c ∷ v) = if c == b'/' then c ∷ v else b':' ∷ c ∷ v
tail_of false (c ∷ v) = b':' ∷ c ∷ v

render_term_tail :
    (t : Term)
    → elem t.kind modifiers ≡ false
    → render_term t ≡ t.qualifier ++ (t.kind ++ tail_of (elem t.kind host_kinds) t.value)
unfolding render_term
render_term_tail t h = rw h (
    split (elem t.kind host_kinds) t.value
    ∙ append_assoc t.qualifier t.kind (tail_of (elem t.kind host_kinds) t.value))
  where
    s : Text
    s = t.qualifier ++ t.kind

    split :
        (host : Bool) (value : Text)
        → (if is_empty value
            then s
            else if host
            then s ++ (if starts_with (b'/' ∷ []) value then value else b':' ∷ value)
            else s ++ b':' ∷ value)
          ≡ s ++ tail_of host value
    split host [] = sym (append-nil s)
    split true (c ∷ v) = rw (starts_with-starts b'/' (c ∷ v)) refl
    split false (c ∷ v) = refl

Lacks-tail_of :
    (host : Bool) (value : Text)
    → Lacks (λ c. c == b'=') value
    → Lacks (λ c. c == b'=') (tail_of host value)
Lacks-tail_of host [] h = tt
Lacks-tail_of false (c ∷ v) h = (refl, h)
Lacks-tail_of true (c ∷ v) h = elim (Bool-cases (c == b'/')) [
  | inl e ↦ rw e h
  | inr e ↦ rw e (refl, h)
]

name_value_colon :
    (k value : Text) → Lacks (λ c. c == b':') k → name_value (k ++ b':' ∷ value) ≡ (k, value)
unfolding name_value
name_value_colon k value h = rw (partition_found b':' k value h) refl

name_value_slash :
    (k value : Text)
    → IsMechanism k
    → elem k host_kinds ≡ true
    → Lacks (λ c. c == b':') value
    → name_value (k ++ b'/' ∷ value) ≡ (k, b'/' ∷ value)
unfolding name_value
name_value_slash k value m host h =
    rw
      (partition_none b':' (k ++ b'/' ∷ value) (All-append _ k (b'/' ∷ value) m.no_colon (refl, h)))
      (rw (partition_found b'/' k value m.no_slash) (rw m.lower_id (rw host refl)))

name_value_bare : (k : Text) → IsMechanism k → name_value k ≡ (k, [])
unfolding name_value
name_value_bare k m =
    rw (partition_none b':' k m.no_colon) (rw (partition_none b'/' k m.no_slash) refl)

name_value-tail_of :
    (k value : Text)
    → IsMechanism k
    → Separable k value
    → name_value (k ++ tail_of (elem k host_kinds) value) ≡ (k, value)
name_value-tail_of k [] m s = rw (append-nil k) (name_value_bare k m)
name_value-tail_of k (c ∷ v) m s = elim (Bool-cases (elem k host_kinds)) [
  | inr e ↦ rw e (name_value_colon k (c ∷ v) m.no_colon)
  | inl e ↦ rw e (host e (Bool-cases (c == b'/')) s.1)
]
  where
    host :
        elem k host_kinds ≡ true
        → ((c == b'/') ≡ true) ⊎ ((c == b'/') ≡ false)
        → (elem k host_kinds ≡ false)
          ⊎ (starts (λ c. c == b'/') (c ∷ v) ≡ false)
          ⊎ Lacks (λ c. c == b':') (c ∷ v)
        → name_value (k ++ (if c == b'/' then c ∷ v else b':' ∷ c ∷ v)) ≡ (k, c ∷ v)
    host e (inr f) s = rw f (name_value_colon k (c ∷ v) m.no_colon)
    host e (inl f) (inl g) = cc
    host e (inl f) (inr (inl g)) = cc
    host e (inl f) (inr (inr g)) =
        let slash : c ≡ b'/' = (==_iff c b'/').0 f in rw f (rw slash (name_value_slash k v m e g.1))

module _ (ip : IpAddress) where
  -- What a term is read as, up to the text it was read from.
  abbrev read_as : Text → Text → Text → Text → Term
  read_as q k value token = record {
    qualifier = q;
    kind = k;
    value = value;
    raw = token;
    error = validate ip k value;
  }

  mechanism_lem :
      (q k value body token : Text)
      → IsMechanism k
      → name_value body ≡ (k, value)
      → mechanism ip q body token ≡ read_as q k value token
  unfolding mechanism
  mechanism_lem q k value body token m e = rw e (rw m.lower_id (rw m.known refl))

  qualified_lem :
      (q k rest token : Text)
      → IsQualifier q
      → IsMechanism k
      → qualified ip (q ++ (k ++ rest)) token ≡ mechanism ip q (k ++ rest) token
  unfolding qualified
  qualified_lem [] [] rest token h m = absurd (false≢true (sym m.filled))
  qualified_lem [] (c ∷ cs) rest token h m = rw m.unsigned refl
  qualified_lem (c ∷ []) k rest token h m = rw h refl
  qualified_lem (c ∷ d ∷ t) k rest token h m = absurd h

  no_equals :
      (q k rest : Text)
      → IsQualifier q
      → IsMechanism k
      → Lacks (λ c. c == b'=') rest
      → Lacks (λ c. c == b'=') (q ++ (k ++ rest))
  no_equals [] k rest h m r = All-append _ k rest m.no_equals r
  no_equals (c ∷ []) k rest h m r = (ground arith, All-append _ k rest m.no_equals r)
  no_equals (c ∷ d ∷ t) k rest h m r = absurd h

  -- A mechanism that is rendered is read back as it was, with its qualifier, its name and its value,
  -- and with the message that its value gets; a value has no `=`, and behind `a`, `mx` or `ptr` no colon
  -- if it begins with a slash.
  pub parse_term-render_term :
      (t : Term)
      → IsQualifier t.qualifier
      → IsMechanism t.kind
      → Separable t.kind t.value
      → parse_term ip (render_term t)
        ≡ record t { raw = render_term t; error = validate ip t.kind t.value }
  unfolding parse_term
  parse_term-render_term t h m s =
      let rest = tail_of (elem t.kind host_kinds) t.value in
      let token = t.qualifier ++ (t.kind ++ rest) in
      rw (render_term_tail t m.no_modifier) (
        rw
          (partition_none b'=' token
            (no_equals t.qualifier t.kind rest h m (Lacks-tail_of _ t.value s.0)))
          (qualified_lem t.qualifier t.kind rest token h m
            ∙ mechanism_lem t.qualifier t.kind t.value (t.kind ++ rest) token m
                (name_value-tail_of t.kind t.value m s)))
