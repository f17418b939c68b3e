-- ===== src/Pdns/Names.antt =====
-- What `canonical` makes of a name.
use mojodns.Prelude.{ℕ, Bool, false, [], ◌∷◌, ◌++◌, ◌≡◌, refl, ap, ◌∙◌, sym, All-append, ◌==◌}
use mojodns.Text.{Text, is_space, strip, strip_char, lower}
use mojodns.Text.Trim.{
  Lacks, starts, ends, strip-Lacks, strip_char-Lacks, strip_char-append_end, starts-strip_char,
  ends-strip_char, lower-lower, lower-Lacks_space, starts-lower_dot, ends-lower_dot,
}
use mojodns.Pdns.{canonical}

abbrev is_dot : ℕ → Bool
is_dot c = c == b'.'

-- A name in canonical form: a lower-case body with no dot at either end, and one dot behind it.
pub record IsCanonical (name : Text) : Type 0 where
  pub body : Text
  pub shape : name ≡ body ++ b'.' ∷ []
  pub is_lower : lower body ≡ body
  pub first : starts is_dot body ≡ false
  pub last : ends is_dot body ≡ false

-- Whatever the name, its canonical form is lower case and ends in exactly one dot, with none in front.
pub canonical-IsCanonical : (name : Text) → IsCanonical (canonical name)
unfolding canonical
canonical-IsCanonical name = record {
  body = lower bare;
  shape = refl;
  is_lower = lower-lower bare;
  first = starts-lower_dot bare ∙ starts-strip_char b'.' (strip name);
  last = ends-lower_dot bare ∙ ends-strip_char b'.' (strip name);
}
  where
    bare : Text
    bare = strip_char b'.' (strip name)

-- A canonical name without white space is its own canonical form.
pub canonical_id : (name : Text) → IsCanonical name → Lacks is_space name → canonical name ≡ name
unfolding canonical
canonical_id name c h = rw (strip-Lacks name h) (
    ap (λ (t : Text). t ++ b'.' ∷ [])
      (ap lower (ap (strip_char b'.') c.shape ∙ strip_char-append_end b'.' c.body c.first c.last)
        ∙ c.is_lower)
    ∙ sym c.shape)

canonical-Lacks_space : (name : Text) → Lacks is_space name → Lacks is_space (canonical name)
unfolding canonical is_space
canonical-Lacks_space name h =
    All-append _ (lower (strip_char b'.' (strip name))) (b'.' ∷ [])
      (lower-Lacks_space _
        (strip_char-Lacks b'.' is_space (strip name) (rw (strip-Lacks name h) h)))
      (refl, tt)

-- Taking the canonical form twice changes nothing, for a name that holds no white space.
pub canonical-canonical :
    (name : Text) → Lacks is_space name → canonical (canonical name) ≡ canonical name
canonical-canonical name h =
    canonical_id (canonical name) (canonical-IsCanonical name) (canonical-Lacks_space name h)
