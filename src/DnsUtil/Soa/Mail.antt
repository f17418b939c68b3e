-- ===== src/DnsUtil/Soa/Mail.antt =====
-- Mail addresses and RNAMEs: what the edit form shows and what it sends back.
use mojodns.Prelude.{
  ℕ, Bool, false, [], ◌∷◌, ◌++◌, ◌≡◌, refl, arith, All-append, append_assoc, ◌==◌, sym, ◌∙◌,
}
use mojodns.Text.{Text, is_space, is_empty, replace_char, replace_pair, rstrip_char}
use mojodns.Text.Pieces.{partition_found}
use mojodns.Text.Trim.{
  Lacks, strip-Lacks, ends, ends_with-ends, ends-append, drop_while_end-append_end,
  drop_while_end_id,
}
use mojodns.DnsUtil.{dotted}
use mojodns.DnsUtil.Soa.{email, address, email_to_rname}

abbrev pub is_dot : ℕ → Bool
is_dot c = c == b'.'

abbrev pub is_at : ℕ → Bool
is_at c = c == b'@'

-- Replacing a character that does not occur changes nothing.
replace_char_id : (c : ℕ) (r t : Text) → Lacks (λ x. x == c) t → replace_char c r t ≡ t
unfolding replace_char
replace_char_id c r [] h = refl
replace_char_id c r (x ∷ xs) h = ground (arith, replace_char_id c r xs h.1)

-- Nor does a pair whose second character does not occur.
replace_pair_id : (a b : ℕ) (r t : Text) → Lacks (λ x. x == b) t → replace_pair a b r t ≡ t
unfolding replace_pair
replace_pair_id a b r [] h = refl
replace_pair_id a b r (x ∷ []) h = refl
replace_pair_id a b r (x ∷ y ∷ ys) h = ground (arith, replace_pair_id a b r (y ∷ ys) h.1)

-- Text that has two parts with a character between, the second not empty.
abbrev glue : Text → ℕ → Text → Text
glue s c t = s ++ c ∷ t

glue_assoc : (s : Text) (c : ℕ) (t : Text) (d : ℕ) → glue s c (t ++ d ∷ []) ≡ glue s c t ++ d ∷ []
glue_assoc s c t d = rw append_assoc

ends-glue :
    (s : Text) (c : ℕ) (t : Text)
    → is_empty t ≡ false
    → ends is_dot t ≡ false
    → ends is_dot (glue s c t) ≡ false
ends-glue s c [] h k = cc
ends-glue s c (x ∷ t) h k = ends-append is_dot s c (x ∷ t) ∙ k

address_lem :
    (local domain bare : Text)
    → Lacks is_dot local
    → is_empty domain ≡ false
    → address local domain bare ≡ glue local b'@' domain
unfolding address
address_lem local [] bare h k = cc
address_lem local (d ∷ ds) bare h k = rw (replace_pair_id b'\\' b'.' (b'.' ∷ []) local h)

rstrip_char_lem : (t : Text) → ends is_dot t ≡ false → rstrip_char b'.' (t ++ b'.' ∷ []) ≡ t
unfolding rstrip_char
rstrip_char_lem t h = drop_while_end-append_end is_dot t b'.' refl ∙ drop_while_end_id is_dot t h

email_lem :
    (local domain : Text)
    → Lacks is_dot local
    → is_empty domain ≡ false
    → ends is_dot domain ≡ false
    → email (glue local b'.' domain ++ b'.' ∷ []) ≡ glue local b'@' domain
unfolding email
email_lem local domain no_dot d last =
    rw (rstrip_char_lem _ (ends-glue local b'.' domain d last))
      (rw (partition_found b'.' local domain no_dot) (address_lem local domain _ no_dot d))

dotted_id : (t : Text) → Lacks is_space t → ends is_dot t ≡ false → dotted t ≡ t ++ b'.' ∷ []
unfolding dotted
dotted_id t h k = rw (strip-Lacks t h) (rw (ends_with-ends b'.' t) (rw k refl))

-- An RNAME `local.domain.` whose first label holds no dot, and that holds neither `@` nor white
-- space, is what the panel writes for the mail address that it shows: the edit form gives it back.
pub email_to_rname-email :
    (local domain : Text)
    → Lacks is_dot local
    → Lacks is_at local
    → Lacks is_space local
    → Lacks is_space domain
    → is_empty domain ≡ false
    → ends is_dot domain ≡ false
    → let rname = local ++ b'.' ∷ (domain ++ b'.' ∷ []) in
      (email rname ≡ local ++ b'@' ∷ domain) × (email_to_rname (email rname) ≡ rname)
unfolding email_to_rname
email_to_rname-email local domain no_dot no_at sp sp' d last = (
  shown,
  rw shown (
      rw (strip-Lacks _ no_space) (
        rw (partition_found b'@' local domain no_at) (
          rw (replace_char_id b'.' _ local no_dot) (
            dotted_id _ no_space' (ends-glue local b'.' domain d last)
            ∙ sym (glue_assoc local b'.' domain b'.'))))),
)
  where
    shown : email (local ++ b'.' ∷ (domain ++ b'.' ∷ [])) ≡ glue local b'@' domain
    shown = rw (glue_assoc local b'.' domain b'.') (email_lem local domain no_dot d last)

    no_space : Lacks is_space (glue local b'@' domain)
    no_space = All-append _ local (b'@' ∷ domain) sp (unfold is_space in refl, sp')

    no_space' : Lacks is_space (glue local b'.' domain)
    no_space' = All-append _ local (b'.' ∷ domain) sp (unfold is_space in refl, sp')

escape_dot :
    (a b : Text)
    → Lacks is_dot a
    → replace_char b'.' (b'\\' ∷ b'.' ∷ []) (glue a b'.' b)
      ≡ a ++ b'\\' ∷ b'.' ∷ replace_char b'.' (b'\\' ∷ b'.' ∷ []) b
unfolding replace_char
escape_dot [] b h = refl
escape_dot (x ∷ xs) b h = ground (arith, escape_dot xs b h.1)

-- A mail address `a.b@domain` with a dot in its local part is shown wrong: the first label of its
-- RNAME ends at the escaped dot, so the `@` comes too early, behind a backslash.
pub email-email_to_rname_dotted :
    (a b domain : Text)
    → Lacks is_dot a
    → Lacks is_dot b
    → Lacks is_at a
    → Lacks is_at b
    → Lacks is_space a
    → Lacks is_space b
    → Lacks is_space domain
    → is_empty domain ≡ false
    → ends is_dot domain ≡ false
    → email (email_to_rname ((a ++ b'.' ∷ b) ++ b'@' ∷ domain))
      ≡ (a ++ b'\\' ∷ []) ++ b'@' ∷ (b ++ b'.' ∷ domain)
unfolding email_to_rname
email-email_to_rname_dotted a b domain da db aa ab sa sb sd d last =
    rw
      (strip-Lacks _
        (All-append _ (glue a b'.' b) (b'@' ∷ domain) sab (unfold is_space in refl, sd)))
      (rw (partition_found b'@' (glue a b'.' b) domain (All-append _ a (b'.' ∷ b) aa (refl, ab)))
        (rw (written, dotted_id _ written_space written_end) shown))
  where
    local : Text
    local = a ++ b'\\' ∷ []

    rest : Text
    rest = glue b b'.' domain

    sab : Lacks is_space (glue a b'.' b)
    sab = All-append _ a (b'.' ∷ b) sa (unfold is_space in refl, sb)

    written :
        replace_char b'.' (b'\\' ∷ b'.' ∷ []) (glue a b'.' b) ++ b'.' ∷ domain
        ≡ glue local b'.' rest
    written = rw (escape_dot a b da, replace_char_id b'.' _ b db) (simp append_assoc)

    written_space : Lacks is_space (glue local b'.' rest)
    written_space =
        All-append _ local (b'.' ∷ rest)
          (All-append _ a (b'\\' ∷ []) sa (unfold is_space in refl, tt))
          (unfold is_space in refl, All-append _ b (b'.' ∷ domain) sb (unfold is_space in refl, sd))

    rest_end : ends is_dot rest ≡ false
    rest_end = ends-glue b b'.' domain d last

    rest_full : is_empty rest ≡ false
    rest_full = not_empty b
      where
        not_empty : (s : Text) → is_empty (glue s b'.' domain) ≡ false
        not_empty [] = refl
        not_empty (x ∷ xs) = refl

    written_end : ends is_dot (glue local b'.' rest) ≡ false
    written_end = ends-glue local b'.' rest rest_full rest_end

    shown : email (glue local b'.' rest ++ b'.' ∷ []) ≡ glue local b'@' rest
    shown = email_lem local rest (All-append _ a (b'\\' ∷ []) da (refl, tt)) rest_full rest_end
