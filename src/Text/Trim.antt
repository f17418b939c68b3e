-- ===== src/Text/Trim.antt =====
-- Laws of stripping and of lower case.
use mojodns.Prelude.{
  ◌≟◌, list_beq, ℕ, Bool, true, false, ◌≡◌, refl, [], ◌∷◌, ◌++◌, map, arith, ◌==◌, All, ◌∙◌, ap,
}
use mojodns.Text.Strip.{
  Text, is_space, keep_end, drop_while, drop_while_end, strip, strip_char, rstrip_char,
}
use mojodns.Text.Affix.{ends_with, starts_with}
use mojodns.Text.Case.{lower_char, lower}

-- No character passes the test.
abbrev pub Lacks : (ℕ → Bool) → Text → Type 0
Lacks p = All (λ x. p x ≡ false)

-- The first, or the last, character passes the test.
abbrev pub starts : (ℕ → Bool) → Text → Bool
starts p [] = false
starts p (x ∷ xs) = p x

abbrev pub ends : (ℕ → Bool) → Text → Bool
ends p [] = false
ends p (x ∷ []) = p x
ends p (x ∷ y ∷ ys) = ends p (y ∷ ys)

module _ (p : ℕ → Bool) where
  pub starts-drop_while : (t : Text) → starts p (drop_while p t) ≡ false
  unfolding drop_while
  starts-drop_while [] = refl
  starts-drop_while (x ∷ xs) = ground (arith, starts-drop_while xs)

  pub drop_while_id : (t : Text) → starts p t ≡ false → drop_while p t ≡ t
  unfolding drop_while
  drop_while_id [] h = refl
  drop_while_id (x ∷ xs) h = ground arith

  pub drop_while_end_id : (t : Text) → ends p t ≡ false → drop_while_end p t ≡ t
  unfolding drop_while_end
  drop_while_end_id [] h = refl
  drop_while_end_id (x ∷ []) h = ground arith
  drop_while_end_id (x ∷ y ∷ ys) h = rw (drop_while_end_id (y ∷ ys) h, keep_end)

  ends-keep_end : (x : ℕ) (t : Text) → ends p t ≡ false → ends p (keep_end p x t) ≡ false
  unfolding keep_end
  ends-keep_end x [] h = ground arith
  ends-keep_end x (y ∷ ys) h = h

  pub ends-drop_while_end : (t : Text) → ends p (drop_while_end p t) ≡ false
  unfolding drop_while_end
  ends-drop_while_end [] = refl
  ends-drop_while_end (x ∷ xs) = ends-keep_end x (drop_while_end p xs) (ends-drop_while_end xs)

  pub drop_while_end-append_end :
      (t : Text) (c : ℕ) → p c ≡ true → drop_while_end p (t ++ c ∷ []) ≡ drop_while_end p t
  unfolding drop_while_end keep_end
  drop_while_end-append_end [] c h = ground arith
  drop_while_end-append_end (x ∷ xs) c h = ap (keep_end p x) (drop_while_end-append_end xs c h)

  starts-keep_end : (x : ℕ) (t : Text) → p x ≡ false → starts p (keep_end p x t) ≡ false
  unfolding keep_end
  starts-keep_end x [] h = ground arith
  starts-keep_end x (y ∷ ys) h = h

  pub starts-drop_while_end :
      (t : Text) → starts p t ≡ false → starts p (drop_while_end p t) ≡ false
  unfolding drop_while_end
  starts-drop_while_end [] h = refl
  starts-drop_while_end (x ∷ xs) h = starts-keep_end x (drop_while_end p xs) h

  pub Lacks-starts : (t : Text) → Lacks p t → starts p t ≡ false
  Lacks-starts [] h = refl
  Lacks-starts (x ∷ xs) h = h.0

  pub Lacks-ends : (t : Text) → Lacks p t → ends p t ≡ false
  Lacks-ends [] h = refl
  Lacks-ends (x ∷ []) h = h.0
  Lacks-ends (x ∷ y ∷ ys) h = Lacks-ends (y ∷ ys) h.1

  pub ends-append_end : (t : Text) (c : ℕ) → ends p (t ++ c ∷ []) ≡ p c
  ends-append_end [] c = refl
  ends-append_end (x ∷ []) c = refl
  ends-append_end (x ∷ y ∷ ys) c = ends-append_end (y ∷ ys) c

  pub ends-append : (s : Text) (x : ℕ) (t : Text) → ends p (s ++ x ∷ t) ≡ ends p (x ∷ t)
  ends-append [] x t = refl
  ends-append (y ∷ []) x t = refl
  ends-append (y ∷ z ∷ s) x t = ends-append (z ∷ s) x t

  pub starts-append :
      (s t : Text) → starts p s ≡ false → starts p t ≡ false → starts p (s ++ t) ≡ false
  starts-append [] t h k = k
  starts-append (x ∷ xs) t h k = h

-- What one test never finds, stripping by another does not bring in.
module _ (p q : ℕ → Bool) where
  pub drop_while-Lacks : (t : Text) → Lacks q t → Lacks q (drop_while p t)
  unfolding drop_while
  drop_while-Lacks [] h = tt
  drop_while-Lacks (x ∷ xs) h = ground (arith, drop_while-Lacks xs h.1)

  keep_end-Lacks : (x : ℕ) (t : Text) → q x ≡ false → Lacks q t → Lacks q (keep_end p x t)
  unfolding keep_end
  keep_end-Lacks x [] h k = ground arith
  keep_end-Lacks x (y ∷ ys) h k = (h, k)

  pub drop_while_end-Lacks : (t : Text) → Lacks q t → Lacks q (drop_while_end p t)
  unfolding drop_while_end
  drop_while_end-Lacks [] h = tt
  drop_while_end-Lacks (x ∷ xs) h =
      keep_end-Lacks x (drop_while_end p xs) h.0 (drop_while_end-Lacks xs h.1)

pub strip_id : (t : Text) → starts is_space t ≡ false → ends is_space t ≡ false → strip t ≡ t
unfolding strip
strip_id t h k = rw (drop_while_id is_space t h) (drop_while_end_id is_space t k)

pub strip-Lacks : (t : Text) → Lacks is_space t → strip t ≡ t
strip-Lacks t h = strip_id t (Lacks-starts is_space t h) (Lacks-ends is_space t h)

pub starts-strip : (t : Text) → starts is_space (strip t) ≡ false
unfolding strip
starts-strip t =
    starts-drop_while_end is_space (drop_while is_space t) (starts-drop_while is_space t)

pub ends-strip : (t : Text) → ends is_space (strip t) ≡ false
unfolding strip
ends-strip t = ends-drop_while_end is_space (drop_while is_space t)

pub strip-strip : (t : Text) → strip (strip t) ≡ strip t
strip-strip t = strip_id (strip t) (starts-strip t) (ends-strip t)

module _ (c : ℕ) where
  pub starts-strip_char : (t : Text) → starts (λ x. x == c) (strip_char c t) ≡ false
  unfolding strip_char
  starts-strip_char t = starts-drop_while_end (λ x. x == c) _ (starts-drop_while (λ x. x == c) t)

  pub ends-strip_char : (t : Text) → ends (λ x. x == c) (strip_char c t) ≡ false
  unfolding strip_char
  ends-strip_char t = ends-drop_while_end (λ x. x == c) (drop_while (λ x. x == c) t)

  pub strip_char-Lacks : (q : ℕ → Bool) (t : Text) → Lacks q t → Lacks q (strip_char c t)
  unfolding strip_char
  strip_char-Lacks q t h =
      drop_while_end-Lacks (λ x. x == c) q _ (drop_while-Lacks (λ x. x == c) q t h)

  -- A text with no `c` at either end comes back from one that ends in a further `c`.
  pub strip_char-append_end :
      (t : Text)
      → starts (λ x. x == c) t ≡ false
      → ends (λ x. x == c) t ≡ false
      → strip_char c (t ++ c ∷ []) ≡ t
  unfolding strip_char drop_while drop_while_end keep_end
  strip_char-append_end [] h k = ground arith
  strip_char-append_end (x ∷ xs) h k = rw h (
      drop_while_end-append_end (λ y. y == c) (x ∷ xs) c (ground arith)
      ∙ drop_while_end_id (λ y. y == c) (x ∷ xs) k)

  pub rstrip_char-append_end : (t : Text) → rstrip_char c (t ++ c ∷ []) ≡ rstrip_char c t
  unfolding rstrip_char
  rstrip_char-append_end t = drop_while_end-append_end (λ y. y == c) t c (ground arith)

lower_char-space : (c : ℕ) → is_space (lower_char c) ≡ is_space c
unfolding lower_char is_space
lower_char-space c = ground arith

pub lower_char_idem : (c : ℕ) → lower_char (lower_char c) ≡ lower_char c
unfolding lower_char
lower_char_idem c = ground arith

lower_char_dot : (c : ℕ) → (lower_char c == b'.') ≡ (c == b'.')
unfolding lower_char
lower_char_dot c = ground arith

pub lower-lower : (t : Text) → lower (lower t) ≡ lower t
unfolding lower
lower-lower [] = refl
lower-lower (x ∷ xs) =
    ap {B = Text} (λ y. y ∷ map lower_char (map lower_char xs)) (lower_char_idem x)
    ∙ ap (λ (t : Text). lower_char x ∷ t) (lower-lower xs)

pub lower-append : (s t : Text) → lower (s ++ t) ≡ lower s ++ lower t
unfolding lower
lower-append [] t = refl
lower-append (x ∷ xs) t = ap (λ (r : Text). lower_char x ∷ r) (lower-append xs t)

pub lower-Lacks_space : (t : Text) → Lacks is_space t → Lacks is_space (lower t)
unfolding lower
lower-Lacks_space [] h = tt
lower-Lacks_space (x ∷ xs) h = (lower_char-space x ∙ h.0, lower-Lacks_space xs h.1)

pub starts-lower_dot : (t : Text) → starts (λ x. x == b'.') (lower t) ≡ starts (λ x. x == b'.') t
unfolding lower
starts-lower_dot [] = refl
starts-lower_dot (x ∷ xs) = lower_char_dot x

pub ends-lower_dot : (t : Text) → ends (λ x. x == b'.') (lower t) ≡ ends (λ x. x == b'.') t
unfolding lower
ends-lower_dot [] = refl
ends-lower_dot (x ∷ []) = lower_char_dot x
ends-lower_dot (x ∷ y ∷ ys) = ends-lower_dot (y ∷ ys)

-- A suffix of one character is the last character.
pub ends_with-ends : (c : ℕ) (t : Text) → ends_with (c ∷ []) t ≡ ends (λ x. x == c) t
unfolding ends_with ◌≟◌ list_beq
ends_with-ends c [] = refl
ends_with-ends c (x ∷ []) = ground arith
ends_with-ends c (x ∷ y ∷ ys) = ground (arith, ends_with-ends c (y ∷ ys))

pub starts_with-starts : (c : ℕ) (t : Text) → starts_with (c ∷ []) t ≡ starts (λ x. x == c) t
unfolding starts_with
starts_with-starts c [] = refl
starts_with-starts c (x ∷ xs) = ground arith
