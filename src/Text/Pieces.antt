-- ===== src/Text/Pieces.antt =====
-- Laws of splitting and joining.
use mojodns.Prelude.{ℕ, Bool, true, false, ◌≡◌, refl, List, [], ◌∷◌, ◌++◌, arith, filter, ◌==◌, All}
use mojodns.Text.Strip.{Text, is_space}
use mojodns.Text.Split.{split_by, is_empty, split_words, join, partition}
use mojodns.Text.Trim.{Lacks}

module _ (p : ℕ → Bool) where
  split_by-Lacks : (t : Text) → Lacks p t → split_by p t ≡ t ∷ []
  unfolding split_by
  split_by-Lacks [] h = refl
  split_by-Lacks (x ∷ xs) h = rw h.0 (rw (split_by-Lacks xs h.1) refl)

  -- A part without separators, a separator, and the rest.
  split_by-append :
      (t : Text) (c : ℕ) (rest : Text)
      → Lacks p t
      → p c ≡ true
      → split_by p (t ++ c ∷ rest) ≡ t ∷ split_by p rest
  unfolding split_by
  split_by-append [] c rest h k = rw k
  split_by-append (x ∷ xs) c rest h k = rw h.0 (rw (split_by-append xs c rest h.1 k) refl)

-- A word: not empty and free of white space.
abbrev pub IsWord : Text → Type 0
IsWord t = (is_empty t ≡ false) × Lacks is_space t

-- Words joined by single spaces are split into themselves.
pub split_words-join : (ws : List Text) → All IsWord ws → split_words (join (b' ' ∷ []) ws) ≡ ws
unfolding split_words join filter
split_words-join [] h = refl
split_words-join (w ∷ []) h = rw (split_by-Lacks is_space w h.0.1) (ground arith)
split_words-join (w ∷ v ∷ ws) h =
    rw (split_by-append is_space w b' ' (join (b' ' ∷ []) (v ∷ ws)) h.0.1 refl)
      (ground (arith, split_words-join (v ∷ ws) h.1))

-- `partition` finds the first separator.
pub partition_found :
    (c : ℕ) (s rest : Text) → Lacks (λ x. x == c) s → partition c (s ++ c ∷ rest) ≡ (s, true, rest)
unfolding partition
partition_found c [] rest h = ground arith
partition_found c (x ∷ xs) rest h = ground (arith, partition_found c xs rest h.1)

pub partition_none : (c : ℕ) (s : Text) → Lacks (λ x. x == c) s → partition c s ≡ (s, false, [])
unfolding partition
partition_none c [] h = refl
partition_none c (x ∷ xs) h = ground (arith, partition_none c xs h.1)
