-- ===== src/Prelude/Sort.antt =====
-- Python's `sorted` with a key: a stable insertion sort by the order of the keys.
use mathlib.Core.Bool.{Bool, true, false, ◌||◌}
use mathlib.Core.List.{List, [], ◌∷◌}
use mathlib.Core.List.{Perm}
use mathlib.Core.List.Perm
use mathlib.Core.Logic.{inl, inr}
use mathlib.Core.Path.{◌≡◌, refl}
use native.Mathlib.Omega.{arith}
use mojodns.Prelude.Tests.{if◌then◌else◌, Bool-cases}
use mojodns.Prelude.Lists.{All, any}

module _ {ℓ} {A : Type ℓ} (lt : A → A → Bool) where
  unfoldable pub insert_by : A → List A → List A
  insert_by x [] = x ∷ []
  insert_by x (y ∷ ys) = let rest = insert_by x ys in if lt y x then y ∷ rest else x ∷ y ∷ ys

  unfoldable pub sort_by : List A → List A
  sort_by [] = []
  sort_by (x ∷ xs) = insert_by x (sort_by xs)

  All-insert_by {κ} :
      (P : A → Type κ) (x : A) (xs : List A) → P x → All P xs → All P (insert_by x xs)
  unfolding insert_by
  All-insert_by P x [] h hs = (h, tt)
  All-insert_by P x (y ∷ ys) h hs = elim (Bool-cases (lt y x)) [
    | inl e ↦ rw e (hs.0, All-insert_by P x ys h hs.1)
    | inr e ↦ rw e (h, hs)
  ]

  -- What holds of all elements holds of all in order.
  pub All-sort_by {κ} : (P : A → Type κ) (xs : List A) → All P xs → All P (sort_by xs)
  unfolding sort_by
  All-sort_by P [] h = tt
  All-sort_by P (x ∷ xs) h = All-insert_by P x (sort_by xs) h.0 (All-sort_by P xs h.1)

  any-insert_by : (p : A → Bool) (x : A) (xs : List A) → any p (insert_by x xs) ≡ (p x || any p xs)
  unfolding insert_by any
  any-insert_by p x [] = refl
  any-insert_by p x (y ∷ ys) = ground (arith, any-insert_by p x ys)

  pub any-sort_by : (p : A → Bool) (xs : List A) → any p (sort_by xs) ≡ any p xs
  unfolding sort_by any
  any-sort_by p [] = refl
  any-sort_by p (x ∷ xs) = ground (arith, any-insert_by p x (sort_by xs), any-sort_by p xs)

  -- No element is in front of one that is smaller.
  abbrev pub IsOrdered : List A → Type 0
  IsOrdered [] = Unit
  IsOrdered (x ∷ []) = Unit
  IsOrdered (x ∷ y ∷ ys) = (lt y x ≡ false) × IsOrdered (y ∷ ys)

  abbrev HeadFits : A → List A → Type 0
  HeadFits y [] = Unit
  HeadFits y (z ∷ zs) = lt z y ≡ false

  IsOrdered-cons : (y : A) (zs : List A) → HeadFits y zs → IsOrdered zs → IsOrdered (y ∷ zs)
  IsOrdered-cons y [] h o = tt
  IsOrdered-cons y (z ∷ zs) h o = (h, o)

  head_fits : (y : A) (zs : List A) → IsOrdered (y ∷ zs) → HeadFits y zs
  head_fits y [] o = tt
  head_fits y (z ∷ zs) o = o.0

  IsOrdered-tail : (y : A) (zs : List A) → IsOrdered (y ∷ zs) → IsOrdered zs
  IsOrdered-tail y [] o = tt
  IsOrdered-tail y (z ∷ zs) o = o.1

  HeadFits-insert_by :
      (y x : A) (zs : List A) → lt x y ≡ false → HeadFits y zs → HeadFits y (insert_by x zs)
  unfolding insert_by
  HeadFits-insert_by y x [] h f = h
  HeadFits-insert_by y x (z ∷ zs) h f = elim (Bool-cases (lt z x)) [
    | inl e ↦ rw e f
    | inr e ↦ rw e h
  ]

  module _ (asym : (x y : A) → lt x y ≡ true → lt y x ≡ false) where
    insert_by-IsOrdered : (x : A) (xs : List A) → IsOrdered xs → IsOrdered (insert_by x xs)
    unfolding insert_by
    insert_by-IsOrdered x [] o = tt
    insert_by-IsOrdered x (y ∷ ys) o = elim (Bool-cases (lt y x)) [
      | inl e ↦ rw e (
          IsOrdered-cons y (insert_by x ys)
            (HeadFits-insert_by y x ys (asym y x e) (head_fits y ys o))
            (insert_by-IsOrdered x ys (IsOrdered-tail y ys o)))
      | inr e ↦ rw e (e, o)
    ]

    pub sort_by-IsOrdered : (xs : List A) → IsOrdered (sort_by xs)
    unfolding sort_by
    sort_by-IsOrdered [] = tt
    sort_by-IsOrdered (x ∷ xs) = insert_by-IsOrdered x (sort_by xs) (sort_by-IsOrdered xs)

  insert_by-Perm : (x : A) (xs : List A) → Perm (insert_by x xs) (x ∷ xs)
  unfolding insert_by
  insert_by-Perm x [] = Perm.refl (x ∷ [])
  insert_by-Perm x (y ∷ ys) = elim (Bool-cases (lt y x)) [
    | inl e ↦ rw e (Perm.trans (Perm.cons y (insert_by-Perm x ys)) (Perm.swap x y ys))
    | inr e ↦ rw e (Perm.refl (x ∷ y ∷ ys))
  ]

  -- Sorting keeps every element as often as it was there.
  pub sort_by-Perm : (xs : List A) → Perm (sort_by xs) xs
  unfolding sort_by
  sort_by-Perm [] = Perm.refl []
  sort_by-Perm (x ∷ xs) = Perm.trans (insert_by-Perm x (sort_by xs)) (Perm.cons x (sort_by-Perm xs))
