-- ===== src/Dnssec/Parent/Match.antt =====
-- What the three states of the parent mean.
use mojodns.Prelude.{
  Bool, true, false, not, List, [], ◌∷◌, All, any, filter, ◌≡◌, ◌≢◌, refl, ◌⊎◌, inl, inr,
  Bool-cases, arith,
}
use mojodns.Text.{Text, codes}
use mojodns.Dnssec.Parent.{Ds, has_ds, classify_parent}

module _ {A : Type 0} (p : A → Bool) where
  filter_some : (xs : List A) → any p xs ≡ true → filter p xs ≢ []
  unfolding filter any
  filter_some [] h = λ _. cc
  filter_some (x ∷ xs) h = elim (Bool-cases (p x)) [
    | inl e ↦ rw e (λ f. cc)
    | inr e ↦ rw e (filter_some xs (ground (arith, h, e)))
  ]

  filter_none : (xs : List A) → any p xs ≡ false → filter (λ x. not (p x)) xs ≡ xs
  unfolding filter any
  filter_none [] h = refl
  filter_none (x ∷ xs) h = ground (arith, h, filter_none xs)

  All-filter :
      (b : Bool) (q : A → Bool) (xs : List A)
      → ((x : A) → q x ≡ true → p x ≡ b)
      → All (λ x. p x ≡ b) (filter q xs)
  unfolding filter
  All-filter b q [] h = tt
  All-filter b q (x ∷ xs) h = elim (Bool-cases (q x)) [
    | inl e ↦ rw e (h x e, All-filter b q xs h)
    | inr e ↦ rw e (All-filter b q xs h)
  ]

-- The parent has no DS record; or the records that match are some, each of them is ours, and none of the
-- others is; or no record of the parent is ours, and all of them are extra.
abbrev pub IsState : List Ds → List Ds → Text × List Ds × List Ds → Type 0
IsState parent ours (state, matched, extra) =
    ((state ≡ codes "absent") × (parent ≡ []) × (matched ≡ []) × (extra ≡ []))
    ⊎ (((state ≡ codes "ok")
          × (matched ≢ [])
          × All (λ d. has_ds d ours ≡ true) matched
          × All (λ d. has_ds d ours ≡ false) extra)
        ⊎ ((state ≡ codes "mismatch")
            × (parent ≢ [])
            × (any (λ d. has_ds d ours) parent ≡ false)
            × (matched ≡ [])
            × (extra ≡ parent)))

-- The state that is reported of the parent is the one that its DS records and ours are in.
pub classify_parent-IsState :
    (parent ours : List Ds) → IsState parent ours (classify_parent parent ours)
unfolding classify_parent
classify_parent-IsState [] ours = inl (refl, refl, refl, refl)
classify_parent-IsState (p ∷ ps) ours = elim (Bool-cases (any (λ d. has_ds d ours) (p ∷ ps))) [
  | inl e ↦ rw e (
      inr (
        inl (
          refl,
          filter_some (λ d. has_ds d ours) (p ∷ ps) e,
          All-filter (λ d. has_ds d ours) true _ (p ∷ ps) (λ x h. h),
          All-filter (λ d. has_ds d ours) false _ (p ∷ ps) (λ x h. ground (arith, h)),
        )))
  | inr e ↦
      rw e (inr (inr (refl, λ f. cc, refl, refl, filter_none (λ d. has_ds d ours) (p ∷ ps) e)))
]
