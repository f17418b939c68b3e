-- ===== src/Verify/Status/Verdict.antt =====
-- What a verification says of a zone.
use mojodns.Prelude.{
  true, List, [], ◌∷◌, ◌++◌, Option, none, some, any, all, All, elem, ◌==◌, ==_iff, ≟_iff, ◌≡◌, ◌↔◌,
  ◌⊎◌, inl, inr, refl, arith, ap, ◌∙◌, subst, Bool-cases,
}
use mojodns.Text.{Text, codes, starts_with}
use mojodns.Pdns.Update.{same_set}
use mojodns.Verify.{overlap, classify, failed}

-- The resolver failed: a time-out, a failing server, or another error with its text.
abbrev pub HasFailed : Option Text → Type 0
HasFailed error =
    (error ≡ some (codes "timeout"))
    ⊎ (error ≡ some (codes "SERVFAIL"))
    ⊎ ((e : Text) × (error ≡ some (codes "error:" ++ e)))

abbrev pub IsIn : Text → List Text → Type 0
IsIn n [] = ⊥
IsIn n (x ∷ xs) = (n ≡ x) ⊎ IsIn n xs

-- The lists have a member in common.
abbrev pub Meet : List Text → List Text → Type 0
Meet xs ys = (n : Text) × IsIn n xs × IsIn n ys

abbrev pub SameMembers : List Text → List Text → Type 0
SameMembers xs ys = All (λ x. IsIn x ys) xs × All (λ y. IsIn y xs) ys

starts_with_split : (p t : Text) → starts_with p t ≡ true → (rest : Text) × (t ≡ p ++ rest)
unfolding starts_with
starts_with_split [] t h = (t, refl)
starts_with_split (c ∷ p) [] h = cc
starts_with_split (c ∷ p) (x ∷ t) h = elim (Bool-cases (c == x)) [
  | inl e ↦
      let (rest, f) = starts_with_split p t (ground arith) in
      (rest, rw ((==_iff c x).0 e) (ap (λ l. x ∷ l) f))
  | inr e ↦ absurd (ground arith)
]

starts_with-append : (p rest : Text) → starts_with p (p ++ rest) ≡ true
unfolding starts_with
starts_with-append [] rest = refl
starts_with-append (c ∷ p) rest = ground (arith, starts_with-append p rest)

some_out : (x y : Text) → some x ≡ some y → x ≡ y
some_out x y e = cc

failed_text :
    (t : Text)
    → failed (some t) ≡ true
    → (t ≡ codes "timeout") ⊎ (t ≡ codes "SERVFAIL") ⊎ (starts_with (codes "error:") t ≡ true)
failed_text t h = ground (arith, ≟_iff t (codes "timeout"), ≟_iff t (codes "SERVFAIL"))

text_failed :
    (t : Text)
    → (t ≡ codes "timeout") ⊎ (t ≡ codes "SERVFAIL") ⊎ (starts_with (codes "error:") t ≡ true)
    → failed (some t) ≡ true
text_failed t h = ground (arith, ≟_iff t (codes "timeout"), ≟_iff t (codes "SERVFAIL"))

failed-HasFailed : (error : Option Text) → failed error ≡ true → HasFailed error
failed-HasFailed none h = cc
failed-HasFailed (some t) h = elim (failed_text t h) [
  | inl e ↦ inl (ap some e)
  | inr (inl e) ↦ inr (inl (ap some e))
  | inr (inr e) ↦
      let (rest, f) = starts_with_split (codes "error:") t e in inr (inr (rest, ap some f))
]

HasFailed-failed : (error : Option Text) → HasFailed error → failed error ≡ true
HasFailed-failed none (inl e) = cc
HasFailed-failed none (inr (inl e)) = cc
HasFailed-failed none (inr (inr (t, e))) = cc
HasFailed-failed (some t) (inl e) = text_failed t (inl (some_out t _ e))
HasFailed-failed (some t) (inr (inl e)) = text_failed t (inr (inl (some_out t _ e)))
HasFailed-failed (some t) (inr (inr (rest, e))) = text_failed t (
    inr (
      inr (
        ap (starts_with (codes "error:")) (some_out t _ e)
        ∙ starts_with-append (codes "error:") rest)))

elem-IsIn : (n : Text) (xs : List Text) → (elem n xs ≡ true) ↔ IsIn n xs
unfolding elem
elem-IsIn n [] = ground arith
elem-IsIn n (x ∷ xs) = ground (arith, ≟_iff n x, elem-IsIn n xs)

overlap-Meet : (xs ys : List Text) → overlap xs ys ≡ true → Meet xs ys
unfolding overlap any
overlap-Meet [] ys h = cc
overlap-Meet (x ∷ xs) ys h = elim (Bool-cases (elem x ys)) [
  | inl e ↦ (x, inl refl, (elem-IsIn x ys).0 e)
  | inr e ↦ let (n, f, g) = overlap-Meet xs ys (ground arith) in (n, inr f, g)
]

Meet-overlap : (n : Text) (xs ys : List Text) → IsIn n xs → elem n ys ≡ true → overlap xs ys ≡ true
unfolding overlap any
Meet-overlap n [] ys h k = absurd h
Meet-overlap n (x ∷ xs) ys (inl e) k = ground (arith, subst (λ (t : Text). elem t ys ≡ true) e k)
Meet-overlap n (x ∷ xs) ys (inr h) k = ground (arith, Meet-overlap n xs ys h k)

overlap_iff : (xs ys : List Text) → (overlap xs ys ≡ true) ↔ Meet xs ys
overlap_iff xs ys = (overlap-Meet xs ys, λ (n, h, k). Meet-overlap n xs ys h ((elem-IsIn n ys).1 k))

all-elem : (xs ys : List Text) → (all (λ x. elem x ys) xs ≡ true) ↔ All (λ x. IsIn x ys) xs
unfolding all
all-elem [] ys = ground arith
all-elem (x ∷ xs) ys = ground (arith, elem-IsIn x ys, all-elem xs ys)

same_set_iff : (xs ys : List Text) → (same_set xs ys ≡ true) ↔ SameMembers xs ys
unfolding same_set
same_set_iff xs ys = ground (arith, all-elem xs ys, all-elem ys xs)

-- The four statuses: an error just when the resolver failed with a time-out, a SERVFAIL or a text that
-- begins with `error:`; else a mismatch when no configured name server is seen, ok when some one is
-- and the two lists have the same members, and partial when some one is and they differ.
pub classify_lem :
    (configured resolved : List Text) (error : Option Text)
    → ((classify configured resolved error ≡ codes "error") ↔ HasFailed error)
      × ((classify configured resolved error ≡ codes "mismatch")
          ↔ ((¬ HasFailed error) × (¬ Meet configured resolved)))
      × ((classify configured resolved error ≡ codes "ok")
          ↔ ((¬ HasFailed error) × Meet configured resolved × SameMembers configured resolved))
      × ((classify configured resolved error ≡ codes "partial")
          ↔ ((¬ HasFailed error) × Meet configured resolved × (¬ SameMembers configured resolved)))
unfolding classify
classify_lem configured resolved error =
    go (failed-HasFailed error) (HasFailed-failed error) (overlap_iff configured resolved)
      (same_set_iff configured resolved)
  where
    go :
        {F M S : Type 0}
        → (failed error ≡ true → F)
        → (F → failed error ≡ true)
        → (overlap configured resolved ≡ true) ↔ M
        → (same_set configured resolved ≡ true) ↔ S
        → ((classify configured resolved error ≡ codes "error") ↔ F)
          × ((classify configured resolved error ≡ codes "mismatch") ↔ ((¬ F) × (¬ M)))
          × ((classify configured resolved error ≡ codes "ok") ↔ ((¬ F) × M × S))
          × ((classify configured resolved error ≡ codes "partial") ↔ ((¬ F) × M × (¬ S)))
    go f g m t = ground arith
