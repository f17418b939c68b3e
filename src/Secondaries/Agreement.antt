-- ===== src/Secondaries/Agreement.antt =====
-- What the comparison with the parent says.
use mojodns.Prelude.{
  Option, none, some, map, Bool, true, false, not, List, [], ◌∷◌, all, filter, elem, ◌≡◌, ◌≢◌, refl,
  ◌⊎◌, inl, inr, Bool-cases, arith,
}
use mojodns.Text.{Text, codes, rstrip_char}
use mojodns.Pdns.Update.{same_set}
use mojodns.Secondaries.Delegation.{
  DelegationReport, minus, compare_ns, parent_zone, check_delegation, from_parents, from_parent,
  ask_parents,
}
use mojodns.Secondaries.{Dns}
use mojodns.Verify.{sorted}
use mojodns.Pdns.{canonical}

filter-none :
    {A : Type 0} (p : A → Bool) (xs : List A) → all p xs ≡ true → filter (λ x. not (p x)) xs ≡ []
unfolding filter all
filter-none p [] h = refl
filter-none p (x ∷ xs) h = elim (Bool-cases (p x)) [
  | inl e ↦ rw e (filter-none p xs (ground (arith, h)))
  | inr e ↦ ground (arith, h, e)
]

filter-some :
    {A : Type 0} (p : A → Bool) (xs : List A) → all p xs ≡ false → filter (λ x. not (p x)) xs ≢ []
unfolding filter all
filter-some p [] h = λ _. ground (arith, h)
filter-some p (x ∷ xs) h = elim (Bool-cases (p x)) [
  | inl e ↦ rw e (filter-some p xs (ground (arith, h, e)))
  | inr e ↦ rw e (λ f. cc)
]

-- The report is unknown and names nothing; or it is ok and neither side names more than the other; or it
-- is a mismatch, and one of the two lists of differences is not empty.
abbrev pub IsConsistent : DelegationReport → Type 0
IsConsistent d =
    ((d.status ≡ codes "unknown") × (d.parent_ns ≡ []))
    ⊎ (((d.status ≡ codes "ok") × (d.only_parent ≡ []) × (d.only_zone ≡ []))
        ⊎ ((d.status ≡ codes "mismatch") × ((d.only_parent ≢ []) ⊎ (d.only_zone ≢ []))))

compare_ns-IsConsistent :
    (parent : Text) (zset delegated : List Text) → IsConsistent (compare_ns parent zset delegated)
unfolding compare_ns minus same_set
compare_ns-IsConsistent parent zset [] = inl (refl, refl)
compare_ns-IsConsistent parent zset (d ∷ ds) = elim (Bool-cases (all (λ x. elem x zset) (d ∷ ds))) [
  | inl e ↦ elim (Bool-cases (all (λ y. elem y (d ∷ ds)) zset)) [
    | inl f ↦ rw e (
        rw f (
          inr (
            inl (
              refl,
              filter-none (λ x. elem x zset) (d ∷ ds) e,
              filter-none (λ y. elem y (d ∷ ds)) zset f,
            ))))
    | inr f ↦ rw e (rw f (inr (inr (refl, inr (filter-some (λ y. elem y (d ∷ ds)) zset f)))))
  ]
  | inr e ↦ rw e (inr (inr (refl, inl (filter-some (λ x. elem x zset) (d ∷ ds) e))))
]

-- The verdict on a delegation agrees with the differences that the report lists, whatever the parent answers.
pub check_delegation-IsConsistent :
    (dns : Dns) (zone : Text) (zone_ns : List Text)
    → IsConsistent (check_delegation dns zone zone_ns)
unfolding check_delegation
check_delegation-IsConsistent dns zone zone_ns = go (parent_zone (canonical zone))
  where
    name : Text
    name = canonical zone

    zset : List Text
    zset = sorted (map canonical zone_ns)

    answered :
        (parent : Text) (r : Option (List Text))
        → IsConsistent (from_parents dns name parent zset r)
    answered parent none = inl (refl, refl)
    answered parent (some parent_ns) =
        compare_ns-IsConsistent parent zset (ask_parents dns name parent_ns)

    go : (p : Option Text) → IsConsistent (from_parent dns name zset p)
    go none = inl (refl, refl)
    go (some parent) = answered (rstrip_char b'.' parent) (dns.resolve parent (codes "NS"))
