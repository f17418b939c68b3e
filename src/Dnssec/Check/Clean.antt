-- ===== src/Dnssec/Check/Clean.antt =====
-- When there is nothing to warn of.
use mojodns.Prelude.{
  ◌≤◌, Bool, true, false, ◌||◌, filter, All, if◌then◌else◌, ==_iff, ≟_iff, arith, ◌≢◌, ◌⊎◌, ◌↔◌,
  not, ◌&&◌, List, [], ◌∷◌, ◌++◌, Option, none, some, any, ◌≟◌, list_beq, ◌≡◌, refl, ◌∙◌, ap, inl,
  inr, Bool-cases,
}
use mojodns.Text.{Text, ℤ, pos, negsuc, codes}
use mojodns.Dnssec.Parent.{Ds, ds_eq, int_eq, has_ds, int_lt, classify_parent}
use mojodns.Dnssec.Nameservers.{NsRow, expires_early}
use mojodns.Dnssec.Check.{
  is_none, is_unsigned, parent_warnings, extra_warnings, unsigned_warnings, expiry_warnings,
  secured_report, soonest, count_days,
}

is_none-append : {A : Type 0} (xs ys : List A) → is_none (xs ++ ys) ≡ (is_none xs && is_none ys)
is_none-append [] ys = refl
is_none-append (x ∷ xs) ys = refl

is_none-extra : (extra : List Ds) → is_none (extra_warnings extra) ≡ is_none extra
is_none-extra [] = refl
is_none-extra (d ∷ ds) = refl

is_none-unsigned :
    (rows : List NsRow) → is_none (unsigned_warnings rows) ≡ not (any is_unsigned rows)
is_none-unsigned rows = elim (Bool-cases (any is_unsigned rows)) [
  | inl e ↦ rw e refl
  | inr e ↦ rw e refl
]

is_none-expiry :
    (days : Option ℤ) (warn_days : ℤ)
    → is_none (expiry_warnings days warn_days) ≡ not (expires_early days warn_days)
is_none-expiry none warn_days = refl
is_none-expiry (some d) warn_days = elim (Bool-cases (int_lt d warn_days)) [
  | inl e ↦ rw e refl
  | inr e ↦ rw e refl
]

is_none-parent :
    (parent ours : List Ds)
    → is_none (parent_warnings (classify_parent parent ours).0)
      ≡ ((classify_parent parent ours).0 ≟ codes "ok")
unfolding classify_parent ◌≟◌ list_beq
is_none-parent [] ours = refl
is_none-parent (p ∷ ps) ours = elim (Bool-cases (any (λ d. has_ds d ours) (p ∷ ps))) [
  | inl e ↦ rw e refl
  | inr e ↦ rw e refl
]

is_none-warnings :
    (parent : List Ds) (error : Option Text) (ours : List Ds) (verdict : Text) (rows : List NsRow)
    (warn_days : ℤ)
    → is_none (secured_report parent error ours verdict rows warn_days).warnings ≡ (
        ((classify_parent parent ours).0 ≟ codes "ok")
        && (is_none (classify_parent parent ours).2
            && (not (any is_unsigned rows) && not (expires_early (soonest rows) warn_days))))
unfolding secured_report
is_none-warnings parent error ours verdict rows warn_days =
    is_none-append (parent_warnings (classify_parent parent ours).0) _
    ∙ rw (is_none-parent parent ours) (
        ap (λ b. (classify_parent parent ours).0 ≟ codes "ok" && b)
          (is_none-append (extra_warnings (classify_parent parent ours).2) _
            ∙ rw (is_none-extra (classify_parent parent ours).2) (
                ap (λ b. is_none (classify_parent parent ours).2 && b)
                  (is_none-append (unsigned_warnings rows) _
                    ∙ rw (is_none-unsigned rows)
                        (rw (is_none-expiry (soonest rows) warn_days) refl)))))

abbrev pub Among : Ds → List Ds → Type 0
Among d [] = ⊥
Among d (e ∷ es) = (d ≡ e) ⊎ Among d es

abbrev pub AtLeast : ℤ → ℤ → Type 0
AtLeast (pos m) (pos n) = m ≤ n
AtLeast (pos m) (negsuc n) = ⊥
AtLeast (negsuc m) (pos n) = Unit
AtLeast (negsuc m) (negsuc n) = n ≤ m

-- The days that are left, if any are counted, are no fewer than those of warning.
abbrev pub Lasts : ℤ → Option ℤ → Type 0
Lasts warn_days none = Unit
Lasts warn_days (some days) = AtLeast warn_days days

abbrev pub IsHealthy : ℤ → NsRow → Type 0
IsHealthy warn_days r = (r.status ≢ codes "unsigned") × Lasts warn_days r.days_left

int_eq_iff : (a b : ℤ) → (int_eq a b ≡ true) ↔ (a ≡ b)
int_eq_iff (pos m) (pos n) = ground (arith, ==_iff m n)
int_eq_iff (pos m) (negsuc n) = ground arith
int_eq_iff (negsuc m) (pos n) = ground arith
int_eq_iff (negsuc m) (negsuc n) = ground (arith, ==_iff m n)

same_ds :
    (a b : Ds)
    → a.keytag ≡ b.keytag
    → a.algorithm ≡ b.algorithm
    → a.digest_type ≡ b.digest_type
    → a.digest ≡ b.digest
    → a ≡ b
same_ds a b e f g h = rw e (rw f (rw g (rw h refl)))

ds_eq_iff : (a b : Ds) → (ds_eq a b ≡ true) ↔ (a ≡ b)
unfolding ds_eq
ds_eq_iff a b = ground (
  arith,
  same_ds a b,
  int_eq_iff a.keytag b.keytag,
  int_eq_iff a.algorithm b.algorithm,
  int_eq_iff a.digest_type b.digest_type,
  ≟_iff a.digest b.digest,
)

has_ds-Among : (d : Ds) (ours : List Ds) → (has_ds d ours ≡ true) ↔ Among d ours
unfolding has_ds any
has_ds-Among d [] = ground arith
has_ds-Among d (e ∷ ours) = ground (arith, ds_eq_iff d e, has_ds-Among d ours)

any-All :
    {A : Type 0} (p : A → Bool) (P : A → Type 0)
    → ((x : A) → (p x ≡ false) ↔ P x)
    → (xs : List A) → (any p xs ≡ false) ↔ All P xs
unfolding any
any-All p P f [] = ground arith
any-All p P f (x ∷ xs) = ground (arith, f x, any-All p P f xs)

is_none-filter :
    (ours ds : List Ds)
    → (is_none (filter (λ d. not (has_ds d ours)) ds) ≡ true) ↔ All (λ d. Among d ours) ds
unfolding filter
is_none-filter ours [] = ground arith
is_none-filter ours (d ∷ ds) = elim (Bool-cases (has_ds d ours)) [
  | inl e ↦ rw e (ground (arith, has_ds-Among d ours, is_none-filter ours ds))
  | inr e ↦ rw e (ground (arith, has_ds-Among d ours))
]

-- The parent's side is in order.
classify_parent-clean :
    (parent ours : List Ds)
    → ((((classify_parent parent ours).0 ≟ codes "ok") && is_none (classify_parent parent ours).2)
        ≡ true)
      ↔ ((parent ≢ []) × All (λ d. Among d ours) parent)
unfolding classify_parent any ◌≟◌ list_beq
classify_parent-clean [] ours = (λ h. cc, λ h. absurd (h.0 refl))
classify_parent-clean (p ∷ ps) ours = elim (Bool-cases (any (λ d. has_ds d ours) (p ∷ ps))) [
  | inl e ↦ rw e (
    (λ h. ((λ f. cc), (is_none-filter ours (p ∷ ps)).0 h)),
    λ h. (is_none-filter ours (p ∷ ps)).1 h.1,
  )
  | inr e ↦ rw e ((λ h. cc), λ h. ground (arith, has_ds-Among p ours))
]

int_lt-AtLeast : (d w : ℤ) → (int_lt d w ≡ false) ↔ AtLeast w d
int_lt-AtLeast (pos m) (pos n) = ground arith
int_lt-AtLeast (pos m) (negsuc n) = ground arith
int_lt-AtLeast (negsuc m) (pos n) = ground arith
int_lt-AtLeast (negsuc m) (negsuc n) = ground arith

int_lt-least : (d e w : ℤ) → int_lt (if int_lt d e then d else e) w ≡ (int_lt d w || int_lt e w)
int_lt-least (pos d) (pos e) (pos w) = ground arith
int_lt-least (pos d) (pos e) (negsuc w) = ground arith
int_lt-least (pos d) (negsuc e) (pos w) = ground arith
int_lt-least (pos d) (negsuc e) (negsuc w) = ground arith
int_lt-least (negsuc d) (pos e) (pos w) = ground arith
int_lt-least (negsuc d) (pos e) (negsuc w) = ground arith
int_lt-least (negsuc d) (negsuc e) (pos w) = ground arith
int_lt-least (negsuc d) (negsuc e) (negsuc w) = ground arith

count_days-early :
    (days least : Option ℤ) (w : ℤ)
    → expires_early (count_days days least) w ≡ (expires_early days w || expires_early least w)
count_days-early none least w = refl
count_days-early (some d) none w = ground arith
count_days-early (some d) (some e) w = int_lt-least d e w

-- The least number of days is too small just when some row's is.
soonest-early :
    (rows : List NsRow) (w : ℤ)
    → expires_early (soonest rows) w ≡ any (λ r. expires_early r.days_left w) rows
unfolding soonest any
soonest-early [] w = refl
soonest-early (r ∷ rows) w =
    count_days-early r.days_left (soonest rows) w
    ∙ ap (λ b. expires_early r.days_left w || b) (soonest-early rows w)

expires_early-Lasts : (days : Option ℤ) (w : ℤ) → (expires_early days w ≡ false) ↔ Lasts w days
expires_early-Lasts none w = ground arith
expires_early-Lasts (some d) w = int_lt-AtLeast d w

is_unsigned-status : (r : NsRow) → (is_unsigned r ≡ false) ↔ (r.status ≢ codes "unsigned")
is_unsigned-status r = ground (arith, ≟_iff r.status (codes "unsigned"))

rows-IsHealthy :
    (rows : List NsRow) (w : ℤ)
    → ((not (any is_unsigned rows) && not (expires_early (soonest rows) w)) ≡ true)
      ↔ All (IsHealthy w) rows
unfolding any
rows-IsHealthy rows w = rw (soonest-early rows w) (go rows)
  where
    go :
        (rs : List NsRow)
        → ((not (any is_unsigned rs) && not (any (λ r. expires_early r.days_left w) rs)) ≡ true)
          ↔ All (IsHealthy w) rs
    go [] = ground arith
    go (r ∷ rs) = ground (arith, is_unsigned-status r, expires_early-Lasts r.days_left w, go rs)

is_none_iff : {A : Type 0} (xs : List A) → (is_none xs ≡ true) ↔ (xs ≡ [])
is_none_iff [] = ground arith
is_none_iff (x ∷ xs) = ((λ h. cc), λ h. cc)

-- The diagnostic of a signed zone warns of nothing exactly if the parent has DS records and every one of
-- them equals one of the zone's own, and no row of a name server is unsigned or has fewer days left than
-- the days of warning.
pub secured_report-clean :
    (parent : List Ds) (error : Option Text) (ours : List Ds) (verdict : Text) (rows : List NsRow)
    (warn_days : ℤ)
    → ((secured_report parent error ours verdict rows warn_days).warnings ≡ [])
      ↔ ((parent ≢ []) × All (λ d. Among d ours) parent × All (IsHealthy warn_days) rows)
secured_report-clean parent error ours verdict rows warn_days = ground (
  arith,
  is_none_iff (secured_report parent error ours verdict rows warn_days).warnings,
  is_none-warnings parent error ours verdict rows warn_days,
  classify_parent-clean parent ours,
  rows-IsHealthy rows warn_days,
)
