-- ===== src/Checks/Certs/Listed.antt =====
-- The page of the certificates.
use mojodns.Prelude.{
  Bool, true, false, ◌&&◌, ◌||◌, List, [], ◌∷◌, All, All-sort_by, IsOrdered, sort_by-IsOrdered,
  filter, any, ◌==◌, ◌≟◌, ◌≡◌, arith, Bool-cases, inl, inr,
}
use mojodns.Db.{User, CertObservation, Db, is_admin}
use mojodns.Checks.Certs.{cert_lt, certs_overview}

cert_lt-asym : (a b : CertObservation) → cert_lt a b ≡ true → cert_lt b a ≡ false
unfolding cert_lt
cert_lt-asym a b h = ground arith

-- A certificate of a zone that the user was granted, for all but admins.
abbrev pub is_visible : Db → User → CertObservation → Bool
is_visible db user c = is_admin user || any (λ a. a.zone ≟ c.zone && a.user_id == user.id) db.access

All-filter_by : {A : Type 0} (p : A → Bool) (xs : List A) → All (λ x. p x ≡ true) (filter p xs)
unfolding filter
All-filter_by p [] = tt
All-filter_by p (x ∷ xs) = elim (Bool-cases (p x)) [
  | inl e ↦ rw e (e, All-filter_by p xs)
  | inr e ↦ rw e (All-filter_by p xs)
]

-- The certificates that expire first come first and those without a date last, and nobody but an admin
-- sees those of a zone without a grant.
pub certs_overview-Visible :
    (db : Db) (user : User)
    → IsOrdered cert_lt (certs_overview db user)
      × All (λ c. is_visible db user c ≡ true) (certs_overview db user)
unfolding certs_overview
certs_overview-Visible db user = (
  sort_by-IsOrdered cert_lt cert_lt-asym _,
  All-sort_by cert_lt (λ c. is_visible db user c ≡ true) _
      (All-filter_by (is_visible db user) db.certs),
)
