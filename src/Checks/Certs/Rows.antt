-- ===== src/Checks/Certs/Rows.antt =====
-- One row for a host, an address and a port.
use mojodns.Prelude.{
  ℕ, ◌+◌, ◌≤◌, Bool, true, false, List, [], ◌∷◌, ◌++◌, Option, none, some, map, filter, any, length,
  ◌≡◌, refl, Bool-cases, inl, inr, arith, suc, ap, sym, ◌∙◌, ≟_iff, ≟_refl, filter-append,
  length-append,
}
use mojodns.Text.{Text}
use mojodns.Pdns.{canonical}
use mojodns.Db.{CertObservation, Db}
use mojodns.Checks.Probe.{Report}
use mojodns.Checks.Cert.{Analysis}
use mojodns.Checks.Certs.{is_row, analysis_of, filled_row, fill_row, new_row, filled_at, store_cert}

-- The number of rows of a host, an address and a port.
abbrev pub rows_of : Text → Text → ℕ → Db → ℕ
rows_of host ip port db = length (filter (is_row host ip port) db.certs)

-- At most one row for each.
abbrev pub IsUnique : Db → Type 0
IsUnique db = (host ip : Text) (port : ℕ) → rows_of host ip port db ≤ 1

fill_row-key :
    (zone : Text) (now : ℕ) (result : Report) (c : CertObservation) (host ip : Text) (port : ℕ)
    → is_row host ip port (fill_row zone now result c) ≡ is_row host ip port c
unfolding fill_row is_row
fill_row-key zone now result c host ip port = go (analysis_of result.cert)
  where
    go :
        (a : Option (Analysis × Option Bool))
        → is_row host ip port (filled_row result a (record c { zone = zone; checked_at = now }))
          ≡ is_row host ip port c
    go none = refl
    go (some (a, trusted)) = refl

filled_at-key :
    (zone : Text) (now : ℕ) (result : Report) (here : CertObservation → Bool) (host ip : Text)
    (port : ℕ) (c : CertObservation)
    → is_row host ip port (filled_at zone now result here c) ≡ is_row host ip port c
filled_at-key zone now result here host ip port c = elim (Bool-cases (here c)) [
  | inl e ↦ rw e (fill_row-key zone now result c host ip port)
  | inr e ↦ rw e refl
]

length-filter-map :
    {A : Type 0} (p : A → Bool) (f : A → A)
    → ((x : A) → p (f x) ≡ p x)
    → (xs : List A) → length (filter p (map f xs)) ≡ length (filter p xs)
unfolding filter
length-filter-map p f h [] = refl
length-filter-map p f h (x ∷ xs) = elim (Bool-cases (p x)) [
  | inl e ↦ rw (h x) (rw e (ap suc (length-filter-map p f h xs)))
  | inr e ↦ rw (h x) (rw e (length-filter-map p f h xs))
]

none_filtered :
    {A : Type 0} (p : A → Bool) (xs : List A) → any p xs ≡ false → length (filter p xs) ≡ 0
unfolding filter any
none_filtered p [] h = refl
none_filtered p (x ∷ xs) h = ground (arith, none_filtered p xs)

some_filtered :
    {A : Type 0} (p : A → Bool) (xs : List A) → any p xs ≡ true → 1 ≤ length (filter p xs)
unfolding filter any
some_filtered p [] h = cc
some_filtered p (x ∷ xs) h = ground (arith, some_filtered p xs)

new_row-key :
    (zone : Text) (now : ℕ) (result : Report) (id : ℕ) (h i host ip : Text) (port : ℕ)
    → is_row host ip port (fill_row zone now result (new_row id h i)) ≡ true
    → (h ≡ host) × (i ≡ ip) × (443 ≡ port)
unfolding is_row
new_row-key zone now result id h i host ip port e =
    keys (sym (fill_row-key zone now result (new_row id h i) host ip port) ∙ e)
  where
    keys : is_row host ip port (new_row id h i) ≡ true → (h ≡ host) × (i ≡ ip) × (443 ≡ port)
    keys e = ground (arith, e, ≟_iff h host, ≟_iff i ip)

module _ (zone host ip : Text) (now : ℕ) (result : Report) (db : Db) (unique : IsUnique db) where
  abbrev here : CertObservation → Bool
  here = is_row (canonical host) ip 443

  abbrev added : CertObservation
  added = fill_row zone now result (new_row db.next_id (canonical host) ip)

  -- How many rows of a key one row makes.
  abbrev one : Bool → ℕ
  one true = 1
  one false = 0

  appended :
      (h i : Text) (p : ℕ)
      → length (filter (is_row h i p) (db.certs ++ added ∷ []))
        ≡ rows_of h i p db + one (is_row h i p added)
  unfolding filter
  appended h i p = rw (filter-append (is_row h i p) db.certs (added ∷ [])) (
      rw (length-append (filter (is_row h i p) db.certs) (filter (is_row h i p) (added ∷ [])))
        (elim (Bool-cases (is_row h i p added)) [ inl e ↦ rw e refl | inr e ↦ rw e refl ]))

  added-le :
      (h i : Text) (p : ℕ)
      → any here db.certs ≡ false
      → rows_of h i p db + one (is_row h i p added) ≤ 1
  added-le h i p e = elim (Bool-cases (is_row h i p added)) [
    | inl f ↦ rw f (same (new_row-key zone now result db.next_id (canonical host) ip h i p f))
    | inr f ↦ rw f (omega (arith, unique h i p))
  ]
    where
      same : (canonical host ≡ h) × (ip ≡ i) × (443 ≡ p) → rows_of h i p db + 1 ≤ 1
      same (a, b, c) =
          rw (sym a) (rw (sym b) (rw (sym c) (omega (arith, none_filtered here db.certs e))))

  added-here : is_row (canonical host) ip 443 added ≡ true
  unfolding is_row
  added-here =
      fill_row-key zone now result (new_row db.next_id (canonical host) ip) (canonical host) ip 443
      ∙ ground (arith, ≟_refl (canonical host), ≟_refl ip)

  -- Storing the certificate of a check leaves at most one row for each host, address and port, and exactly
  -- one for those of the check, if there was at most one for each before.
  pub store_cert-IsUnique :
      (h i : Text) (p : ℕ)
      → (rows_of h i p (store_cert zone host ip now result db) ≤ 1)
        × (rows_of (canonical host) ip 443 (store_cert zone host ip now result db) ≡ 1)
  unfolding store_cert
  store_cert-IsUnique h i p = elim (Bool-cases (any here db.certs)) [
    | inl e ↦ rw e (
      omega (arith, mapped h i p, unique h i p),
      omega (
        arith,
        mapped (canonical host) ip 443,
        unique (canonical host) ip 443,
        some_filtered here db.certs e,
      ),
    )
    | inr e ↦ rw e (
      rw (appended h i p) (added-le h i p e),
      rw (appended (canonical host) ip 443)
          (rw added-here (omega (arith, none_filtered here db.certs e))),
    )
  ]
    where
      mapped :
          (h i : Text) (p : ℕ)
          → length (filter (is_row h i p) (map (filled_at zone now result here) db.certs))
            ≡ rows_of h i p db
      mapped h i p =
          length-filter-map (is_row h i p) _ (filled_at-key zone now result here h i p) db.certs
