-- ===== src/Secondaries/Rows.antt =====
-- What the rows of a poll say.
use mojodns.Prelude.{
  ◌<◌, ◌≤◌, ℕ, true, false, ◌||◌, List, [], ◌∷◌, All, All-append, any-append, any-sort_by, Option,
  none, some, map, any, ◌≟◌, ≟_refl, ≟_iff, subst, ap, ◌≡◌, refl, ◌∙◌, ◌⊎◌, inl, inr, Bool-cases,
  arith,
}
use mojodns.Text.{Text, codes}
use mojodns.Secondaries.{
  Dns, Row, row_lt, a_records, soa_serial, polled, for_ns, sort_out, plan, poll, rows_of,
}

-- The serial is no less than that of the zone, if that is known.
abbrev pub Reaches : Option ℕ → ℕ → Type 0
Reaches none serial = Unit
Reaches (some m) serial = m ≤ serial

module _ (dns : Dns) (zone : Text) (master : Option ℕ) where
  -- What a row may say: of an address that must not be asked that it was skipped; of a server that it
  -- has no address; of an address that may be asked that it gave no serial, and why; or the serial that it
  -- gave, which is behind the one of the zone or not.
  abbrev pub IsVerdict : Row → Type 0
  IsVerdict r =
      ((r.status ≡ codes "skipped")
        × (r.serial ≡ none)
        × ((a : Text) × (r.addr ≡ some a) × (dns.addr_ok a ≡ false)))
      ⊎ ((r.status ≡ codes "down")
          × (r.serial ≡ none)
          × (r.addr ≡ none)
          × (a_records dns r.ns ≡ []))
      ⊎ ((r.status ≡ codes "down")
          × (r.serial ≡ none)
          × ((a : Text) × (r.addr ≡ some a)
              × (dns.addr_ok a ≡ true)
              × ((none, r.detail) ≡ soa_serial dns a zone)))
      ⊎ ((a : Text) × (serial : ℕ) × (r.addr ≡ some a)
          × (dns.addr_ok a ≡ true)
          × ((soa_serial dns a zone).0 ≡ some serial)
          × (r.serial ≡ some serial)
          × (((r.status ≡ codes "stale") × ((m : ℕ) × (master ≡ some m) × (serial < m)))
              ⊎ ((r.status ≡ codes "ok") × Reaches master serial)))

  abbrev pub IsAllowed : Text × Text → Type 0
  IsAllowed (ns, addr) = dns.addr_ok addr ≡ true

  sort_out_sound :
      (ns : Text) (addrs : List Text)
      → All IsVerdict (sort_out dns ns addrs).0 × All IsAllowed (sort_out dns ns addrs).1
  unfolding sort_out
  sort_out_sound ns [] = (tt, tt)
  sort_out_sound ns (a ∷ addrs) = elim (Bool-cases (dns.addr_ok a)) [
    | inl e ↦ rw e ((sort_out_sound ns addrs).0, (e, (sort_out_sound ns addrs).1))
    | inr e ↦
        rw e (
          (inl (refl, refl, (a, refl, e)), (sort_out_sound ns addrs).0),
          (sort_out_sound ns addrs).1,
        )
  ]

  for_ns_sound :
      (ns : Text) (addrs : List Text)
      → a_records dns ns ≡ addrs
      → All IsVerdict (for_ns dns ns addrs).0 × All IsAllowed (for_ns dns ns addrs).1
  for_ns_sound ns [] h = ((inr (inl (refl, refl, refl, h)), tt), tt)
  for_ns_sound ns (a ∷ addrs) h = sort_out_sound ns (a ∷ addrs)

  pub plan_sound :
      (nss : List Text) → All IsVerdict (plan dns nss).0 × All IsAllowed (plan dns nss).1
  unfolding plan
  plan_sound [] = (tt, tt)
  plan_sound (ns ∷ nss) = (
    All-append IsVerdict (for_ns dns ns (a_records dns ns)).0 (plan dns nss).0
        (for_ns_sound ns (a_records dns ns) refl).0 (plan_sound nss).0,
    All-append IsAllowed (for_ns dns ns (a_records dns ns)).1 (plan dns nss).1
        (for_ns_sound ns (a_records dns ns) refl).1 (plan_sound nss).1,
  )

  -- The rows, and those that the targets will make, name a server.
  abbrev Names : Text → List Row × List (Text × Text) → Type 0
  Names ns (rows, targets) = (any (λ r. r.ns ≟ ns) rows || any (λ t. t.0 ≟ ns) targets) ≡ true

  sort_out-Names : (ns a : Text) (addrs : List Text) → Names ns (sort_out dns ns (a ∷ addrs))
  unfolding sort_out any
  sort_out-Names ns a addrs = elim (Bool-cases (dns.addr_ok a)) [
    | inl e ↦ rw e (ground (arith, ≟_refl ns))
    | inr e ↦ rw e (ground (arith, ≟_refl ns))
  ]

  for_ns-Names : (ns : Text) (addrs : List Text) → Names ns (for_ns dns ns addrs)
  unfolding any
  for_ns-Names ns [] = ground (arith, ≟_refl ns)
  for_ns-Names ns (a ∷ addrs) = sort_out-Names ns a addrs

  any-polls :
      (ns : Text) (targets : List (Text × Text))
      → any (λ r. r.ns ≟ ns) (map (poll dns zone master) targets) ≡ any (λ t. t.0 ≟ ns) targets
  unfolding any poll
  any-polls ns [] = refl
  any-polls ns ((n, a) ∷ targets) = polled-ns (soa_serial dns a zone) (any-polls ns targets)
    where
      polled-ns :
          (answer : Option ℕ × Option Text)
          → any (λ r. r.ns ≟ ns) (map (poll dns zone master) targets) ≡ any (λ t. t.0 ≟ ns) targets
          → ((polled master n a answer).ns ≟ ns
              || any (λ r. r.ns ≟ ns) (map (poll dns zone master) targets))
            ≡ (n ≟ ns || any (λ t. t.0 ≟ ns) targets)
      polled-ns (none, error) h = rw h refl
      polled-ns (some serial, error) h = rw h refl

  plan-Names :
      (ns : Text) (nss : List Text) → any (λ n. n ≟ ns) nss ≡ true → Names ns (plan dns nss)
  unfolding plan any
  plan-Names ns [] h = h
  plan-Names ns (n ∷ nss) h = elim (Bool-cases (n ≟ ns)) [
    | inl e ↦ ground (
      arith,
      subst (λ m. Names m (for_ns dns n (a_records dns n))) ((≟_iff n ns).0 e)
          (for_ns-Names n (a_records dns n)),
      any-append (λ r. r.ns ≟ ns) (for_ns dns n (a_records dns n)).0 (plan dns nss).0,
      any-append (λ t. t.0 ≟ ns) (for_ns dns n (a_records dns n)).1 (plan dns nss).1,
    )
    | inr e ↦ ground (
      arith,
      plan-Names ns nss (ground (arith, e, h)),
      any-append (λ r. r.ns ≟ ns) (for_ns dns n (a_records dns n)).0 (plan dns nss).0,
      any-append (λ t. t.0 ≟ ns) (for_ns dns n (a_records dns n)).1 (plan dns nss).1,
    )
  ]

  -- Every published name server has a row in the poll, whether it resolves, answers, or is skipped.
  pub rows_of_complete :
      (ns : Text) (nss : List Text)
      → any (λ n. n ≟ ns) nss ≡ true
      → any (λ r. r.ns ≟ ns) (rows_of dns zone master nss) ≡ true
  unfolding rows_of
  rows_of_complete ns nss h =
      any-sort_by row_lt (λ r. r.ns ≟ ns) _
      ∙ any-append (λ r. r.ns ≟ ns) (plan dns nss).0 (map (poll dns zone master) (plan dns nss).1)
      ∙ ap (λ b. any (λ r. r.ns ≟ ns) (plan dns nss).0 || b) (any-polls ns (plan dns nss).1)
      ∙ plan-Names ns nss h
