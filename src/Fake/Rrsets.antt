-- ===== src/Fake/Rrsets.antt =====
-- What the stand-in holds after `replace_rrset`.
use mojodns.Prelude.{
  Bool, not, ◌&&◌, List, [], ◌∷◌, ◌++◌, Option, none, some, filter, ◌≟◌, list_beq, sym, append-nil,
  ≟_iff, ≟_refl, ◌≡◌, ◌≢◌, ◌⊎◌, refl, ap, ◌∙◌, arith,
}
use mojodns.Text.{Text, ℤ}
use mojodns.Pdns.{canonical}
use mojodns.Pdns.Types.{Rec, Rrset}
use mojodns.Pdns.Zones.{rrset_change}
use mojodns.Fake.{apply_change}
use mojodns.Zones.Records.{rrset_in}

abbrev is_rrset : Text → Text → Rrset → Bool
is_rrset name rtype rr = rr.name ≟ name && rr.rtype ≟ rtype

rrset_in-filter :
    (name rtype : Text) (rrs more : List Rrset)
    → rrset_in name rtype (filter (λ rr. not (is_rrset name rtype rr)) rrs ++ more)
      ≡ rrset_in name rtype more
unfolding rrset_in filter
rrset_in-filter name rtype [] more = refl
rrset_in-filter name rtype (rr ∷ rrs) more = ground (arith, rrset_in-filter name rtype rrs more)

rrset_in-filter_ne :
    (name rtype other otype : Text) (rrs : List Rrset) (more : List Rrset)
    → (other ≢ name) ⊎ (otype ≢ rtype)
    → rrset_in other otype more ≡ (none, [])
    → rrset_in other otype (filter (λ rr. not (is_rrset name rtype rr)) rrs ++ more)
      ≡ rrset_in other otype rrs
unfolding rrset_in filter
rrset_in-filter_ne name rtype other otype [] more h e = e
rrset_in-filter_ne name rtype other otype (rr ∷ rrs) more h e = ground (
  arith,
  ≟_iff rr.name name,
  ≟_iff rr.rtype rtype,
  ≟_iff rr.name other,
  ≟_iff rr.rtype otype,
  rrset_in-filter_ne name rtype other otype rrs more h e,
)

abbrev others : Text → Text → List Rrset → List Rrset
others name rtype rrs = filter (λ rr. not (is_rrset name rtype rr)) rrs

apply_change_delete :
    (name rtype : Text) (ttl : ℤ) (rrsets : List Rrset)
    → apply_change rrsets (rrset_change name rtype ttl []) ≡ others (canonical name) rtype rrsets
unfolding apply_change rrset_change ◌≟◌ list_beq
apply_change_delete name rtype ttl rrsets = refl

apply_change_replace :
    (name rtype : Text) (ttl : ℤ) (r : Rec) (rs : List Rec) (rrsets : List Rrset)
    → apply_change rrsets (rrset_change name rtype ttl (r ∷ rs))
      ≡ others (canonical name) rtype rrsets
        ++ record { name = canonical name; rtype = rtype; ttl = ttl; records = r ∷ rs } ∷ []
unfolding apply_change rrset_change ◌≟◌ list_beq
apply_change_replace name rtype ttl r rs rrsets = refl

-- What is to be found of an rrset that was set to these records.
abbrev pub stored : ℤ → List Rec → Option ℤ × List Rec
stored ttl [] = (none, [])
stored ttl (r ∷ rs) = (some ttl, r ∷ rs)

-- The change that `replace_rrset` sends makes the stand-in hold exactly the given records under the
-- canonical name and the type, or no rrset for an empty list.
pub rrset_in-rrset_change :
    (name rtype : Text) (ttl : ℤ) (records : List Rec) (rrsets : List Rrset)
    → rrset_in (canonical name) rtype (apply_change rrsets (rrset_change name rtype ttl records))
      ≡ stored ttl records
unfolding rrset_in
rrset_in-rrset_change name rtype ttl [] rrsets =
    ap (rrset_in (canonical name) rtype) (
      apply_change_delete name rtype ttl rrsets
      ∙ sym (append-nil (others (canonical name) rtype rrsets)))
    ∙ rrset_in-filter (canonical name) rtype rrsets []
rrset_in-rrset_change name rtype ttl (r ∷ rs) rrsets =
    ap (rrset_in (canonical name) rtype) (apply_change_replace name rtype ttl r rs rrsets)
    ∙ rrset_in-filter (canonical name) rtype rrsets _
    ∙ rw (≟_refl (canonical name)) (rw (≟_refl rtype) refl)

-- The change that `replace_rrset` sends leaves what the stand-in holds under any other name or type.
pub rrset_in-rrset_change_ne :
    (name rtype other otype : Text) (ttl : ℤ) (records : List Rec) (rrsets : List Rrset)
    → (other ≢ canonical name) ⊎ (otype ≢ rtype)
    → rrset_in other otype (apply_change rrsets (rrset_change name rtype ttl records))
      ≡ rrset_in other otype rrsets
unfolding rrset_in
rrset_in-rrset_change_ne name rtype other otype ttl [] rrsets h =
    ap (rrset_in other otype) (
      apply_change_delete name rtype ttl rrsets
      ∙ sym (append-nil (others (canonical name) rtype rrsets)))
    ∙ rrset_in-filter_ne (canonical name) rtype other otype rrsets [] h refl
rrset_in-rrset_change_ne name rtype other otype ttl (r ∷ rs) rrsets h =
    ap (rrset_in other otype) (apply_change_replace name rtype ttl r rs rrsets)
    ∙ rrset_in-filter_ne (canonical name) rtype other otype rrsets _ h
        (ground (arith, h, ≟_iff (canonical name) other, ≟_iff rtype otype))
