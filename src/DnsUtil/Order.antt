-- ===== src/DnsUtil/Order.antt =====
-- The table of records: in order, and with every row of the zone.
use mathlib.Core.List.{Perm}
use mathlib.Core.Bool.{false≢true}
use mojodns.Prelude.{
  Bool, any, not, ◌&&◌, ◌||◌, is_ok, sort_by, IsOrdered, sort_by-IsOrdered, sort_by-Perm, true,
  false, List, [], ◌∷◌, ◌++◌, map, Option, none, Result, ok, err, ◌≟◌, ≟_iff, ◌≡◌, inl, inr, refl,
  sym, ◌∙◌, subst, append_assoc, append-nil, if◌then◌else◌, Bool-cases, arith,
}
use mojodns.Text.{Text, codes}
use mojodns.Pdns.Types.{Rec, Rrset}
use mojodns.DnsUtil.Soa.{Soa}
use mojodns.DnsUtil.Rows.{
  Row, text_lt, row_lt, row_of, collect, soa_of, and_then, sorted, flatten_rrsets,
}

pub text_lt-asym : (s t : Text) → text_lt s t ≡ true → text_lt t s ≡ false
unfolding text_lt
text_lt-asym [] [] h = cc
text_lt-asym [] (y ∷ ys) h = refl
text_lt-asym (x ∷ xs) [] h = cc
text_lt-asym (x ∷ xs) (y ∷ ys) h = ground (arith, text_lt-asym xs ys)

text_lt_irrefl : (s : Text) → text_lt s s ≡ false
unfolding text_lt
text_lt_irrefl [] = refl
text_lt_irrefl (x ∷ xs) = ground (arith, text_lt_irrefl xs)

text_lt_ne : (s t : Text) → text_lt s t ≡ true → (t ≟ s) ≡ false
text_lt_ne s t h = elim (Bool-cases (t ≟ s)) [
  | inr e ↦ e
  | inl e ↦
      let same : t ≡ s = (≟_iff t s).0 e in
      absurd (false≢true (sym (text_lt_irrefl s) ∙ subst (λ (u : Text). text_lt s u ≡ true) same h))
]

≟_sym : (s t : Text) → (s ≟ t) ≡ true → (t ≟ s) ≡ true
≟_sym s t h = (≟_iff t s).1 (sym ((≟_iff s t).0 h))

row_lt-asym : (a b : Row) → row_lt a b ≡ true → row_lt b a ≡ false
unfolding row_lt
row_lt-asym a b h = ground (
  arith,
  text_lt-asym a.name b.name,
  text_lt-asym a.rtype b.rtype,
  text_lt-asym a.content b.content,
  text_lt_ne a.name b.name,
  text_lt_ne a.rtype b.rtype,
  text_lt_ne b.name a.name,
  text_lt_ne b.rtype a.rtype,
  ≟_sym b.name a.name,
  ≟_sym b.rtype a.rtype,
)

-- The rows of a zone in the order that the server lists them: one for each record but those of the SOA.
abbrev pub table : List Rrset → List Row
table [] = []
table (rr ∷ rrs) =
    if rr.rtype ≟ codes "SOA" then table rrs else map (row_of rr) rr.records ++ table rrs

abbrev Between : List Row → List Row → Result (Option Soa × List Row) → Type 0
Between rows more (ok (soa, out)) = out ≡ rows ++ more
Between rows more (err e) = Unit

abbrev Collected : List Row → List Rrset → Result (Option Soa × List Row) → Type 0
Collected rows rrs r = Between rows (table rrs) r

Collected-soa :
    (rows : List Row) (rrs : List Rrset) (r : Result (Option Soa))
    → ((s : Option Soa) → Collected rows rrs (collect rrs s rows))
    → Collected rows rrs (and_then r (λ s. collect rrs s rows))
Collected-soa rows rrs (ok s) h = h s
Collected-soa rows rrs (err e) h = tt

Collected-rows :
    (rows more : List Row) (rrs : List Rrset) (r : Result (Option Soa × List Row))
    → Collected (rows ++ more) rrs r
    → Between rows (more ++ table rrs) r
Collected-rows rows more rrs (ok (soa, out)) h = h ∙ append_assoc rows more (table rrs)
Collected-rows rows more rrs (err e) h = tt

collect-Collected :
    (rrs : List Rrset) (soa : Option Soa) (rows : List Row)
    → Collected rows rrs (collect rrs soa rows)
unfolding collect
collect-Collected [] soa rows = sym (append-nil rows)
collect-Collected (rr ∷ rrs) soa rows = elim (Bool-cases (rr.rtype ≟ codes "SOA")) [
  | inl e ↦
      rw e (Collected-soa rows rrs (soa_of soa rr.records) (λ s. collect-Collected rrs s rows))
  | inr e ↦ rw e (
      Collected-rows rows (map (row_of rr) rr.records) rrs _
        (collect-Collected rrs soa (rows ++ map (row_of rr) rr.records)))
]

-- An SOA rrset whose first record does not parse.
abbrev pub is_bad_soa : Rrset → Bool
is_bad_soa rr = rr.rtype ≟ codes "SOA" && not (is_ok (soa_of none rr.records))

-- What the table of a zone is: in order of name, type and content, with each row of the zone as often as
-- the server lists it.
abbrev pub IsTable : List Rrset → Result (Option Soa × List Row) → Type 0
IsTable rrsets (ok (soa, rows)) =
    IsOrdered row_lt rows × Perm rows (table rrsets) × (any is_bad_soa rrsets ≡ false)
IsTable rrsets (err e) = any is_bad_soa rrsets ≡ true

is_ok-soa_of : (a b : Option Soa) (rs : List Rec) → is_ok (soa_of a rs) ≡ is_ok (soa_of b rs)
is_ok-soa_of a b [] = refl
is_ok-soa_of a b (r ∷ rs) = refl

is_ok-collect :
    (rrs : List Rrset) (soa : Option Soa) (rows : List Row)
    → any is_bad_soa rrs ≡ not (is_ok (collect rrs soa rows))
unfolding collect any
is_ok-collect [] soa rows = refl
is_ok-collect (rr ∷ rrs) soa rows = elim (Bool-cases (rr.rtype ≟ codes "SOA")) [
  | inr e ↦ rw e (is_ok-collect rrs soa (rows ++ map (row_of rr) rr.records))
  | inl e ↦ rw e (
      rw (is_ok-soa_of none soa rr.records)
        (parsed (soa_of soa rr.records) (λ s. is_ok-collect rrs s rows)))
]
  where
    parsed :
        (r : Result (Option Soa))
        → ((s : Option Soa) → any is_bad_soa rrs ≡ not (is_ok (collect rrs s rows)))
        → (not (is_ok r) || any is_bad_soa rrs) ≡ not (is_ok (and_then r (λ s. collect rrs s rows)))
    parsed (ok s) h = h s
    parsed (err e) h = refl

IsTable-of :
    (rrsets : List Rrset) (r : Result (Option Soa × List Row))
    → Collected [] rrsets r
    → any is_bad_soa rrsets ≡ not (is_ok r)
    → IsTable rrsets (sorted r)
IsTable-of rrsets (ok (soa, rows)) h b = (
  sort_by-IsOrdered row_lt row_lt-asym rows,
  subst (λ (t : List Row). Perm (sort_by row_lt rows) t) h (sort_by-Perm row_lt rows),
  b,
)
IsTable-of rrsets (err e) h b = b

-- Unless the first record of an SOA rrset does not parse, `flatten_rrsets` returns; its rows are then in
-- order of name, type and content, and are a permutation of one row for each record that is no SOA.
pub flatten_rrsets-IsTable : (rrsets : List Rrset) → IsTable rrsets (flatten_rrsets rrsets)
unfolding flatten_rrsets
flatten_rrsets-IsTable rrsets =
    IsTable-of rrsets (collect rrsets none []) (collect-Collected rrsets none [])
      (is_ok-collect rrsets none [])
