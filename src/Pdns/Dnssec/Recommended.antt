-- ===== src/Pdns/Dnssec/Recommended.antt =====
-- Which DS records the page shows, and in which order.
use mathlib.Core.List.{Perm}
use mojodns.Prelude.{
  true, false, none, List, [], ◌∷◌, ◌++◌, map, append_assoc, append-nil, sort_by, IsOrdered,
  sort_by-IsOrdered, sort_by-Perm, if◌then◌else◌, ◌≡◌, sym, ◌∙◌, subst, Bool-cases, arith, inl, inr,
}
use mojodns.DnsUtil.Order.{text_lt-asym}
use mojodns.Pdns.Types.{CryptoKey}
use mojodns.Pdns.Dnssec.{Entry, DnssecInfo, ds_entry, entry_lt, has_keys, collect_keys, dnssec_info}

entry_lt-asym : (a b : Entry) → entry_lt a b ≡ true → entry_lt b a ≡ false
unfolding entry_lt
entry_lt-asym a b h = ground (arith, text_lt-asym a.rdata b.rdata)

-- The DS records of the active keys, as the server lists them.
abbrev pub active_ds : List CryptoKey → List Entry
active_ds [] = []
active_ds (k ∷ ks) = if k.active then map ds_entry k.ds ++ active_ds ks else active_ds ks

collect_keys-ds :
    (keys : List CryptoKey) (info : DnssecInfo)
    → (collect_keys keys info).ds ≡ info.ds ++ active_ds keys
unfolding collect_keys
collect_keys-ds [] info = sym (append-nil info.ds)
collect_keys-ds (k ∷ ks) info = elim (Bool-cases k.active) [
  | inl e ↦ rw e (collect_keys-ds ks _ ∙ append_assoc info.ds (map ds_entry k.ds) (active_ds ks))
  | inr e ↦ rw e (collect_keys-ds ks info)
]

-- The page lists exactly the DS records of the active keys, the recommended ones first and each group in
-- the order of the records' text.
pub dnssec_info-IsOrdered :
    (keys : List CryptoKey)
    → IsOrdered entry_lt (dnssec_info keys).ds × Perm (dnssec_info keys).ds (active_ds keys)
unfolding dnssec_info
dnssec_info-IsOrdered keys = (
  sort_by-IsOrdered entry_lt entry_lt-asym _,
  subst (λ (l : List Entry). Perm (sort_by entry_lt (collect_keys keys start).ds) l)
      (collect_keys-ds keys start) (sort_by-Perm entry_lt (collect_keys keys start).ds),
)
  where
    start : DnssecInfo
    start = record { secured = has_keys keys; ds = []; cds = []; dnskey = []; algorithm = none }
