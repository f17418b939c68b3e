-- ===== src/Dnssec/Parent.antt =====
-- The DS records of the parent against those of the keys.
pub mod Match
use mojodns.Prelude.{
  ℕ, Bool, true, false, not, ◌&&◌, ◌||◌, List, [], ◌∷◌, ◌++◌, Option, none, some, any, filter, ltb,
  if◌then◌else◌, ◌==◌, ◌≟◌,
}
use mojodns.Text.{Text, codes, ℤ, pos, negsuc, split_words, parse_int, lower, join}
use mojodns.DnsUtil.Rows.{text_lt}
use mojodns.Verify.Resolver.{
  Resolved, records, nxdomain, no_answer, no_nameservers, resolve_timeout, resolve_error, Resolver,
}
use mojodns.Pdns.{canonical}

pub record Ds : Type 0 where
  pub keytag : ℤ
  pub algorithm : ℤ
  pub digest_type : ℤ
  pub digest : Text

abbrev build : Option ℤ → Option ℤ → Option ℤ → Text → Option Ds
build (some t) (some a) (some d) digest =
    some (record { keytag = t; algorithm = a; digest_type = d; digest = digest })
build (some t) (some a) none digest = none
build (some t) none d digest = none
build none a d digest = none

abbrev ds_of : List Text → Option Ds
ds_of (p ∷ q ∷ r ∷ s ∷ rest) =
    build (parse_int p) (parse_int q) (parse_int r) (lower (join [] (s ∷ rest)))
ds_of (p ∷ q ∷ r ∷ []) = none
ds_of (p ∷ q ∷ []) = none
ds_of (p ∷ []) = none
ds_of [] = none

unfoldable pub ds_tuple : Text → Option Ds
ds_tuple rdata = ds_of (split_words rdata)

abbrev pub int_eq : ℤ → ℤ → Bool
int_eq (pos m) (pos n) = m == n
int_eq (pos m) (negsuc n) = false
int_eq (negsuc m) (pos n) = false
int_eq (negsuc m) (negsuc n) = m == n

abbrev pub int_lt : ℤ → ℤ → Bool
int_lt (pos m) (pos n) = ltb m n
int_lt (pos m) (negsuc n) = false
int_lt (negsuc m) (pos n) = true
int_lt (negsuc m) (negsuc n) = ltb n m

unfoldable pub ds_eq : Ds → Ds → Bool
ds_eq a b =
    int_eq a.keytag b.keytag
    && (int_eq a.algorithm b.algorithm
        && (int_eq a.digest_type b.digest_type && a.digest ≟ b.digest))

-- The order of the tuples.
unfoldable pub ds_lt : Ds → Ds → Bool
ds_lt a b =
    int_lt a.keytag b.keytag
    || (int_eq a.keytag b.keytag
        && (int_lt a.algorithm b.algorithm
            || (int_eq a.algorithm b.algorithm
                && (int_lt a.digest_type b.digest_type
                    || (int_eq a.digest_type b.digest_type && text_lt a.digest b.digest)))))

unfoldable pub has_ds : Ds → List Ds → Bool
has_ds d ds = any (λ e. ds_eq d e) ds

unfoldable pub insert_ds : Ds → List Ds → List Ds
insert_ds d [] = d ∷ []
insert_ds d (e ∷ es) =
    let rest = insert_ds d es in
    if ds_lt d e then d ∷ e ∷ es else if ds_eq d e then e ∷ es else e ∷ rest

abbrev add_ds : Option Ds → List Ds → List Ds
add_ds none ds = ds
add_ds (some d) ds = insert_ds d ds

-- `{t for t in (_ds_tuple(d) for d in texts) if t}`
unfoldable pub ds_set : List Text → List Ds
ds_set [] = []
ds_set (t ∷ ts) = add_ds (ds_tuple t) (ds_set ts)

-- The state, the records of the parent that are ours, and those that are not.
unfoldable pub classify_parent : List Ds → List Ds → Text × List Ds × List Ds
classify_parent [] ours = (codes "absent", [], [])
classify_parent (p ∷ ps) ours =
    let matched = filter (λ d. has_ds d ours) (p ∷ ps) in
    let extra = filter (λ d. not (has_ds d ours)) (p ∷ ps) in
    if any (λ d. has_ds d ours) (p ∷ ps)
    then (codes "ok", matched, extra)
    else (codes "mismatch", [], extra)

abbrev ds_result : Resolved → List Ds × Option Text
ds_result (records texts) = (ds_set texts, none)
ds_result no_answer = ([], none)
ds_result nxdomain = ([], some (codes "NXDOMAIN"))
ds_result no_nameservers = ([], some (codes "SERVFAIL"))
ds_result resolve_timeout = ([], some (codes "timeout"))
ds_result (resolve_error e) = ([], some (codes "error: " ++ e))

unfoldable pub parent_ds : Resolver → Text → List Ds × Option Text
parent_ds resolver zone = ds_result (resolver.resolve (canonical zone) (codes "DS"))
