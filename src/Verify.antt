-- ===== src/Verify.antt =====
-- app/mojodns/verify.py, but for the DNS queries: comparing the name servers of a zone with those that
-- a resolver sees, and keeping the results. A set is a list of its members.
pub mod Status
pub mod Resolver
use mojodns.Prelude.{
  ℕ, zero, suc, ◌+◌, Bool, true, false, not, ◌&&◌, ◌||◌, List, [], ◌∷◌, ◌++◌, Option, none, some,
  map, filter, any, elem, length, ◌==◌, ◌≟◌, if◌then◌else◌,
}
use mojodns.Text.{Text, codes, starts_with, join, is_empty, show_int, pos}
use mojodns.Pdns.{canonical}
use mojodns.Pdns.Types.{Rrset}
use mojodns.Pdns.Update.{same_set}
use mojodns.DnsUtil.Rows.{text_lt}
use mojodns.Db.{ZoneCheck, Db}

pub record CheckResult : Type 0 where
  pub zone : Text
  pub status : Text
  pub configured : List Text
  pub resolved : List Text
  pub detail : Option Text
  pub dnssec : Option Text

abbrev pub failed : Option Text → Bool
failed none = false
failed (some e) = e ≟ codes "timeout" || e ≟ codes "SERVFAIL" || starts_with (codes "error:") e

-- `configured & resolved`, if it has a member
unfoldable pub overlap : List Text → List Text → Bool
overlap configured resolved = any (λ n. elem n resolved) configured

unfoldable pub classify : List Text → List Text → Option Text → Text
classify configured resolved error =
    if failed error
    then codes "error"
    else if not (overlap configured resolved)
    then codes "mismatch"
    else if same_set configured resolved
    then codes "ok"
    else codes "partial"

unfoldable pub configured_ns : List Rrset → Text → List Text
configured_ns [] zone = []
configured_ns (rr ∷ rrs) zone =
    if rr.rtype ≟ codes "NS" && canonical rr.name ≟ canonical zone
    then map (λ r. canonical r.content) rr.records ++ configured_ns rrs zone
    else configured_ns rrs zone

-- A sorted list without repetitions.
unfoldable pub insert_name : Text → List Text → List Text
insert_name n [] = n ∷ []
insert_name n (x ∷ xs) =
    let rest = insert_name n xs in
    if text_lt n x then n ∷ x ∷ xs else if n ≟ x then x ∷ xs else x ∷ rest

unfoldable pub sorted : List Text → List Text
sorted [] = []
sorted (n ∷ ns) = insert_name n (sorted ns)

-- `" ".join(sorted(r.resolved)) or None`
abbrev or_none : Text → Option Text
or_none [] = none
or_none (c ∷ cs) = some (c ∷ cs)

abbrev pub row_of : ℕ → CheckResult → ZoneCheck
row_of now r = record {
  zone = r.zone;
  status = r.status;
  resolved_ns = or_none (join (b' ' ∷ []) (sorted r.resolved));
  detail = r.detail;
  dnssec = r.dnssec;
  checked_at = now;
}

-- The row of the zone is changed, or added.
unfoldable pub store_row : ℕ → CheckResult → List ZoneCheck → List ZoneCheck
store_row now r [] = row_of now r ∷ []
store_row now r (c ∷ cs) =
    let rest = store_row now r cs in if c.zone ≟ r.zone then row_of now r ∷ cs else c ∷ rest

unfoldable pub store_results : ℕ → List CheckResult → Db → Db
store_results now [] db = db
store_results now (r ∷ rs) db =
    store_results now rs (record db { checks = store_row now r db.checks })

unfoldable pub count_status : Text → List CheckResult → ℕ
count_status s results = length (filter (λ r. r.status ≟ s) results)

-- One part of the summary; a status without results has none.
abbrev part : Text → ℕ → List Text
part s zero = []
part s (suc n) = (show_int (pos (suc n)) ++ b' ' ∷ s) ∷ []

abbrev or_nothing : Text → Text
or_nothing [] = codes "nothing to check"
or_nothing (c ∷ cs) = c ∷ cs

unfoldable pub summarize : List CheckResult → Text
summarize results =
    let of_status : Text → List Text = λ s. part s (count_status s results) in
    or_nothing (
      join (codes ", ") (
        of_status (codes "ok")
        ++ (of_status (codes "partial")
            ++ (of_status (codes "mismatch") ++ of_status (codes "error")))))
