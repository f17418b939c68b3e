-- ===== src/Verify/Status.antt =====
-- Where the result of a verification is found.
pub mod Verdict
use mojodns.Prelude.{
  ℕ, true, false, List, [], ◌∷◌, Option, some, find, ◌≟◌, ≟_iff, if◌then◌else◌, ◌≡◌, ◌↔◌, refl,
  arith, ap, ◌∙◌,
}
use mojodns.Text.{Text, codes}
use mojodns.Pdns.Update.{same_set}
use mojodns.Db.{ZoneCheck, Db}
use mojodns.Verify.{CheckResult, overlap, classify, row_of, store_row, store_results, failed}

-- `load_checks(db).get(zone)`
unfoldable pub check_of : Text → List ZoneCheck → Option ZoneCheck
check_of zone rows = find (λ c. c.zone ≟ zone) rows

-- A stored result is the one that is loaded for its zone, and no other zone's changes.
pub check_of-store_row :
    (now : ℕ) (r : CheckResult) (zone : Text) (rows : List ZoneCheck)
    → check_of zone (store_row now r rows)
      ≡ (if r.zone ≟ zone then some (row_of now r) else check_of zone rows)
unfolding check_of store_row find
check_of-store_row now r zone [] = ground arith
check_of-store_row now r zone (c ∷ cs) = ground (
  arith,
  ≟_iff r.zone zone,
  ≟_iff c.zone zone,
  ≟_iff c.zone r.zone,
  check_of-store_row now r zone cs,
)

-- The last result of a zone in a batch, or else what was stored before.
unfoldable pub last_result : ℕ → Text → List CheckResult → Option ZoneCheck → Option ZoneCheck
last_result now zone [] before = before
last_result now zone (r ∷ rs) before =
    last_result now zone rs (if r.zone ≟ zone then some (row_of now r) else before)

-- After a batch of results is stored, what is loaded for a zone is its last result in the batch, or
-- what was stored before if the batch has none.
pub check_of-store_results :
    (now : ℕ) (zone : Text) (rs : List CheckResult) (db : Db)
    → check_of zone (store_results now rs db).checks
      ≡ last_result now zone rs (check_of zone db.checks)
unfolding store_results last_result
check_of-store_results now zone [] db = refl
check_of-store_results now zone (r ∷ rs) db =
    check_of-store_results now zone rs (record db { checks = store_row now r db.checks })
    ∙ ap (last_result now zone rs) (check_of-store_row now r zone db.checks)
