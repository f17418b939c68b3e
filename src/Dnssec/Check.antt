-- ===== src/Dnssec/Check.antt =====
-- The whole diagnostic of a zone. Times are whole seconds.
pub mod Clean
use mojodns.Prelude.{
  ℕ, Bool, true, false, not, ◌||◌, List, [], ◌∷◌, ◌++◌, Option, none, some, map, filter, any, Exec,
  pure, ◌>>=◌, if◌then◌else◌, ◌≟◌,
}
use mojodns.Text.{Text, codes, ℤ, show_int, join}
use mojodns.Pdns.{canonical}
use mojodns.Pdns.Types.{Api, CryptoKey}
use mojodns.Pdns.Zones as Client
use mojodns.Verify.Resolver.{Resolver, dnssec_status}
use mojodns.Secondaries.{Dns, apex_ns}
use mojodns.Dnssec.Parent.{Ds, int_lt, ds_set, classify_parent, parent_ds}
use mojodns.Dnssec.Nameservers.{NsRow, expires_early, signature_rows}

pub record ParentReport : Type 0 where
  pub state : Text
  pub ds : List Ds
  pub matched : List Ds
  pub extra : List Ds
  pub error : Option Text

-- `verdict`, `nameservers` and `soonest_days` are those of a secured zone.
pub record DnssecReport : Type 0 where
  pub secured : Bool
  pub dangling_ds : Bool
  pub verdict : Option Text
  pub parent : ParentReport
  pub nameservers : List NsRow
  pub soonest_days : Option ℤ
  pub warnings : List Text

abbrev pub is_none : {A : Type 0} → List A → Bool
is_none [] = true
is_none (x ∷ xs) = false

abbrev dangling_warning : Text
dangling_warning =
    codes
      "CRITICAL: the parent publishes a DS record but this zone is NOT signed — validating resolvers treat every answer as BOGUS (SERVFAIL), so the zone is effectively DOWN for anyone who validates. Remove the DS at the registrar, or re-enable DNSSEC."

unfoldable pub unsigned_report : List Ds → Option Text → DnssecReport
unsigned_report parent error = record {
  secured = false;
  dangling_ds = not (is_none parent);
  verdict = none;
  parent = record {
    state = if is_none parent then codes "absent" else codes "dangling";
    ds = parent;
    matched = [];
    extra = parent;
    error = error;
  };
  nameservers = [];
  soonest_days = none;
  warnings = if is_none parent then [] else dangling_warning ∷ [];
}

abbrev pub lesser : ℤ → Option ℤ → Option ℤ
lesser d none = some d
lesser d (some e) = some (if int_lt d e then d else e)

abbrev pub count_days : Option ℤ → Option ℤ → Option ℤ
count_days none soonest = soonest
count_days (some d) soonest = lesser d soonest

-- The least number of days that a row has, if one has any.
unfoldable pub soonest : List NsRow → Option ℤ
soonest [] = none
soonest (r ∷ rs) = count_days r.days_left (soonest rs)

abbrev pub parent_warnings : Text → List Text
parent_warnings state =
    if state ≟ codes "absent"
    then codes
        "No DS at the parent — submit the DS at your registrar to activate the chain of trust."
      ∷ []
    else if state ≟ codes "mismatch"
    then codes
        "The parent's DS matches no active key — validating resolvers will FAIL (bogus). Fix the DS at the registrar."
      ∷ []
    else []

abbrev pub extra_warnings : List Ds → List Text
extra_warnings [] = []
extra_warnings (d ∷ ds) =
    join [] (
      codes "Parent also publishes DS for key tag(s) "
      ∷ join (codes ", ") (map (λ e. show_int e.keytag) (d ∷ ds))
      ∷ codes " not active here — stale; remove after a completed rollover."
      ∷ [])
    ∷ []

abbrev pub is_unsigned : NsRow → Bool
is_unsigned r = r.status ≟ codes "unsigned"

abbrev pub unsigned_warnings : List NsRow → List Text
unsigned_warnings rows =
    if any is_unsigned rows
    then codes "A nameserver is not serving signed data for this zone." ∷ []
    else []

abbrev pub expiry_warnings : Option ℤ → ℤ → List Text
expiry_warnings none warn_days = []
expiry_warnings (some days) warn_days =
    if int_lt days warn_days
    then join [] (
        codes "A secondary's RRSIGs expire in "
        ∷ show_int days
        ∷ codes "d — the re-sign / transfer path may be stalled."
        ∷ [])
      ∷ []
    else []

unfoldable pub secured_report :
    List Ds → Option Text → List Ds → Text → List NsRow → ℤ → DnssecReport
secured_report parent error ours verdict rows warn_days =
    let (state, matched, extra) = classify_parent parent ours in
    let days = soonest rows in
    record {
      secured = true;
      dangling_ds = false;
      verdict = some verdict;
      parent = record {
        state = state;
        ds = parent;
        matched = matched;
        extra = extra;
        error = error;
      };
      nameservers = rows;
      soonest_days = days;
      warnings =
          parent_warnings state
          ++ (extra_warnings extra ++ (unsigned_warnings rows ++ expiry_warnings days warn_days));
    }

unfoldable pub all_ds : List CryptoKey → List Text
all_ds [] = []
all_ds (k ∷ ks) = k.ds ++ all_ds ks

module _ {S : Type 0} (api : Api S) (dns : Dns) (resolver : Resolver) (now : ℕ)
    (warn_days : ℤ) where
  abbrev diagnose : Text → List CryptoKey → Exec S DnssecReport
  diagnose zone [] =
      let (parent, error) = parent_ds resolver zone in pure (unsigned_report parent error)
  diagnose zone (k ∷ ks) =
      let (parent, error) = parent_ds resolver zone in
      apex_ns api zone >>= λ nss. pure (
        secured_report parent error (ds_set (all_ds (k ∷ ks))) (dnssec_status resolver zone)
          (signature_rows dns zone now warn_days nss) warn_days)

  unfoldable pub check_dnssec : Text → Exec S DnssecReport
  check_dnssec zone = do
    keys ← Client.zone_cryptokeys api (canonical zone)
    diagnose (canonical zone) (filter (λ k. k.active) keys)
