-- ===== src/Pdns/Dnssec.antt =====
-- `PdnsClient.zone_dnssec_info`: the records of the active keys for the page of a zone.
pub mod Recommended
use mojodns.Prelude.{
  Bool, true, false, not, ◌&&◌, ◌||◌, List, [], ◌∷◌, ◌++◌, Option, none, some, map, sort_by,
  bool_eq, Exec, pure, ◌>>=◌, if◌then◌else◌, ◌≟◌,
}
use mojodns.Text.{Text, codes, split_words, join, is_empty}
use mojodns.DnsUtil.Rows.{text_lt}
use mojodns.Pdns.Types.{CryptoKey, Api}
use mojodns.Pdns.Zones.{zone_cryptokeys}

pub record Entry : Type 0 where
  pub rdata : Text
  pub comment : Text
  pub recommended : Bool

abbrev third : List Text → Text
third [] = []
third (a ∷ []) = []
third (a ∷ b ∷ []) = []
third (a ∷ b ∷ c ∷ rest) = c

-- `_DS_DIGESTS.get(dtype, …)`
unfoldable pub ds_digest : Text → Text × Text × Bool
ds_digest dtype =
    if dtype ≟ codes "1"
    then (codes "SHA-1", codes "deprecated — most registries reject it", false)
    else if dtype ≟ codes "2"
    then (codes "SHA-256", codes "recommended — submit this one", true)
    else if dtype ≟ codes "4"
    then (codes "SHA-384", codes "optional, stronger", false)
    else (codes "digest type " ++ dtype, [], false)

unfoldable pub ds_entry : Text → Entry
ds_entry rdata =
    let (label, advice, recommended) = ds_digest (third (split_words rdata)) in
    record {
      rdata = rdata;
      comment =
          label ++ (codes " digest" ++ (if is_empty advice then [] else codes " — " ++ advice));
      recommended = recommended;
    }

abbrev first_word : List Text → Text
first_word [] = []
first_word (w ∷ ws) = w

abbrev role_of : Text → Text
role_of flags =
    if flags ≟ codes "257"
    then codes "CSK / key-signing"
    else if flags ≟ codes "256"
    then codes "zone-signing"
    else codes "key"

unfoldable pub dnskey_entry : Text → Entry
dnskey_entry rdata = record {
  rdata = rdata;
  comment = join [] (
      codes "DNSKEY ("
      ∷ role_of (first_word (split_words rdata))
      ∷ codes ") — registrars want the DS above, not this"
      ∷ []);
  recommended = false;
}

-- The order of the keys `(not e["recommended"], e["rdata"])`.
unfoldable pub entry_lt : Entry → Entry → Bool
entry_lt a b =
    (a.recommended && not b.recommended)
    || (bool_eq a.recommended b.recommended && text_lt a.rdata b.rdata)

pub record DnssecInfo : Type 0 where
  pub secured : Bool
  pub ds : List Entry
  pub cds : List Entry
  pub dnskey : List Entry
  pub algorithm : Option Text

abbrev dnskey_list : Option Text → List Entry
dnskey_list none = []
dnskey_list (some []) = []
dnskey_list (some (c ∷ cs)) = dnskey_entry (c ∷ cs) ∷ []

-- `algorithm or k.get("algorithm")`
abbrev or_algorithm : Option Text → Option Text → Option Text
or_algorithm none next = next
or_algorithm (some []) next = next
or_algorithm (some (c ∷ cs)) next = some (c ∷ cs)

-- The loop over the keys, with what is collected so far.
unfoldable pub collect_keys : List CryptoKey → DnssecInfo → DnssecInfo
collect_keys [] info = info
collect_keys (k ∷ ks) info = collect_keys ks (
    if not k.active then info else record info {
      ds = info.ds ++ map ds_entry k.ds;
      cds = info.cds ++ map ds_entry k.cds;
      dnskey = info.dnskey ++ dnskey_list k.dnskey;
      algorithm = or_algorithm info.algorithm k.algorithm;
    })

abbrev pub has_keys : List CryptoKey → Bool
has_keys [] = false
has_keys (k ∷ ks) = true

unfoldable pub dnssec_info : List CryptoKey → DnssecInfo
dnssec_info keys =
    let info =
      collect_keys keys
        (record { secured = has_keys keys; ds = []; cds = []; dnskey = []; algorithm = none }) in
    record info { ds = sort_by entry_lt info.ds; cds = sort_by entry_lt info.cds }

module _ {S : Type 0} (api : Api S) where
  unfoldable pub zone_dnssec_info : Text → Exec S DnssecInfo
  zone_dnssec_info zone = do keys ← zone_cryptokeys api zone; pure (dnssec_info keys)
