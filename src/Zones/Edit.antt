-- ===== src/Zones/Edit.antt =====
-- What the settings page of a zone shows.
use mojodns.Prelude.{
  Bool, true, false, List, [], ◌∷◌, Option, none, some, filter, not, ◌&&◌, Exec, pure, ◌>>=◌,
  if◌then◌else◌, ◌≟◌,
}
use mojodns.Text.{Text, codes, rstrip_char, is_empty}
use mojodns.Pdns.{canonical, is_custom_zone}
use mojodns.Pdns.Types.{Api, Zone, TsigKey}
use mojodns.Pdns.Zones as Client
use mojodns.Pdns.Dnssec.{DnssecInfo, zone_dnssec_info}
use mojodns.Pdns.Tsig.{get_tsig_key}
use mojodns.Pdns.Update.{get_zone_also_notify, get_zone_update_keys, get_zone_update_ips}
use mojodns.DnsUtil.Rows.{flatten_rrsets}
use mojodns.DnsUtil.Soa.{Soa}
use mojodns.Db.{World, on_server}
use mojodns.Zones.Names.{Env}
use mojodns.Zones.Records.{lift}

pub record KeyRow : Type 0 where
  pub name : Text
  pub algorithm : Text
  pub secret : Text

pub record ZoneEdit : Type 0 where
  pub soa : Option Soa
  pub custom : Bool
  pub per_zone_keys : List KeyRow
  pub notify_targets : List Text
  pub update_keys : List KeyRow
  pub update_ips : List Text
  pub dnssec : DnssecInfo

abbrev text_or : Option Text → Text
text_or none = []
text_or (some t) = t

-- A key that the server does not have is shown with a question mark.
abbrev key_row : Text → Option TsigKey → KeyRow
key_row name none = record { name = name; algorithm = codes "?"; secret = [] }
key_row name (some k) = record { name = name; algorithm = k.algorithm; secret = text_or k.secret }

abbrev is_primary : Text → Text → Bool
is_primary tsig_key kid = not (is_empty tsig_key) && kid ≟ canonical tsig_key

module _ {S : Type 0} (api : Api S) (env : Env) where
  -- One row for each key, its name as `show` writes it.
  unfoldable pub key_rows : (Text → Text) → List Text → Exec (World S) (List KeyRow)
  key_rows show [] = pure []
  key_rows show (kid ∷ kids) = do
    k ← on_server (get_tsig_key api kid)
    rows ← key_rows show kids
    pure (key_row (show kid) k ∷ rows)

  -- The keys of a custom zone, without the master's own.
  unfoldable pub per_zone_keys : Bool → Zone → Exec (World S) (List KeyRow)
  per_zone_keys false zdata = pure []
  per_zone_keys true zdata =
      key_rows (rstrip_char b'.')
        (filter (λ kid. not (is_primary env.settings.tsig_key kid)) zdata.master_tsig_key_ids)

  unfoldable pub zone_edit : Text → Exec (World S) ZoneEdit
  zone_edit zone = do
    zdata ← on_server (Client.get_zone api zone)
    flat ← lift (flatten_rrsets zdata.rrsets)
    let custom = is_custom_zone zdata env.settings.catalog_zone
    keys ← per_zone_keys custom zdata
    targets ← if custom then on_server (get_zone_also_notify api zone) else pure []
    names ← on_server (get_zone_update_keys api zone)
    update ← key_rows (λ n. n) names
    ips ← on_server (get_zone_update_ips api zone)
    info ← on_server (zone_dnssec_info api zone)
    pure (record {
      soa = flat.0;
      custom = custom;
      per_zone_keys = keys;
      notify_targets = targets;
      update_keys = update;
      update_ips = ips;
      dnssec = info;
    })
