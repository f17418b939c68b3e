-- ===== src/Pdns/Tsig.antt =====
-- The methods of PdnsClient on TSIG keys: who may transfer a zone, and the life of a key.
use mojodns.Prelude.{
  Bool, true, false, List, [], ◌∷◌, Option, none, some, map, elem, Exec, pdns_error, crash, pure,
  raise, ◌>>=◌, ◌>>◌, try_pdns, if◌then◌else◌, ◌==◌, ◌≟◌,
}
use mojodns.Text.{Text, codes, rstrip_char}
use mojodns.Pdns.{canonical}
use mojodns.Pdns.Types.{Zone, TsigKey, ZoneField, Request, Body, Api}
use mojodns.Pdns.Client.{req}
use mojodns.Pdns.Zones.{list_zones, get_zone, zone_exists, create_zone}
use mojodns.Pdns.Update.{get_zone_update_keys}

abbrev as_tsigkey : {S : Type 0} → Body → Exec S (Option TsigKey)
as_tsigkey (Body.tsigkey k) = pure (some k)
as_tsigkey Body.empty = pure none
as_tsigkey (Body.tsigkeys ks) = raise crash
as_tsigkey (Body.zone z) = raise crash
as_tsigkey (Body.zones zs) = raise crash
as_tsigkey (Body.cryptokeys k) = raise crash
as_tsigkey (Body.metadata m) = raise crash

-- An empty secret is left out: the server makes one.
abbrev given : Option Text → Option Text
given none = none
given (some []) = none
given (some (c ∷ cs)) = some (c ∷ cs)

-- `z["name"] == skip`, with `skip` the canonical form of a zone or None
abbrev skipped : Option Text → Text → Bool
skipped none name = false
skipped (some []) name = false
skipped (some (c ∷ cs)) name = name ≟ canonical (c ∷ cs)

module _ {S : Type 0} (api : Api S) where
  unfoldable pub set_zone_tsig_keys : Text → List Text → Exec S (Unit {0})
  set_zone_tsig_keys zone names = do
    req api
        (Request.put_zone (canonical zone) (ZoneField.master_tsig_key_ids (map canonical names)))
    pure tt

  unfoldable pub ensure_tsig_allow_axfr : List Text → Text → Exec S (Unit {0})
  ensure_tsig_allow_axfr [] zone = pure tt
  ensure_tsig_allow_axfr (n ∷ ns) zone = set_zone_tsig_keys zone (n ∷ ns)

  unfoldable pub zone_tsig_keys : Text → Exec S (List Text)
  zone_tsig_keys zone = do
    zdata ← get_zone api zone
    pure (map (rstrip_char b'.') zdata.master_tsig_key_ids)

  unfoldable pub get_tsig_key : Text → Exec S (Option TsigKey)
  get_tsig_key name =
      try_pdns (do b ← req api (Request.get_tsigkey (canonical name)); as_tsigkey b)
        λ status message. if status == 404 then pure none else raise (pdns_error status message)

  unfoldable pub create_tsig_key : Text → Text → Option Text → Exec S (Unit {0})
  create_tsig_key name algorithm secret = do
    req api (
        Request.post_tsigkey
          (record { name = rstrip_char b'.' name; algorithm = algorithm; secret = given secret }))
    pure tt

  unfoldable pub delete_tsig_key : Text → Exec S (Unit {0})
  delete_tsig_key name = do req api (Request.delete_tsigkey (canonical name)); pure tt

  -- The loop of `tsig_key_in_use` over the zones.
  unfoldable pub any_zone_uses : Text → Text → Option Text → List Zone → Exec S Bool
  any_zone_uses cname bare skip [] = pure false
  any_zone_uses cname bare skip (z ∷ zs) =
      if skipped skip z.name then any_zone_uses cname bare skip zs else (do
        zdata ← get_zone api z.name
        if elem cname zdata.master_tsig_key_ids then pure true else (do
          keys ← get_zone_update_keys api z.name
          if elem bare keys then pure true else any_zone_uses cname bare skip zs))

  unfoldable pub tsig_key_in_use : Text → Option Text → Exec S Bool
  tsig_key_in_use name except_zone = do
    zones ← list_zones api
    any_zone_uses (canonical name) (rstrip_char b'.' name) except_zone zones

  unfoldable pub ensure_catalog_zone : List Text → Text → Exec S (Unit {0})
  ensure_catalog_zone tsig_key_names cat = do
    there ← zone_exists api cat
    if there then pure tt else create_zone api cat (codes "Producer") none []
    ensure_tsig_allow_axfr tsig_key_names cat
