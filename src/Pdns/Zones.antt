-- ===== src/Pdns/Zones.antt =====
-- The methods of PdnsClient on zones, rrsets and DNSSEC keys. A body of another shape than the code
-- expects is a crash.
use mojodns.Prelude.{
  Bool, true, false, List, [], ◌∷◌, Option, none, some, Exec, pdns_error, crash, pure, raise, ◌>>=◌,
  ◌>>◌, try_pdns, if◌then◌else◌, ◌==◌,
}
use mojodns.Text.{Text, ℤ, codes}
use mojodns.Pdns.{canonical}
use mojodns.Pdns.Types.{Rec, Change, Zone, CryptoKey, ZoneField, Request, Body, Api}
use mojodns.Pdns.Client.{req}

abbrev pub as_zone : {S : Type 0} → Body → Exec S Zone
as_zone (Body.zone z) = pure z
as_zone Body.empty = raise crash
as_zone (Body.zones z) = raise crash
as_zone (Body.cryptokeys k) = raise crash
as_zone (Body.metadata m) = raise crash
as_zone (Body.tsigkeys k) = raise crash
as_zone (Body.tsigkey k) = raise crash

abbrev pub as_zones : {S : Type 0} → Body → Exec S (List Zone)
as_zones (Body.zones zs) = pure zs
as_zones (Body.zone z) = raise crash
as_zones Body.empty = raise crash
as_zones (Body.cryptokeys k) = raise crash
as_zones (Body.metadata m) = raise crash
as_zones (Body.tsigkeys k) = raise crash
as_zones (Body.tsigkey k) = raise crash

-- `… or []`: an empty body is no key.
abbrev pub as_cryptokeys : {S : Type 0} → Body → Exec S (List CryptoKey)
as_cryptokeys (Body.cryptokeys ks) = pure ks
as_cryptokeys Body.empty = pure []
as_cryptokeys (Body.zone z) = raise crash
as_cryptokeys (Body.zones zs) = raise crash
as_cryptokeys (Body.metadata m) = raise crash
as_cryptokeys (Body.tsigkeys k) = raise crash
as_cryptokeys (Body.tsigkey k) = raise crash

-- An empty list deletes the rrset.
unfoldable pub rrset_change : Text → Text → ℤ → List Rec → Change
rrset_change name rtype ttl [] = record {
  name = some (canonical name);
  rtype = some rtype;
  changetype = some (codes "DELETE");
  ttl = none;
  records = [];
}
rrset_change name rtype ttl (r ∷ rs) = record {
  name = some (canonical name);
  rtype = some rtype;
  changetype = some (codes "REPLACE");
  ttl = some ttl;
  records = r ∷ rs;
}

module _ {S : Type 0} (api : Api S) where
  unfoldable pub list_zones : Exec S (List Zone)
  list_zones = do b ← req api Request.list_zones; as_zones b

  unfoldable pub get_zone : Text → Exec S Zone
  get_zone zone = do b ← req api (Request.get_zone (canonical zone)); as_zone b

  unfoldable pub zone_exists : Text → Exec S Bool
  zone_exists zone =
      try_pdns (do req api (Request.get_zone (canonical zone)); pure true)
        λ status message. if status == 404 then pure false else raise (pdns_error status message)

  unfoldable pub create_zone : Text → Text → Option Text → List Change → Exec S (Unit {0})
  create_zone zone kind catalog rrsets = do
    req api (
        Request.post_zone (record {
          name = canonical zone;
          kind = kind;
          catalog = elim catalog [ none ↦ none | some c ↦ some (canonical c) ];
          rrsets = rrsets;
        }))
    pure tt

  unfoldable pub delete_zone : Text → Exec S (Unit {0})
  delete_zone zone = do req api (Request.delete_zone (canonical zone)); pure tt

  unfoldable pub notify : Text → Exec S (Unit {0})
  notify zone = do req api (Request.put_notify (canonical zone)); pure tt

  unfoldable pub patch_rrsets : Text → List Change → Exec S (Unit {0})
  patch_rrsets zone rrsets = do req api (Request.patch_zone (canonical zone) rrsets); pure tt

  unfoldable pub replace_rrset : Text → Text → Text → ℤ → List Rec → Exec S (Unit {0})
  replace_rrset zone name rtype ttl contents =
      patch_rrsets zone (rrset_change name rtype ttl contents ∷ [])

  unfoldable pub set_zone_catalog : Text → Option Text → Exec S (Unit {0})
  set_zone_catalog zone catalog = do
    req api (
        Request.put_zone (canonical zone)
          (ZoneField.catalog (elim catalog [ none ↦ [] | some c ↦ canonical c ])))
    pure tt

  unfoldable pub set_zone_kind : Text → Text → Exec S (Unit {0})
  set_zone_kind zone kind = do
    req api (Request.put_zone (canonical zone) (ZoneField.kind kind))
    pure tt

  unfoldable pub zone_cryptokeys : Text → Exec S (List CryptoKey)
  zone_cryptokeys zone = do b ← req api (Request.get_cryptokeys (canonical zone)); as_cryptokeys b

  unfoldable pub rectify_zone : Text → Exec S (Unit {0})
  rectify_zone zone = do req api (Request.put_rectify (canonical zone)); pure tt

  -- `if not self.zone_cryptokeys(zone): POST`
  unfoldable pub ensure_cryptokey : Text → List CryptoKey → Exec S (Unit {0})
  ensure_cryptokey zone [] = do req api (Request.post_cryptokey (canonical zone)); pure tt
  ensure_cryptokey zone (k ∷ ks) = pure tt

  unfoldable pub secure_zone : Text → Exec S (Unit {0})
  secure_zone zone = do
    keys ← zone_cryptokeys zone
    ensure_cryptokey zone keys
    req api (Request.put_zone (canonical zone) (ZoneField.nsec3 (codes "1 0 0 -") (some false)))
    rectify_zone zone

  unfoldable pub delete_cryptokeys : Text → List CryptoKey → Exec S (Unit {0})
  delete_cryptokeys zone [] = pure tt
  delete_cryptokeys zone (k ∷ ks) = do
    req api (Request.delete_cryptokey (canonical zone) k.id)
    delete_cryptokeys zone ks

  unfoldable pub clear_cryptokeys : Text → List CryptoKey → Exec S (Unit {0})
  clear_cryptokeys zone [] = pure tt
  clear_cryptokeys zone (k ∷ ks) = do
    req api (Request.put_zone (canonical zone) (ZoneField.nsec3 [] none))
    delete_cryptokeys zone (k ∷ ks)

  unfoldable pub unsecure_zone : Text → Exec S (Unit {0})
  unsecure_zone zone = do keys ← zone_cryptokeys zone; clear_cryptokeys zone keys
