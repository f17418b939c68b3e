-- ===== src/Pdns/Update.antt =====
-- The methods of PdnsClient on metadata, NOTIFY targets and the permissions of RFC 2136 updates.
pub mod Stores
pub mod Access
use mojodns.Prelude.{
  ℕ, Bool, true, false, List, [], ◌∷◌, ◌++◌, map, all, elem, ◌&&◌, Exec, Result, ok, err, Error,
  http_error, pdns_error, value_error, crash, pure, raise, ◌>>=◌, ◌>>◌, continue, try_pdns,
  if◌then◌else◌, ◌==◌,
}
use mojodns.Text.{Text, codes, rstrip_char, lower}
use mojodns.Pdns.{canonical}
use mojodns.Pdns.Types.{Request, Body, Api}
use mojodns.Pdns.Client.{req}

abbrev pub tsig_allow : Text
tsig_allow = codes "TSIG-ALLOW-DNSUPDATE"

abbrev pub allow_from : Text
allow_from = codes "ALLOW-DNSUPDATE-FROM"

-- `(r or {}).get("metadata", [])`
abbrev pub as_metadata : {S : Type 0} → Body → Exec S (List Text)
as_metadata (Body.metadata ms) = pure ms
as_metadata Body.empty = pure []
as_metadata (Body.zone z) = pure []
as_metadata (Body.zones zs) = raise crash
as_metadata (Body.cryptokeys k) = raise crash
as_metadata (Body.tsigkeys k) = raise crash
as_metadata (Body.tsigkey k) = pure []

abbrev pub update_any : List Text
update_any = codes "0.0.0.0/0" ∷ codes "::/0" ∷ []

-- `set(xs) == set(ys)`
unfoldable pub same_set : List Text → List Text → Bool
same_set xs ys = all (λ x. elem x ys) xs && all (λ y. elem y xs) ys

-- `cidrs if cidrs else self.UPDATE_ANY`
abbrev pub or_any : List Text → List Text
or_any [] = update_any
or_any (c ∷ cs) = c ∷ cs

module _ {S : Type 0} (api : Api S) where
  unfoldable pub set_zone_metadata : Text → Text → List Text → Exec S (Unit {0})
  set_zone_metadata zone kind values = do
    req api (Request.put_metadata (canonical zone) kind values)
    pure tt

  unfoldable pub get_zone_metadata : Text → Text → Exec S (List Text)
  get_zone_metadata zone kind =
      try_pdns (do b ← req api (Request.get_metadata (canonical zone) kind); as_metadata b)
        λ status message. if status == 404 then pure [] else raise (pdns_error status message)

  unfoldable pub delete_zone_metadata : Text → Text → Exec S (Unit {0})
  delete_zone_metadata zone kind =
      try_pdns (do req api (Request.delete_metadata (canonical zone) kind); pure tt)
        λ status message. if status == 404 then pure tt else raise (pdns_error status message)

  unfoldable pub get_zone_also_notify : Text → Exec S (List Text)
  get_zone_also_notify zone = get_zone_metadata zone (codes "ALSO-NOTIFY")

  unfoldable pub set_zone_also_notify : Text → List Text → Exec S (Unit {0})
  set_zone_also_notify zone [] = delete_zone_metadata zone (codes "ALSO-NOTIFY")
  set_zone_also_notify zone (t ∷ ts) = set_zone_metadata zone (codes "ALSO-NOTIFY") (t ∷ ts)

  unfoldable pub get_zone_update_keys : Text → Exec S (List Text)
  get_zone_update_keys zone = do
    ks ← get_zone_metadata zone tsig_allow
    pure (map (rstrip_char b'.') ks)

  unfoldable pub get_zone_update_ips : Text → Exec S (List Text)
  get_zone_update_ips zone = do
    ips ← get_zone_metadata zone allow_from
    pure (if same_set ips update_any then [] else ips)

  unfoldable pub write_update_access : Text → List Text → List Text → Exec S (Unit {0})
  write_update_access zone [] cidrs = do
    delete_zone_metadata zone tsig_allow
    delete_zone_metadata zone allow_from
  write_update_access zone (k ∷ ks) cidrs = do
    set_zone_metadata zone tsig_allow (map (λ k. lower (rstrip_char b'.' k)) (k ∷ ks))
    set_zone_metadata zone allow_from (or_any cidrs)

  unfoldable pub set_zone_update_keys : Text → List Text → Exec S (Unit {0})
  set_zone_update_keys zone names = do
    ips ← get_zone_update_ips zone
    write_update_access zone names ips

  unfoldable pub set_zone_update_ips : Text → List Text → Exec S (Unit {0})
  set_zone_update_ips zone cidrs = do
    keys ← get_zone_update_keys zone
    write_update_access zone keys cidrs
