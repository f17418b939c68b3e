-- ===== src/Zones/Settings.antt =====
-- The mode of a zone, its NOTIFY targets, DNSSEC, and its deletion.
use mojodns.Prelude.{
  Bool, true, false, not, List, [], ◌∷◌, ◌++◌, none, some, map, filter, elem, length, Exec, Result,
  ok, err, value_error, pure, raise, ◌>>=◌, ◌>>◌, try_pdns, if◌then◌else◌, ◌≟◌,
}
use mojodns.Text.{Text, codes, rstrip_char, join}
use mojodns.Pdns.{canonical}
use mojodns.Pdns.Types.{Api}
use mojodns.Pdns.Zones.{set_zone_catalog, set_zone_kind, secure_zone, unsecure_zone}
use mojodns.Pdns.Zones as Client
use mojodns.Pdns.Tsig.{
  set_zone_tsig_keys, ensure_tsig_allow_axfr, zone_tsig_keys, tsig_key_in_use, delete_tsig_key,
}
use mojodns.Pdns.Update.{set_zone_also_notify, get_zone_update_keys}
use mojodns.Idn.{to_unicode}
use mojodns.Notifier.{parse_targets, notify_zone}
use mojodns.Http.{Response}
use mojodns.Db.{User, Db, World, on_server, get_db_state, put_db}
use mojodns.Access.{is_zone_owner}
use mojodns.Zones.Names.{Env, edit_page, zone_page, zones_page}
use mojodns.Zones.Handlers.{cat, show, or_flash, log_zone, say, complain}
use mojodns.Zones.Create.{primary_key}

abbrev is_global : List Text → Text → Bool
is_global names k = elem (canonical k) (map canonical names)

-- The keys of a zone that is to go: those for transfers, and those for updates that are not among
-- them, without the panel's own.
unfoldable pub former_keys : List Text → List Text → List Text → List Text
former_keys names transfer update =
    let former = filter (λ k. not (is_global names k)) transfer in
    former
    ++ filter (λ k. not (elem (canonical k) (map canonical former)))
        (filter (λ k. not (is_global names k)) update)

-- The rows of a zone, gone.
unfoldable pub forget_zone : Text → Db → Db
forget_zone zone db = record db {
  access = filter (λ a. not (a.zone ≟ zone)) db.access;
  checks = filter (λ c. not (c.zone ≟ zone)) db.checks;
}

module _ {S : Type 0} (api : Api S) (env : Env) where
  abbrev bare_name : Text → Text
  bare_name zone = to_unicode env.idna (rstrip_char b'.' zone)

  -- Back in the catalog: the keys that only this zone used are deleted.
  unfoldable pub drop_former : List Text → Exec (World S) (Unit {0})
  drop_former [] = pure tt
  drop_former (kn ∷ ks) = do
    if is_global env.settings.tsig_key_names kn then pure tt else (do
      used ← on_server (tsig_key_in_use api kn none)
      if used then pure tt else on_server (delete_tsig_key api kn))
    drop_former ks

  unfoldable pub to_custom : Text → User → Exec (World S) (Unit {0})
  to_custom zone user = do
    on_server (set_zone_catalog api zone none)
    on_server (set_zone_tsig_keys api zone (primary_key env.settings.tsig_key))
    log_zone user zone (codes "Switch to custom DNS mode")
    say (
        cat (
          bare_name zone
          ∷ codes " is now custom DNS — it left the catalog; add transfer keys for your secondaries"
          ∷ []))

  unfoldable pub to_catalog : Text → User → Exec (World S) (Unit {0})
  to_catalog zone user = do
    former ← on_server (zone_tsig_keys api zone)
    on_server (set_zone_catalog api zone (some env.settings.catalog_zone))
    on_server (set_zone_kind api zone (codes "Master"))
    on_server (set_zone_also_notify api zone [])
    on_server (ensure_tsig_allow_axfr api env.settings.tsig_key_names zone)
    drop_former former
    notify_zone env.dns api zone
    log_zone user zone (codes "Switch to catalog DNS mode")
    say (cat (bare_name zone ∷ codes " is back on the catalog (auto-fleet)" ∷ []))

  unfoldable pub zone_mode : Text → User → Text → Exec (World S) Response
  zone_mode zone user mode = do
    or_flash (
        if mode ≟ codes "custom"
        then to_custom zone user
        else if mode ≟ codes "catalog"
        then to_catalog zone user
        else complain (cat (codes "Unknown mode '" ∷ mode ∷ codes "'" ∷ [])))
    pure (edit_page zone)

  abbrev kind_for : List Text → Text
  kind_for [] = codes "Master"
  kind_for (t ∷ ts) = codes "Native"

  -- What is said of the new list.
  unfoldable pub report_targets : Text → User → List Text → Exec (World S) (Unit {0})
  report_targets zone user [] = do
    log_zone user zone (codes "Set notify targets: (default)")
    say (codes "Notify targets cleared — default behaviour restored")
  report_targets zone user (t ∷ ts) = do
    log_zone user zone (codes "Set notify targets: " ++ join (codes ", ") (t ∷ ts))
    say (cat (codes "Notify targets updated (" ∷ show (length (t ∷ ts)) ∷ codes " server(s))" ∷ []))

  abbrev save_targets : Text → User → Result (List Text) → Exec (World S) (Unit {0})
  save_targets zone user (ok parsed) = do
    saved ←
        try_pdns
          (do
            on_server (set_zone_also_notify api zone parsed)
            on_server (set_zone_kind api zone (kind_for parsed))
            pure true)
          λ status message. (do complain message; pure false)
    if saved then report_targets zone user parsed else pure tt
  save_targets zone user (err (value_error bad)) =
      complain
        (codes "Notify targets must be IPs or hostnames (optionally :port), comma/space separated")
  save_targets zone user (err e) = raise e

  unfoldable pub zone_notify_targets : Text → User → Text → Exec (World S) Response
  zone_notify_targets zone user targets = do
    save_targets zone user (parse_targets env.dns targets)
    pure (edit_page zone)

  -- `if not is_zone_owner(…)` in front of a change of DNSSEC
  abbrev owner_only : Text → User → Exec (World S) (Unit {0}) → Exec (World S) Response
  owner_only zone user change w =
      if not (is_zone_owner w.db user zone)
      then (do
        complain (codes "Only the zone owner or an admin can change DNSSEC")
        pure (edit_page zone))
          w
      else (do or_flash change; pure (edit_page zone)) w

  unfoldable pub zone_dnssec_enable : Text → User → Exec (World S) Response
  zone_dnssec_enable zone user = owner_only zone user (do
    on_server (secure_zone api zone)
    notify_zone env.dns api zone
    log_zone user zone (codes "Enable DNSSEC (CSK ECDSA P-256, NSEC3)")
    say (
        codes
          "DNSSEC enabled — submit the DS record to the registrar to complete the chain of trust"))

  unfoldable pub zone_dnssec_disable : Text → User → Exec (World S) Response
  zone_dnssec_disable zone user = owner_only zone user (do
    on_server (unsecure_zone api zone)
    notify_zone env.dns api zone
    log_zone user zone (codes "Disable DNSSEC")
    say (codes "DNSSEC disabled — remove the DS record at the registrar too"))

  -- Each key on its own: an error of the server leaves that key.
  unfoldable pub drop_keys : List Text → Exec (World S) (Unit {0})
  drop_keys [] = pure tt
  drop_keys (kn ∷ ks) = do
    try_pdns
        (do
          used ← on_server (tsig_key_in_use api kn none)
          if used then pure tt else on_server (delete_tsig_key api kn))
        λ status message. pure tt
    drop_keys ks

  unfoldable pub zone_delete : Text → User → Exec (World S) Response
  zone_delete zone user = do
    former ←
        try_pdns
          (do
            transfer ← on_server (zone_tsig_keys api zone)
            update ← on_server (get_zone_update_keys api zone)
            pure (former_keys env.settings.tsig_key_names transfer update))
          λ status message. pure []
    deleted ←
        try_pdns (do on_server (Client.delete_zone api zone); pure true)
          λ status message. (do complain message; pure false)
    if deleted
        then (do
          drop_keys former
          db ← get_db_state
          put_db (forget_zone zone db)
          log_zone user zone (codes "Delete zone " ++ zone)
          say (cat (codes "Zone " ∷ to_unicode env.idna zone ∷ codes " deleted" ∷ []))
          pure zones_page)
        else pure (edit_page zone)

  unfoldable pub zone_notify : Text → Exec (World S) Response
  zone_notify zone = do
    or_flash (do notify_zone env.dns api zone; say (codes "DNS NOTIFY sent"))
    pure (zone_page zone)
