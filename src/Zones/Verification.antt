-- ===== src/Zones/Verification.antt =====
-- Verifying zones, and the page of a zone.
use mojodns.Prelude.{
  Bool, not, ◌&&◌, List, [], ◌∷◌, ◌++◌, Option, none, some, map, filter, elem, length, Exec, pure,
  ◌>>=◌, ◌>>◌, try_pdns, if◌then◌else◌, ◌≟◌,
}
use mojodns.Text.{Text, codes, split_words}
use mojodns.Pdns.{canonical, is_custom_zone}
use mojodns.Pdns.Types.{Api, Zone}
use mojodns.Pdns.Zones as Client
use mojodns.DnsUtil.Rows.{Row, flatten_rrsets}
use mojodns.DnsUtil.Soa.{Soa}
use mojodns.Verify.{store_results, summarize}
use mojodns.Verify.Status.{check_of}
use mojodns.Verify.Resolver.{Resolver, check_zone, check_zones}
use mojodns.Http.{Response}
use mojodns.Db.{
  User, ZoneAccess, ZoneCheck, Db, World, is_admin, on_server, get_db_state, put_db, get_now,
  log_history, user_by_id, flash,
}
use mojodns.Access.{user_zones}
use mojodns.Zones.Names.{Env, zone_page, zones_page}
use mojodns.Zones.Handlers.{cat, show, log_zone, complain}
use mojodns.Zones.Records.{lift}

-- The mark of a row: none where nothing is known or the row is no NS record of the apex.
abbrev resolved_of : Option Text → List Text
resolved_of none = []
resolved_of (some t) = split_words t

abbrev mark_of : Text → ZoneCheck → Row → Option Bool
mark_of zone c r =
    if r.rtype ≟ codes "NS" && canonical r.name ≟ zone
    then some (elem r.content (resolved_of c.resolved_ns))
    else none

unfoldable pub mark_ns : List Row → Text → Option ZoneCheck → List (Row × Option Bool)
mark_ns records zone none = map (λ r. (r, none)) records
mark_ns records zone (some c) =
    if c.status ≟ codes "error"
    then map (λ r. (r, none)) records
    else map (λ r. (r, mark_of zone c r)) records

-- The login of the owner of a zone: the users joined with the grants that make an owner.
abbrev login_or : Option User → Option ZoneAccess → Option Text
login_or (some u) g = some u.login
login_or none g = none

unfoldable pub owner_login : Db → Text → List ZoneAccess → Option Text
owner_login db zone [] = none
owner_login db zone (a ∷ as') =
    if a.zone ≟ zone && a.is_owner
    then login_or (user_by_id db a.user_id) (some a)
    else owner_login db zone as'

-- What the page of a zone shows.
pub record ZoneView : Type 0 where
  pub soa : Option Soa
  pub records : List (Row × Option Bool)
  pub owner : Text
  pub check : Option ZoneCheck
  pub custom : Bool

abbrev or_dash : Option Text → Text
or_dash none = codes "—"
or_dash (some []) = codes "—"
or_dash (some (c ∷ cs)) = c ∷ cs

abbrev with_detail : Text → Text → Option Text → Text → Text
with_detail status before none after = status
with_detail status before (some []) after = status
with_detail status before (some (c ∷ cs)) after = cat (status ∷ before ∷ (c ∷ cs) ∷ after ∷ [])

-- The results of the zones that are listed.
unfoldable pub prune_checks : List Text → Db → Db
prune_checks names db = record db { checks = filter (λ c. elem c.zone names) db.checks }

module _ {S : Type 0} (api : Api S) (env : Env) (resolver : Resolver) where
  -- The zones to verify: all but the catalog and producers for an admin, the user's own else.
  abbrev names_for : User → Db → List Zone → List Text
  names_for user db zones =
      if is_admin user
      then map (λ z. z.name)
          (filter
            (λ z.
              not (z.name ≟ canonical env.settings.catalog_zone) && not (z.kind ≟ codes "Producer"))
            zones)
      else filter (λ z. elem z (map (λ x. x.name) zones)) (map (λ e. e.0) (user_zones db user))

  unfoldable pub zones_verify : User → Exec (World S) Response
  zones_verify user = do
    zones ← on_server (Client.list_zones api)
    db ← get_db_state
    let names = names_for user db zones
    results ← on_server (check_zones resolver api names)
    now ← get_now
    let stored = store_results now results db
    put_db (if is_admin user then prune_checks names stored else stored)
    log_history (some user.id) (codes "zone") none
        (cat (codes "Verify " ∷ show (length names) ∷ codes " zones: " ∷ summarize results ∷ []))
    flash
        (cat (codes "Verified " ∷ show (length names) ∷ codes " zones: " ∷ summarize results ∷ []))
        (codes "ok")
    pure zones_page

  unfoldable pub zone_verify : Text → User → Exec (World S) Response
  zone_verify zone user = do
    result ← on_server (check_zone resolver api zone)
    db ← get_db_state
    now ← get_now
    put_db (store_results now (result ∷ []) db)
    log_zone user zone
        (codes "Verify NS: " ++ with_detail result.status (codes " (") result.detail (codes ")"))
    flash (codes "NS verification: " ++ with_detail result.status (codes " — ") result.detail [])
        (if result.status ≟ codes "ok" then codes "ok" else codes "error")
    pure (zone_page zone)

  abbrev view_of : Text → Zone → Db → Option Soa × List Row → ZoneView
  view_of zone zdata db (soa, records) =
      let check = check_of zone db.checks in
      record {
        soa = soa;
        records = mark_ns records zone check;
        owner = or_dash (owner_login db zone db.access);
        check = check;
        custom = is_custom_zone zdata env.settings.catalog_zone;
      }

  -- The page, or none for the way back to the list.
  unfoldable pub zone_view : Text → Exec (World S) (Option ZoneView)
  zone_view zone =
      try_pdns (do zdata ← on_server (Client.get_zone api zone); pure (some zdata))
        (λ status message. do complain message; pure none)
      >>= shown
    where
      shown : Option Zone → Exec (World S) (Option ZoneView)
      shown none = pure none
      shown (some zdata) = do
        flat ← lift (flatten_rrsets zdata.rrsets)
        db ← get_db_state
        pure (some (view_of zone zdata db flat))
