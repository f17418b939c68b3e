-- ===== src/Api/Compat.antt =====
-- app/mojodns/routers/pdns_compat.py: the part of the PowerDNS API that acme.sh uses.
use mojodns.Prelude.{
  not, ◌&&◌, ◌||◌, List, [], ◌∷◌, ◌++◌, Option, none, some, map, filter, elem, ◌≟◌, Exec, Result,
  ok, err, http_error, pure, raise, ◌>>=◌, ◌>>◌, continue, try_pdns, if◌then◌else◌,
}
use mojodns.Text.{Text, codes, upper, ends_with, join}
use mojodns.Pdns.{canonical}
use mojodns.Pdns.Types.{Zone, Change, Api}
use mojodns.Pdns.Zones
use mojodns.Http.{Response, no_content}
use mojodns.Db.{User, World, is_admin, on_server, log_history}
use mojodns.Notifier.{Lookup, notify_zone}
use mojodns.Access.{can_access_zone, user_zones}

abbrev pub or_empty : Option Text → Text
or_empty none = []
or_empty (some t) = t

-- `except PdnsError as e: raise HTTPException(status_code=e.status, …)`
abbrev pub relay : {S A : Type 0} → Exec (World S) A → Exec (World S) A
relay m = try_pdns m λ status message. raise (http_error status message)

-- One round of the loop that checks the rrsets.
unfoldable pub check_rrset : Text → Change → Result (Unit {0})
check_rrset czone rr =
    let name = canonical (or_empty rr.name) in
    let rtype = upper (or_empty rr.rtype) in
    let change = upper (or_empty rr.changetype) in
    if not (rtype ≟ codes "TXT")
    then err (http_error 403 (codes "this token may only manage TXT records"))
    else if not (change ≟ codes "REPLACE" || change ≟ codes "DELETE")
    then err (http_error 422 (codes "bad changetype " ++ change))
    else if not (name ≟ czone) && not (ends_with (b'.' ∷ czone) name)
    then err (http_error 422 (codes "rrset " ++ (name ++ (codes " is outside zone " ++ czone))))
    else ok tt

abbrev contents_note : Text → Text
contents_note [] = []
contents_note (c ∷ cs) = codes " -> " ++ (c ∷ cs)

-- `rr['changetype']` and `rr['name']` are there once the rrset has passed the checks.
unfoldable pub patch_message : Change → Text
patch_message rr =
    codes "ACME API "
    ++ (upper (or_empty rr.changetype)
        ++ (codes " TXT "
            ++ (or_empty rr.name
                ++ contents_note (join (codes ", ") (map (λ r. r.content) rr.records)))))

module _ {S : Type 0} where
  unfoldable pub guard : User → Text → Exec (World S) Text
  guard user zone w =
      let czone = canonical zone in
      if can_access_zone w.db user czone
      then (ok czone, w)
      else (err (http_error 404 (codes "Not Found")), w)

  unfoldable pub check_rrsets : Text → List Change → Exec (World S) (Unit {0})
  check_rrsets czone [] w = (ok tt, w)
  check_rrsets czone (rr ∷ rrs) w = continue (check_rrset czone rr) (λ _. check_rrsets czone rrs) w

  unfoldable pub log_rrsets : User → Text → List Change → Exec (World S) (Unit {0})
  log_rrsets user czone [] w = (ok tt, w)
  log_rrsets user czone (rr ∷ rrs) w =
      (do
        log_history (some user.id) (codes "zone") (some czone) (patch_message rr)
        log_rrsets user czone rrs)
        w

module _ {S : Type 0} (api : Api S) where
  unfoldable pub zones_list : User → Exec (World S) (List Zone)
  zones_list user w =
      (do
        zones ← on_server (Zones.list_zones api)
        pure (
            if is_admin user
            then zones
            else filter (λ z. elem z.name (map (λ e. e.0) (user_zones w.db user))) zones))
        w

  unfoldable pub zone_get : User → Text → Exec (World S) Zone
  zone_get user zone_id = do
    czone ← guard user zone_id
    relay (on_server (Zones.get_zone api czone))

  -- The body of a PATCH whose `rrsets` list is not empty.
  unfoldable pub after_checks : User → Text → List Change → Exec (World S) Response
  after_checks user czone rrsets = do
    relay (on_server (Zones.patch_rrsets api czone rrsets))
    log_rrsets user czone rrsets
    pure no_content

  unfoldable pub patch_checked : User → Text → List Change → Exec (World S) Response
  patch_checked user czone rrsets = do check_rrsets czone rrsets; after_checks user czone rrsets

  unfoldable pub patch_some : User → Text → List Change → Exec (World S) Response
  patch_some user czone [] = raise (http_error 422 (codes "no rrsets in request"))
  patch_some user czone (rr ∷ rrs) = patch_checked user czone (rr ∷ rrs)

  unfoldable pub zone_patch : User → Text → List Change → Exec (World S) Response
  zone_patch user zone_id rrsets = do czone ← guard user zone_id; patch_some user czone rrsets

  -- The body of the answer is a constant, and left out.
  unfoldable pub zone_notify : Lookup → User → Text → Exec (World S) (Unit {0})
  zone_notify dns user zone_id = do czone ← guard user zone_id; relay (notify_zone dns api czone)
