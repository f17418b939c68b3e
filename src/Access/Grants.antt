-- ===== src/Access/Grants.antt =====
-- app/mojodns/routers/zones.py: the list of those who may work on a zone.
pub mod Owners
use mojodns.Prelude.{
  ℕ, suc, ◌+◌, Bool, true, false, not, ◌&&◌, ◌||◌, List, [], ◌∷◌, ◌++◌, Option, none, some, map,
  filter, any, find, ◌==◌, ◌≟◌, Exec, Result, ok, err, crash, http_error, pure, raise, ◌>>=◌, ◌>>◌,
  continue, if◌then◌else◌,
}
use mojodns.Text.{Text, codes, rstrip_char}
use mojodns.Pdns.{canonical}
use mojodns.Http.{Response, redirect}
use mojodns.Db.{User, ZoneAccess, Db, World, user_by_id, get_db_state, put_db, log_history, flash}
use mojodns.Access.{is_zone_owner}

abbrev pub access_url : Text → Text
access_url zone = codes "/zones/" ++ (rstrip_char b'.' zone ++ codes "/access")

abbrev pub is_grant : Text → ℕ → ZoneAccess → Bool
is_grant zone uid a = a.zone ≟ zone && a.user_id == uid

-- `db.delete(row)`
unfoldable pub delete_grant : ℕ → List ZoneAccess → List ZoneAccess
delete_grant id rows = filter (λ a. not (a.id == id)) rows

-- `row.is_owner = v`
unfoldable pub set_owner : ℕ → Bool → List ZoneAccess → List ZoneAccess
set_owner id v rows = map (λ a. if a.id == id then record a { is_owner = v } else a) rows

-- `db.add(ZoneAccess(…))`
unfoldable pub add_grant : Text → ℕ → Bool → Db → Db
add_grant zone uid owner db = record db {
  access =
      db.access ++ record { id = db.next_id; zone = zone; user_id = uid; is_owner = owner } ∷ [];
  next_id = db.next_id + 1;
}

abbrev pub owner_grant : List ZoneAccess → Option ZoneAccess
owner_grant grants = find (λ g. g.is_owner) grants

-- `old_owner.is_owner = False`, if there is one
unfoldable pub demote : Option ZoneAccess → Db → Db
demote none db = db
demote (some old) db = record db { access = set_owner old.id false db.access }

unfoldable pub promote : Text → ℕ → Option ZoneAccess → Db → Db
promote zone uid none db = add_grant zone uid true db
promote zone uid (some grant) db = record db { access = set_owner grant.id true db.access }

abbrev pub owned_by : ℕ → Option ZoneAccess → Bool
owned_by uid none = false
owned_by uid (some old) = old.user_id == uid

module _ {S : Type 0} where
  -- The branches on the grants of the user: more than one row raises MultipleResultsFound.
  unfoldable pub toggle : Text → User → User → List ZoneAccess → Exec (World S) (Unit {0})
  toggle zone user target [] = do
    db ← get_db_state
    put_db (add_grant zone target.id false db)
    log_history (some user.id) (codes "zone") (some zone) (codes "Grant access to " ++ target.login)
  toggle zone user target (grant ∷ []) =
      if grant.is_owner
      then flash (codes "Cannot revoke the owner's access — reassign ownership first")
          (codes "error")
      else do
        db ← get_db_state
        put_db (record db { access = delete_grant grant.id db.access })
        log_history (some user.id) (codes "zone") (some zone)
            (codes "Revoke access from " ++ target.login)
  toggle zone user target (g ∷ h ∷ gs) = raise crash

  unfoldable pub toggle_target : Text → User → Option User → Exec (World S) (Unit {0})
  toggle_target zone user none w = (ok tt, w)
  toggle_target zone user (some target) w =
      toggle zone user target (filter (is_grant zone target.id) w.db.access) w

  -- `zone` is what `zone_guard` returned.
  unfoldable pub zone_access_toggle : Text → User → ℕ → Exec (World S) Response
  zone_access_toggle zone user uid w =
      if not (is_zone_owner w.db user zone)
      then (do
        flash (codes "Only the zone owner or an admin can change access") (codes "error")
        pure (redirect (access_url zone)))
          w
      else (do toggle_target zone user (user_by_id w.db uid); pure (redirect (access_url zone))) w

-- `unicode` shows a name that is spelled in punycode.
module _ {S : Type 0} (unicode : Text → Text) where
  unfoldable pub owner_change : Text → User → User → List ZoneAccess → Exec (World S) Response
  owner_change zone admin target grants =
      if owned_by target.id (owner_grant grants)
      then (do
        flash (target.login ++ codes " already owns this zone") (codes "ok")
        pure (redirect (access_url zone)))
      else (do
        db ← get_db_state
        put_db (
            promote zone target.id (find (λ g. g.user_id == target.id) grants)
              (demote (owner_grant grants) db))
        log_history (some admin.id) (codes "zone") (some zone)
            (codes "Change owner to " ++ target.login)
        flash
            (codes "Owner of "
              ++ (unicode (rstrip_char b'.' zone) ++ (codes " is now " ++ target.login)))
            (codes "ok")
        pure (redirect (access_url zone)))

  unfoldable pub owner_target : Text → User → Option User → Exec (World S) Response
  owner_target zone admin none w =
      (do flash (codes "No such user") (codes "error"); pure (redirect (access_url zone))) w
  owner_target zone admin (some target) w =
      owner_change zone admin target (filter (λ a. a.zone ≟ zone) w.db.access) w

  -- For admins alone (`require_admin`).
  unfoldable pub zone_owner_set : Text → User → ℕ → Exec (World S) Response
  zone_owner_set zone admin uid w = owner_target zone admin (user_by_id w.db uid) w
