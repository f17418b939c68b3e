-- ===== src/Zones/Pages.antt =====
-- What the list of zones and the access page of a zone show.
use mojodns.Prelude.{
  ℕ, Bool, not, ◌&&◌, ◌||◌, List, [], ◌∷◌, Option, none, some, map, filter, find, any, sort_by,
  Exec, pure, ◌>>=◌, if◌then◌else◌, ◌==◌, ◌≟◌,
}
use mojodns.Text.{Text, codes, rstrip_char}
use mojodns.Pdns.{canonical, is_custom_zone}
use mojodns.Pdns.Types.{Api, Zone}
use mojodns.Pdns.Zones as Client
use mojodns.DnsUtil.Rows.{text_lt}
use mojodns.Idn.{to_unicode}
use mojodns.Verify.Status.{check_of}
use mojodns.Db.{
  User, ZoneAccess, ZoneCheck, Db, World, is_admin, user_by_id, on_server, get_db_state,
}
use mojodns.Zones.Names.{Env}

pub record ZoneRow : Type 0 where
  pub name : Text
  pub display : Text
  pub serial : Option ℕ
  pub kind : Text
  pub owner : Text
  pub editors : List Text
  pub check : Option ZoneCheck
  pub custom : Bool

abbrev with_login : ZoneAccess → Option User → List (ZoneAccess × Text) → List (ZoneAccess × Text)
with_login a none rest = rest
with_login a (some u) rest = (a, u.login) ∷ rest

-- The grants with the logins of their users.
unfoldable pub joined : Db → List ZoneAccess → List (ZoneAccess × Text)
joined db [] = []
joined db (a ∷ as') = with_login a (user_by_id db a.user_id) (joined db as')

-- `owners.get(zone, before)`: the last row counts.
unfoldable pub owner_of : Text → List (ZoneAccess × Text) → Text → Text
owner_of zone [] before = before
owner_of zone ((a, login) ∷ rows) before =
    owner_of zone rows (if a.is_owner && a.zone ≟ zone then login else before)

unfoldable pub editors_of : Text → List (ZoneAccess × Text) → List Text
editors_of zone rows = map (λ r. r.1) (filter (λ r. not r.0.is_owner && r.0.zone ≟ zone) rows)

abbrev is_mine : User → Text → List (ZoneAccess × Text) → Bool
is_mine user zone rows = any (λ r. r.0.user_id == user.id && r.0.zone ≟ zone) rows

-- The catalog and producers are left out, and for all but admins the zones without a grant.
unfoldable pub is_listed : Text → User → List (ZoneAccess × Text) → Zone → Bool
is_listed catalog user rows z =
    not (z.name ≟ canonical catalog || z.kind ≟ codes "Producer")
    && (is_admin user || is_mine user z.name rows)

unfoldable pub display_lt : ZoneRow → ZoneRow → Bool
display_lt a b = text_lt a.display b.display

-- A row of the access page.
pub record AccessRow : Type 0 where
  pub user : User
  pub grant : Option ZoneAccess
  pub me : Bool

-- The grant of a user, of which the table holds one at most.
abbrev grant_of : Text → List ZoneAccess → User → Option ZoneAccess
grant_of zone access u = find (λ a. a.zone ≟ zone && a.user_id == u.id) access

abbrev access_row : Text → Db → User → User → AccessRow
access_row zone db user u = record {
  user = u;
  grant = grant_of zone db.access u;
  me = u.id == user.id;
}

-- The other users in the order of their logins; an admin sees the own row, too.
unfoldable pub zone_access : Db → User → Text → List AccessRow
zone_access db user zone = map (access_row zone db user) (
    filter (λ u. is_admin user || not (u.id == user.id))
      (sort_by (λ a b. text_lt a.login b.login) db.users))

module _ {S : Type 0} (api : Api S) (env : Env) where
  abbrev zone_row : Db → List (ZoneAccess × Text) → Zone → ZoneRow
  zone_row db rows z = record {
    name = z.name;
    display = to_unicode env.idna (rstrip_char b'.' z.name);
    serial = z.serial;
    kind = z.kind;
    owner = owner_of z.name rows (codes "—");
    editors = editors_of z.name rows;
    check = check_of z.name db.checks;
    custom = is_custom_zone z env.settings.catalog_zone;
  }

  unfoldable pub zone_rows : User → Exec (World S) (List ZoneRow)
  zone_rows user = do
    db ← get_db_state
    zones ← on_server (Client.list_zones api)
    pure (
        sort_by display_lt (
          map (zone_row db (joined db db.access))
            (filter (is_listed env.settings.catalog_zone user (joined db db.access)) zones)))
