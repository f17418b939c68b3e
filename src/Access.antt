-- ===== src/Access.antt =====
-- app/mojodns/deps.py: who is signed in, and who may do what with a zone.
pub mod Grants
pub mod Admit
use mojodns.Prelude.{
  ℕ, zero, suc, ◌-◌, ◌*◌, Bool, true, false, not, ◌&&◌, ◌||◌, List, [], ◌∷◌, Option, none, some,
  map, filter, any, elem, ltb, ◌==◌, ◌≟◌, Exec, Result, ok, err, http_error, pure, raise, ◌>>=◌,
  ◌>>◌, continue, if◌then◌else◌,
}
use mojodns.Text.{Text, codes, ℤ, pos, negsuc}
use mojodns.Pdns.{canonical}
use mojodns.Http.{Settings}
use mojodns.Db.{
  User, ZoneAccess, Db, World, Session, is_admin, user_by_id, empty_session, get_db_state, get_now,
  get_session, put_session,
}

abbrev pub redirect_to : {S A : Type 0} → Text → Exec (World S) A
redirect_to path = raise (http_error 303 path)

abbrev pub not_found : {S A : Type 0} → Exec (World S) A
not_found = raise (http_error 404 [])

-- Older than the limit: `now - last > timedelta(days=max_days)`.
abbrev pub too_old : ℕ → ℕ → Option ℕ → Bool
too_old max_days now none = true
too_old max_days now (some last) = ltb (max_days * 86400) (now - last)

abbrev pub aged : ℤ → ℕ → Option ℕ → Bool
aged (pos zero) now last = false
aged (pos (suc n)) now last = too_old (suc n) now last
aged (negsuc n) now last = false

unfoldable pub needs_password_change : Settings → ℕ → User → Bool
needs_password_change st now user =
    user.must_change_password || aged st.password_max_age_days now user.last_pwd_change

abbrev pub pwchange_exempt : List Text
pwchange_exempt = codes "/account/password" ∷ codes "/logout" ∷ []

-- `user.enabled` and `user.state == "active"`
unfoldable pub is_active : User → Bool
is_active u = u.enabled && u.state ≟ codes "active"

module _ {S : Type 0} (st : Settings) where
  -- The account of a session's user id, for a request of `path`.
  unfoldable pub admit : Text → Option User → Exec (World S) User
  admit path none w = (do put_session empty_session; redirect_to (codes "/login")) w
  admit path (some user) w =
      if not (is_active user)
      then (do put_session empty_session; redirect_to (codes "/login")) w
      else if needs_password_change st w.now user && not (elem path pwchange_exempt)
      then redirect_to (codes "/account/password") w
      else (ok user, w)

  -- `not uid` holds of a missing id and of 0.
  unfoldable pub with_uid : Text → Option ℕ → Exec (World S) User
  with_uid path none w = redirect_to (codes "/login") w
  with_uid path (some zero) w = redirect_to (codes "/login") w
  with_uid path (some (suc n)) w = admit path (user_by_id w.db (suc n)) w

  unfoldable pub current_user : Text → Exec (World S) User
  current_user path w = with_uid path w.session.user_id w

  unfoldable pub require_admin : Text → Exec (World S) User
  require_admin path = do user ← current_user path; if is_admin user then pure user else not_found

unfoldable pub user_zones : Db → User → List (Text × Bool)
user_zones db user = map (λ a. (a.zone, a.is_owner)) (filter (λ a. a.user_id == user.id) db.access)

unfoldable pub can_access_zone : Db → User → Text → Bool
can_access_zone db user zone =
    is_admin user || any (λ a. a.user_id == user.id && a.zone ≟ canonical zone) db.access

unfoldable pub is_zone_owner : Db → User → Text → Bool
is_zone_owner db user zone =
    is_admin user
    || any (λ a. a.user_id == user.id && (a.zone ≟ canonical zone && a.is_owner)) db.access

-- The dependency of every route with a zone in its path.
unfoldable pub zone_guard : {S : Type 0} → User → Text → Exec (World S) Text
zone_guard user zone w =
    let czone = canonical zone in
    if can_access_zone w.db user czone then (ok czone, w) else not_found w
