-- ===== src/Accounts.antt =====
-- app/mojodns/routers/auth.py, account.py and users.py: signing in and out, one's own password and
-- tokens, and the accounts that an admin keeps. `user` is what
-- `current_user` returned and `admin` what `require_admin` returned.
pub mod Tokens
pub mod Users
pub mod SignIn
use mojodns.Prelude.{
  ℕ, Bool, true, false, not, ◌&&◌, ◌||◌, List, [], ◌∷◌, ◌++◌, Option, none, some, map, filter, find,
  ltb, length, Exec, Result, ok, err, crash, pure, raise, ◌>>=◌, ◌>>◌, if◌then◌else◌, ◌==◌, ◌≟◌,
}
use mojodns.Text.{Text, codes, ℤ, pos, show_int}
use mojodns.Http.{Response, Settings, redirect}
use mojodns.Db.{
  User, Db, Session, World, empty_session, get_db_state, get_now, get_session, put_db, put_session,
  log_history, flash,
}
use mojodns.Access.{needs_password_change, is_active}
use mojodns.RateLimit.{Hits, allow}

-- app/mojodns/security.py, by what its functions return: `dummy` is DUMMY_PASSWORD_HASH; a salt is
-- part of the state of `hash`, which the model leaves out.
pub record Security : Type 0 where
  pub hash : Text → Text
  pub verify : Text → Text → Bool
  pub needs_rehash : Text → Bool
  pub dummy : Text

-- A row of the table, changed in place.
unfoldable pub change_user : ℕ → (User → User) → Db → Db
change_user uid f db = record db { users = map (λ u. if u.id == uid then f u else u) db.users }

abbrev pub login_page : Response
login_page = redirect (codes "/login")

abbrev pub hash_of : Text → Option User → Text
hash_of dummy none = dummy
hash_of dummy (some account) = account.password_hash

-- `account and account.enabled and account.state == "active" and valid`
abbrev pub accepted : Bool → Option User → Option User
accepted valid none = none
accepted valid (some account) = if is_active account && valid then some account else none

-- `scalar_one_or_none`
abbrev pub one_or_none : {A : Type 0} → {S : Type 0} → List A → Exec S (Option A)
one_or_none [] = pure none
one_or_none (a ∷ []) = pure (some a)
one_or_none (a ∷ b ∷ rest) = raise crash

module _ {S : Type 0} where
  abbrev pub throttled : ℕ → Exec (World S) Response
  throttled retry = do
    flash (codes "Too many login attempts — wait " ++ (show_int (pos retry) ++ codes "s"))
        (codes "error")
    pure login_page

  abbrev refuse : Text → Exec (World S) Response
  refuse message = do flash message (codes "error"); pure (redirect (codes "/account/password"))

-- Where a new session goes: an old or temporary password is to be changed first.
abbrev landing : Settings → ℕ → User → Response
landing st now account =
    if needs_password_change st now account
    then redirect (codes "/account/password")
    else redirect (codes "/zones")

unfoldable pub rehash : Security → Text → User → Db → Db
rehash sec password account db =
    if sec.needs_rehash account.password_hash
    then change_user account.id (λ u. record u { password_hash = sec.hash password }) db
    else db

module _ {S : Type 0} (sec : Security) (st : Settings) where
  unfoldable pub sign_in : Text → Option User → Exec (World S) Response
  sign_in password none = do flash (codes "Login incorrect") (codes "error"); pure login_page
  sign_in password (some account) = do
    now ← get_now
    db ← get_db_state
    put_db (
        change_user account.id (λ u. record u { last_login = some now })
          (rehash sec password account db))
    session ← get_session
    put_session (record session { user_id = some account.id })
    log_history (some account.id) (codes "user") (some account.login) (codes "Signed in")
    pure (landing st now account)

  unfoldable pub authenticate : Text → Text → Exec (World S) Response
  authenticate login password = do
    db ← get_db_state
    account ← one_or_none (filter (λ u. u.login ≟ login) db.users)
    sign_in password (accepted (sec.verify password (hash_of sec.dummy account)) account)

  -- `clock` is the monotonic clock of the limiter; `src` is the address of the client.
  unfoldable pub login : ℕ → Text → Text → Text → Exec (Hits × World S) Response
  login clock src user password (hits, w) =
      let ((allowed, retry), hits') =
        allow (codes "login " ++ src) st.login_rate_limit clock hits in
      let (r, w') = (if allowed then authenticate user password else throttled retry) w in
      (r, (hits', w'))

  unfoldable pub logout : Exec (World S) Response
  logout = do put_session empty_session; pure login_page

  unfoldable pub password_change : User → Text → Text → Text → Exec (World S) Response
  password_change user current new confirm w =
      let forced = needs_password_change st w.now user in
      if not (sec.verify current user.password_hash)
      then refuse (codes "Current password is incorrect") w
      else if ltb (length new) 8
      then refuse (codes "New password must be at least 8 characters") w
      else if not (new ≟ confirm)
      then refuse (codes "New password and confirmation do not match") w
      else (do
        db ← get_db_state
        put_db (
            change_user user.id
              (λ u. record u {
                password_hash = sec.hash new;
                must_change_password = false;
                last_pwd_change = some w.now;
              })
              db)
        log_history (some user.id) (codes "user") (some user.login) (codes "Changed own password")
        flash (codes "Password changed") (codes "ok")
        pure (redirect (if forced then codes "/zones" else codes "/account")))
          w
