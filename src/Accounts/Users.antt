-- ===== src/Accounts/Users.antt =====
-- app/mojodns/routers/users.py. `hash` is `hash_password`.
pub mod Keep
use mojodns.Prelude.{
  raise, http_error, ℕ, ◌+◌, Bool, true, not, ◌&&◌, [], ◌∷◌, ◌++◌, Option, none, some, map, filter,
  any, all, elem, Exec, ok, err, pure, http_error, ◌>>=◌, ◌>>◌, if◌then◌else◌, ◌==◌, ◌≟◌,
}
use mojodns.Text.{
  Text, codes, ℤ, pos, negsuc, strip, lower, is_empty, is_digit, join, show_int, parse_int,
}
use mojodns.Http.{Response, redirect}
use mojodns.Db.{
  User, HistoryEntry, Db, World, user_by_id, get_db_state, get_now, put_db, log_history, flash,
}
use mojodns.Accounts.{change_user}

-- `_flag`
unfoldable pub is_set : Text → Bool
is_set v = elem (lower (strip v)) (codes "1" ∷ codes "true" ∷ codes "on" ∷ codes "yes" ∷ [])

abbrev role_of : Text → Text
role_of role = if role ≟ codes "admin" then codes "admin" else codes "owner"

-- `email.strip() or None`
abbrev or_none : Text → Option Text
or_none t = if is_empty t then none else some t

-- `max(0, int(rl)) if rl.isdigit() else None`, for ASCII digits
abbrev nonneg : Option ℤ → Option ℤ
nonneg none = none
nonneg (some (pos n)) = some (pos n)
nonneg (some (negsuc n)) = some (pos 0)

unfoldable pub limit_of : Text → Option ℤ
limit_of rl = if not (is_empty rl) && all is_digit rl then nonneg (parse_int rl) else none

abbrev users_page : Response
users_page = redirect (codes "/users")

abbrev user_page : ℕ → Response
user_page uid = redirect (codes "/users/" ++ show_int (pos uid))

unfoldable pub add_user : User → Db → Db
add_user user db = record db { users = db.users ++ user ∷ []; next_id = db.next_id + 1 }

abbrev orphan : ℕ → Option ℕ → Option ℕ
orphan uid none = none
orphan uid (some author) = if author == uid then none else some author

abbrev unsign : ℕ → HistoryEntry → HistoryEntry
unsign uid h = record h { user_id = orphan uid h.user_id }

-- The rows that refer to the user go by the foreign keys: grants and tokens are deleted,
-- history keeps its entries without an author.
unfoldable pub delete_user : User → Db → Db
delete_user target db = record db {
  users = filter (λ u. not (u.id == target.id)) db.users;
  access = filter (λ a. not (a.user_id == target.id)) db.access;
  tokens = filter (λ t. not (t.user_id == target.id)) db.tokens;
  history = map (unsign target.id) db.history;
}

module _ {S : Type 0} where
  abbrev pub or_404 : Option User → Exec (World S) User
  or_404 none = raise (http_error 404 [])
  or_404 (some user) = pure user

  -- `_load_user`
  unfoldable pub load_user : ℕ → Exec (World S) User
  load_user uid w = or_404 (user_by_id w.db uid) w

  unfoldable pub delete_loaded : User → ℕ → User → Exec (World S) Response
  delete_loaded admin uid target w =
      if target.id == admin.id
      then (do flash (codes "You cannot delete yourself") (codes "error"); pure (user_page uid)) w
      else (do
        log_history (some admin.id) (codes "user") (some target.login)
            (codes "Delete user " ++ target.login)
        db ← get_db_state
        put_db (delete_user target db)
        flash (join [] (codes "User " ∷ target.login ∷ codes " deleted" ∷ [])) (codes "ok")
        pure users_page)
          w

  unfoldable pub user_delete : User → ℕ → Exec (World S) Response
  user_delete admin uid = load_user uid >>= delete_loaded admin uid

module _ {S : Type 0} (hash : Text → Text) where
  unfoldable pub user_create : User → Text → Text → Text → Text → Text → Exec (World S) Response
  user_create admin raw_login email password role enabled w =
      let login = strip raw_login in
      if any (λ u. u.login ≟ login) w.db.users
      then (do
        flash (join [] (codes "User " ∷ login ∷ codes " already exists" ∷ [])) (codes "error")
        pure users_page)
          w
      else (do
        db ← get_db_state
        put_db (
            add_user
              (record {
                id = db.next_id;
                login = login;
                email = or_none (strip email);
                password_hash = hash password;
                role = role_of role;
                state = codes "active";
                enabled = is_set enabled;
                must_change_password = true;
                last_login = none;
                last_pwd_change = some w.now;
                check_rate_limit = none;
              })
              db)
        log_history (some admin.id) (codes "user") (some login)
            (join [] (codes "Create user " ∷ login ∷ codes " (" ∷ role_of role ∷ codes ")" ∷ []))
        flash
            (join [] (
              codes "User "
              ∷ login
              ∷ codes " created — they must set a new password at first login"
              ∷ []))
            (codes "ok")
        pure users_page)
          w

  abbrev reset_password : User → User → Text → Exec (World S) (Unit {0})
  reset_password admin target [] = pure tt
  reset_password admin target (c ∷ cs) = do
    now ← get_now
    db ← get_db_state
    put_db (
        change_user target.id
          (λ u. record u {
            password_hash = hash (c ∷ cs);
            must_change_password = true;
            last_pwd_change = some now;
          })
          db)
    log_history (some admin.id) (codes "user") (some target.login)
        (codes "Reset user password (temporary)")

  unfoldable pub user_update : User → ℕ → Text → Text → Text → Text → Text → Exec (World S) Response
  user_update admin uid email role password enabled check_rate_limit = do
    target ← load_user uid
    db ← get_db_state
    put_db (
        change_user target.id
          (λ u. record u {
            email = or_none (strip email);
            role = role_of role;
            enabled = is_set enabled;
            check_rate_limit = limit_of (strip check_rate_limit);
          })
          db)
    log_history (some admin.id) (codes "user") (some target.login) (codes "Update user profile")
    reset_password admin target password
    flash (codes "User updated") (codes "ok")
    pure (user_page uid)
