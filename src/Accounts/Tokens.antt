-- ===== src/Accounts/Tokens.antt =====
-- Self-service API tokens of app/mojodns/routers/account.py.
use mojodns.Prelude.{
  ℕ, ◌+◌, not, [], ◌∷◌, ◌++◌, Option, none, some, filter, find, any, Exec, pure, raise, http_error,
  ◌>>=◌, ◌>>◌, if◌then◌else◌, ◌==◌, ◌≟◌,
}
use mojodns.Text.{Text, codes, strip, is_empty, take, join}
use mojodns.Http.{Response, redirect, page}
use mojodns.Db.{User, ApiToken, Db, World, get_db_state, get_now, put_db, log_history, flash}
use mojodns.Api.Tokens.{token_intervals, default_interval, interval_expiry}

abbrev known_interval : Text → Text
known_interval interval =
    if any (λ e. e.0 ≟ interval) token_intervals then interval else default_interval

unfoldable pub add_token : ℕ → Text → Text → ℕ → Db → Db
add_token uid digest name expires_at db = record db {
  tokens =
      db.tokens
      ++ record {
        id = db.next_id;
        user_id = uid;
        token_hash = digest;
        name = take 255 name;
        expires_at = some expires_at;
      }
        ∷ [];
  next_id = db.next_id + 1;
}

module _ {S : Type 0} where
  -- `secret` is what `make_token` returns. The page shows it.
  unfoldable pub token_create : (Text → Text) → Text → User → Text → Text → Exec (World S) Response
  token_create hash_token secret user name interval =
      let n = strip name in
      let i = known_interval interval in
      if is_empty n
      then (do
        flash (codes "Give the token a name") (codes "error")
        pure (redirect (codes "/account")))
      else (do
        now ← get_now
        db ← get_db_state
        put_db (add_token user.id (hash_token secret) n (interval_expiry now i) db)
        log_history (some user.id) (codes "user") (some user.login)
            (join [] (codes "Create API token '" ∷ n ∷ codes "' (" ∷ i ∷ codes ")" ∷ []))
        flash
            (join []
              (codes "Token '" ∷ n ∷ codes "' created — copy it now, it won't be shown again" ∷ []))
            (codes "ok")
        pure (page (codes "account.html")))

  unfoldable pub revoke : User → Option ApiToken → Exec (World S) Response
  revoke user none = raise (http_error 404 [])
  revoke user (some row) = if not (row.user_id == user.id) then raise (http_error 404 []) else (do
    db ← get_db_state
    put_db (record db { tokens = filter (λ t. not (t.id == row.id)) db.tokens })
    log_history (some user.id) (codes "user") (some user.login)
        (join [] (codes "Revoke API token '" ∷ row.name ∷ codes "'" ∷ []))
    flash (join [] (codes "Token '" ∷ row.name ∷ codes "' revoked" ∷ [])) (codes "ok")
    pure (redirect (codes "/account")))

  unfoldable pub token_delete : User → ℕ → Exec (World S) Response
  token_delete user tid w = revoke user (find (λ t. t.id == tid) w.db.tokens) w
