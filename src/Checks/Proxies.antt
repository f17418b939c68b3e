-- ===== src/Checks/Proxies.antt =====
-- app/mojodns/routers/proxies.py.
pub mod Visible
use mojodns.Prelude.{
  ℕ, ◌+◌, Bool, true, false, not, ◌&&◌, ◌||◌, List, [], ◌∷◌, ◌++◌, Option, none, some, map, filter,
  find, any, sort_by, bool_eq, all, leb, Exec, http_error, pure, raise, ◌>>=◌, ◌>>◌, if◌then◌else◌,
  ◌==◌, ◌≟◌,
}
use mojodns.Text.{
  Text, codes, ℤ, pos, negsuc, strip, lower, is_empty, is_digit, starts_with, ends_with, parse_int,
  join, show_int,
}
use mojodns.DnsUtil.Rows.{text_lt}
use mojodns.Http.{Response, redirect}
use mojodns.Db.{User, Proxy, Db, World, is_admin, get_db_state, put_db, log_history, flash}
use mojodns.Accounts.Users.{is_set}

-- A SOCKS5 vantage point.
pub record ProxySpec : Type 0 where
  pub host : Text
  pub port : ℕ
  pub username : Option Text
  pub password : Option Text

-- `x or None`
abbrev pub filled : Option Text → Option Text
filled none = none
filled (some []) = none
filled (some (c ∷ cs)) = some (c ∷ cs)

-- `p.port or 1080`
abbrev pub port_or : Option ℕ → ℕ
port_or none = 1080
port_or (some ℕ.zero) = 1080
port_or (some (ℕ.suc n)) = ℕ.suc n

abbrev pub spec_at : Proxy → Option Text → Option ProxySpec
spec_at p none = none
spec_at p (some host) = some (record {
  host = host;
  port = port_or p.port;
  username = filled p.username;
  password = filled p.password;
})

unfoldable pub proxy_spec : Proxy → Option ProxySpec
proxy_spec p = if p.is_direct then none else spec_at p (filled p.host)

-- The order of the keys `(not p.is_direct, p.name)`.
unfoldable pub proxy_lt : Proxy → Proxy → Bool
proxy_lt a b =
    (a.is_direct && not b.is_direct) || (bool_eq a.is_direct b.is_direct && text_lt a.name b.name)

unfoldable pub visible_proxies : Db → User → List Proxy
visible_proxies db user =
    sort_by proxy_lt (filter (λ p. p.enabled && (is_admin user || p.public_available)) db.proxies)

abbrev name_char : ℕ → Bool
name_char c = (leb b'a' c && leb c b'z') || is_digit c

-- The pattern of a proxy name.
unfoldable pub valid_proxy_name : Text → Bool
valid_proxy_name name =
    not (is_empty name)
    && all (λ c. name_char c || c == b'-') name
    && not (starts_with (b'-' ∷ []) name)
    && not (ends_with (b'-' ∷ []) name)

-- `int(port)`, if it is from 1 to 65535
abbrev port_range : Option ℤ → Option ℕ
port_range none = none
port_range (some (pos n)) = if leb 1 n && leb n 65535 then some n else none
port_range (some (negsuc n)) = none

unfoldable pub parse_port : Text → Option ℕ
parse_port port = port_range (parse_int port)

abbrev proxies_page : Response
proxies_page = redirect (codes "/proxies")

abbrev proxy_page : ℕ → Response
proxy_page pid = redirect (codes "/proxies/" ++ show_int (pos pid))

abbrev or_none : Text → Option Text
or_none t = filled (some t)

unfoldable pub add_proxy : Proxy → Db → Db
add_proxy p db = record db { proxies = db.proxies ++ p ∷ []; next_id = db.next_id + 1 }

unfoldable pub set_proxy : Proxy → Db → Db
set_proxy p db = record db { proxies = map (λ q. if q.id == p.id then p else q) db.proxies }

-- User name and password; a blank password stays.
abbrev with_login : Proxy → Text → Text → Proxy
with_login p username [] = record p { username = or_none (strip username) }
with_login p username (c ∷ cs) = record p {
  username = or_none (strip username);
  password = some (c ∷ cs);
}

module _ {S : Type 0} where
  abbrev refuse : Response → Text → Exec (World S) Response
  refuse answer message = do flash message (codes "error"); pure answer

  -- What is left of `proxy_create` once the name, the host and the port are accepted.
  unfoldable pub create_checked :
      User → Text → Text → Text → Text → Text → Text → Option ℕ → Exec (World S) Response
  create_checked admin name host username password enabled public_available none =
      refuse proxies_page (codes "Port must be 1–65535")
  create_checked admin name host username password enabled public_available (some portn) = do
    db ← get_db_state
    put_db (
        add_proxy
          (record {
            id = db.next_id;
            name = name;
            is_direct = false;
            host = some (strip host);
            port = some portn;
            username = or_none (strip username);
            password = or_none password;
            enabled = is_set enabled;
            public_available = is_set public_available;
          })
          db)
    log_history (some admin.id) (codes "proxy") (some name) (codes "Create SOCKS5 proxy")
    flash (join [] (codes "Proxy " ∷ name ∷ codes " created" ∷ [])) (codes "ok")
    pure proxies_page

  unfoldable pub proxy_create :
      User → Text → Text → Text → Text → Text → Text → Text → Exec (World S) Response
  proxy_create admin raw_name host port username password enabled public_available w =
      let name = lower (strip raw_name) in
      if not (valid_proxy_name name)
      then refuse proxies_page
          (join [] (codes "'" ∷ name ∷ codes "' is not a valid proxy name (a-z, 0-9, -)" ∷ [])) w
      else if name ≟ codes "direct" || any (λ p. p.name ≟ name) w.db.proxies
      then refuse proxies_page
          (join [] (codes "A proxy named '" ∷ name ∷ codes "' already exists" ∷ [])) w
      else if is_empty (strip host)
      then refuse proxies_page (codes "SOCKS5 host is required") w
      else create_checked admin name host username password enabled public_available
          (parse_port port) w

  -- `if not p`: 404.
  abbrev pub proxy_or_404 : Option Proxy → Exec (World S) Proxy
  proxy_or_404 none = raise (http_error 404 [])
  proxy_or_404 (some p) = pure p

  unfoldable pub load_proxy : ℕ → Exec (World S) Proxy
  load_proxy pid w = proxy_or_404 (find (λ p. p.id == pid) w.db.proxies) w

  abbrev save : Proxy → Exec (World S) (Unit {0})
  save p = do db ← get_db_state; put_db (set_proxy p db)

  abbrev saved : User → Proxy → Exec (World S) Response
  saved admin p = do
    save p
    log_history (some admin.id) (codes "proxy") (some p.name) (codes "Update proxy")
    flash (join [] (codes "Proxy " ∷ p.name ∷ codes " updated" ∷ [])) (codes "ok")
    pure (proxy_page p.id)

  -- A port that is given and out of range leaves what was set before it.
  abbrev with_port : User → Proxy → Text → Text → Option ℕ → Exec (World S) Response
  with_port admin p username password none = do
    save p
    refuse (proxy_page p.id) (codes "Port must be 1–65535")
  with_port admin p username password (some portn) =
      saved admin (with_login (record p { port = some portn }) username password)

  unfoldable pub update_loaded :
      User → Text → Text → Text → Text → Text → Text → Proxy → Exec (World S) Response
  update_loaded admin host port username password enabled public_available old =
      let p = record old { enabled = is_set enabled; public_available = is_set public_available } in
      let q = if is_empty (strip host) then p else record p { host = some (strip host) } in
      if old.is_direct
      then saved admin p
      else if is_empty (strip port)
      then saved admin (with_login q username password)
      else with_port admin q username password (parse_port port)

  unfoldable pub proxy_update :
      User → ℕ → Text → Text → Text → Text → Text → Text → Exec (World S) Response
  proxy_update admin pid host port username password enabled public_available =
      load_proxy pid >>= update_loaded admin host port username password enabled public_available

  unfoldable pub delete_loaded_proxy : User → Proxy → Exec (World S) Response
  delete_loaded_proxy admin p w =
      if p.is_direct
      then refuse proxies_page (codes "The 'direct' proxy cannot be deleted (disable it instead)") w
      else (do
        db ← get_db_state
        put_db (record db { proxies = filter (λ q. not (q.id == p.id)) db.proxies })
        log_history (some admin.id) (codes "proxy") (some p.name) (codes "Delete proxy")
        flash (join [] (codes "Proxy " ∷ p.name ∷ codes " deleted" ∷ [])) (codes "ok")
        pure proxies_page)
          w

  unfoldable pub proxy_delete : User → ℕ → Exec (World S) Response
  proxy_delete admin pid = load_proxy pid >>= delete_loaded_proxy admin
