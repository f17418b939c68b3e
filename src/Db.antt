-- ===== src/Db.antt =====
-- app/mojodns/db.py: the tables as lists of rows, the request's transaction, and the state that a
-- request reads and writes. Times are whole seconds; the clock stands still within one request.
pub mod Transaction
use mojodns.Prelude.{
  ℕ, suc, ◌+◌, Bool, true, false, List, [], ◌∷◌, ◌++◌, Option, none, some, filter, any, find, ◌≟◌,
  ◌==◌, not, map, Exec, Result, ok, err, crash, pure, raise, ◌>>=◌, ◌>>◌, continue, if◌then◌else◌,
}
use mojodns.Text.{Text, codes, ℤ}

pub record User : Type 0 where
  pub id : ℕ
  pub login : Text
  pub email : Option Text
  pub password_hash : Text
  pub role : Text
  pub state : Text
  pub enabled : Bool
  pub must_change_password : Bool
  pub last_login : Option ℕ
  pub last_pwd_change : Option ℕ
  pub check_rate_limit : Option ℤ

unfoldable pub is_admin : User → Bool
is_admin u = u.role ≟ codes "admin"

pub record ZoneAccess : Type 0 where
  pub id : ℕ
  pub zone : Text
  pub user_id : ℕ
  pub is_owner : Bool

pub record HistoryEntry : Type 0 where
  pub user_id : Option ℕ
  pub target_type : Text
  pub target : Option Text
  pub message : Text

pub record ZoneCheck : Type 0 where
  pub zone : Text
  pub status : Text
  pub resolved_ns : Option Text
  pub detail : Option Text
  pub dnssec : Option Text
  pub checked_at : ℕ

pub record ApiToken : Type 0 where
  pub id : ℕ
  pub user_id : ℕ
  pub token_hash : Text
  pub name : Text
  pub expires_at : Option ℕ

pub record ZoneSigning : Type 0 where
  pub zone : Text
  pub last_serial : Option ℕ
  pub due_at : Option ℕ

pub record Proxy : Type 0 where
  pub id : ℕ
  pub name : Text
  pub is_direct : Bool
  pub host : Option Text
  pub port : Option ℕ
  pub username : Option Text
  pub password : Option Text
  pub enabled : Bool
  pub public_available : Bool

pub record CertObservation : Type 0 where
  pub id : ℕ
  pub zone : Text
  pub host : Text
  pub ip : Text
  pub port : ℕ
  pub subject : Option Text
  pub issuer : Option Text
  pub not_after : Option ℕ
  pub days_left : Option ℤ
  pub hostname_match : Option Bool
  pub self_signed : Option Bool
  pub trusted : Option Bool
  pub error : Option Text
  pub checked_at : ℕ

-- `next_id` is above the id of every row.
pub record Db : Type 0 where
  pub users : List User
  pub access : List ZoneAccess
  pub history : List HistoryEntry
  pub checks : List ZoneCheck
  pub tokens : List ApiToken
  pub signing : List ZoneSigning
  pub proxies : List Proxy
  pub certs : List CertObservation
  pub next_id : ℕ

-- The signed session cookie.
pub record Session : Type 0 where
  pub user_id : Option ℕ
  pub csrf : Option Text
  pub flashes : List (Text × Text)

abbrev pub empty_session : Session
empty_session = record { user_id = none; csrf = none; flashes = [] }

-- `S` is the state of the PowerDNS server; `sent` are the NOTIFY packets that the panel has sent
-- itself, as zone, address and port.
pub record World (S : Type 0) : Type 0 where
  pub server : S
  pub db : Db
  pub session : Session
  pub now : ℕ
  pub sent : List (Text × Text × ℤ)

-- A call of the PowerDNS client.
abbrev pub on_server : {S A : Type 0} → Exec S A → Exec (World S) A
on_server m w = let (r, s') = m w.server in (r, record w { server = s' })

module _ {S : Type 0} where
  abbrev pub get_db_state : Exec (World S) Db
  get_db_state w = (ok w.db, w)

  abbrev pub get_now : Exec (World S) ℕ
  get_now w = (ok w.now, w)

  abbrev pub get_session : Exec (World S) Session
  get_session w = (ok w.session, w)

  abbrev pub put_session : Session → Exec (World S) (Unit {0})
  put_session s w = (ok tt, record w { session = s })

  abbrev pub put_db : Db → Exec (World S) (Unit {0})
  put_db d w = (ok tt, record w { db = d })

  unfoldable pub log_history : Option ℕ → Text → Option Text → Text → Exec (World S) (Unit {0})
  log_history user_id target_type target message w = (
    ok tt,
    record w {
      db = record w.db {
        history =
            w.db.history
            ++ record {
              user_id = user_id;
              target_type = target_type;
              target = target;
              message = message;
            }
              ∷ [];
      };
    },
  )

  -- `flash` of app/mojodns/templating.py
  unfoldable pub flash : Text → Text → Exec (World S) (Unit {0})
  flash message level w = (
    ok tt,
    record w {
      session = record w.session { flashes = w.session.flashes ++ (message, level) ∷ [] };
    },
  )

-- `db.get(User, uid)`
unfoldable pub user_by_id : Db → ℕ → Option User
user_by_id db uid = find (λ u. u.id == uid) db.users
