-- ===== src/Tests.antt =====
-- A small installation to run the model on: the server of app/tests/fake_pdns.py with one zone, an
-- owner, an admin, and their tables.
mod Server
mod Sweep
mod Panel
mod Names
mod Flaky
mod Checks
mod Spf
mod Secondaries
use mojodns.Prelude.{ℕ, true, false, List, [], ◌∷◌, Option, none, some}
use mojodns.Text.{Text, codes, pos}
use mojodns.Pdns.Types.{Zone, Change, Api}
use mojodns.Http.{Settings}
use mojodns.Db.{User, ZoneAccess, ApiToken, ZoneSigning, Db, Session, World}
use mojodns.Notifier.{Lookup}
use mojodns.Accounts.{Security}
use mojodns.Fake as Stand

abbrev pub zone_name : Text
zone_name = codes "a.b."

abbrev pub demo_zone : Zone
demo_zone = record {
  name = codes "a.b.";
  kind = codes "Master";
  catalog = [];
  serial = some 7;
  dnssec = true;
  rrsets = [];
  master_tsig_key_ids = [];
}

abbrev pub demo_server : Stand.Server
demo_server = record { zones = record { data' = demo_zone; meta = [] } ∷ []; keys = [] }

abbrev pub no_digest : Text → Text
no_digest t = t

abbrev pub demo_api : Api Stand.Server
demo_api = Stand.fake_pdns no_digest

abbrev pub owner : User
owner = record {
  id = 2;
  login = codes "o";
  email = none;
  password_hash = codes "pw";
  role = codes "owner";
  state = codes "active";
  enabled = true;
  must_change_password = false;
  last_login = none;
  last_pwd_change = some 0;
  check_rate_limit = none;
}

abbrev pub root : User
root = record owner { id = 1; login = codes "r"; role = codes "admin" }

abbrev pub grants : List ZoneAccess
grants =
    record { id = 1; zone = codes "a.b."; user_id = 2; is_owner = true }
    ∷ record { id = 2; zone = codes "a.b."; user_id = 3; is_owner = false }
    ∷ []

abbrev pub demo_db : Db
demo_db = record {
  users = root ∷ owner ∷ [];
  access = grants;
  history = [];
  checks = [];
  tokens =
      record { id = 4; user_id = 2; token_hash = codes "t"; name = codes "n"; expires_at = none }
      ∷ [];
  signing = record { zone = codes "a.b."; last_serial = some 7; due_at = some 5 } ∷ [];
  proxies = [];
  certs = [];
  next_id = 9;
}

abbrev pub demo_session : Session
demo_session = record { user_id = some 2; csrf = some (codes "tok"); flashes = [] }

abbrev pub demo : World Stand.Server
demo = record { server = demo_server; db = demo_db; session = demo_session; now = 100; sent = [] }

abbrev pub plain : Security
plain = record {
  hash = λ t. t;
  verify = λ password digest. true;
  needs_rehash = λ digest. false;
  dummy = [];
}

abbrev pub demo_settings : Settings
demo_settings = record {
  catalog_zone = codes "catalog.";
  tsig_key = codes "k";
  tsig_key_names = codes "k" ∷ [];
  default_ns_list = codes "ns." ∷ [];
  password_max_age_days = pos 0;
  default_check_rate_limit = pos 10;
  login_rate_limit = pos 5;
}

abbrev pub no_dns : Lookup
no_dns = record { is_ip = λ t. false; a_records = λ t. [] }

abbrev pub txt_change : Change
txt_change = record {
  name = some (codes "x.a.b.");
  rtype = some (codes "TXT");
  changetype = some (codes "DELETE");
  ttl = none;
  records = [];
}
