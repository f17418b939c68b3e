-- ===== src/Lib.antt =====
-- A model of mojodns, a web panel for DNS zones that are served by a PowerDNS server (app/mojodns).
--
-- The panel keeps users, grants, history and tokens in its own tables and everything about zones on the
-- PowerDNS server, which it talks to over a REST API. A handler is an action `Exec (World S) A`
-- (Prelude/Actions): it reads and writes the world of a request and ends in a value or a raised error.
-- The world (Db) holds the server's state `S`, the tables, the session, the clock and the NOTIFY
-- packets sent. The server is the parameter `api : Api S` (Pdns/Types), any function from a request and a
-- state to a reply and a state; theorems that need more of it name it (`Stores` in
-- Pdns/Update/Stores). Other outside code is a parameter as well: `Idna`, `Lookup` for DNS, `Security`
-- for bcrypt, the digests of tokens and of the re-signing jitter, Python's ipaddress, `Resolver` and
-- `Dns` for the answers of resolvers and name servers, and `Network N` (Checks/Probe) for sockets, TLS and
-- certificates, with states in `N`.
--
-- Texts are lists of code points; case and white space are as Python has them for ASCII (Text).
--
-- Which file models what:
--   DnsUtil, DnsUtil/Soa, DnsUtil/Rows      app/mojodns/dnsutil.py
--   Pdns, Pdns/Client, Zones, Update, Tsig  app/mojodns/pdns.py, PdnsClient method by method
--   Db, Db/Transaction, Http                app/mojodns/db.py, templating.py, config.py
--   Access, Access/Grants                   app/mojodns/deps.py, the grants of routers/zones.py
--   Zones/*                                 app/mojodns/routers/zones.py, parse_zone_text of axfr.py
--   Idn, Notifier                           app/mojodns/idn.py, notifier.py
--   Api/Tokens, Api/Compat, Api/Ddns        app/mojodns/apitokens.py, routers/pdns_compat.py, ddns.py
--   Accounts, Accounts/Tokens, Users        app/mojodns/routers/auth.py, account.py, users.py
--   RateLimit, Csrf                         app/mojodns/ratelimit.py, csrf.py
--   Resign, Verify/*, Spf/*                 app/mojodns/resign.py, verify.py, spf.py
--   Secondaries, Secondaries/Delegation     app/mojodns/slaves.py
--   Dnssec/*, Pdns/Dnssec                   app/mojodns/dnsseccheck.py, the DS records of pdns.py
--   Checks/Proxies                          app/mojodns/routers/proxies.py
--   Checks/Guard, Http, Cert, Probe, Https  app/mojodns/netguard.py, httpcheck.py
--   Checks/Run, Checks/Certs                app/mojodns/routers/checks.py
--   Fake                                    app/tests/fake_pdns.py, a server to run the model on
-- Child modules named for a property (Owners, Window, Cap, Scope, Rows, …) hold its proof; Tests runs
-- the theorems on a small installation.
--
-- Every loop is a structural recursion but three, which take fuel: writing a number (Text/Number) takes
-- one unit more than the number, which each step divides by ten; the scan for quoted strings (Spf/Quote)
-- takes the length of its text, and each of its steps shortens the text; the loop that reads an answer
-- (Checks/Http) takes 16384, the number of bytes at which it stops, and each of its steps adds one at least.
--
-- A thread pool is modelled as one task after the other, and a dict with a fixed set of keys as a record.
-- Clocks count whole seconds, but for the dates of certificates, which count microseconds.
--
-- Not modelled: the history page, which only reads, and what else is but rendered; the latency that a
-- check reports; the transfer of a zone (axfr_text), which is all calls of dnspython; bcrypt, the reading of
-- the environment, the start-up code and the migration script.
pub mod Prelude
pub mod Text
pub mod DnsUtil
pub mod Pdns
pub mod Db
pub mod Http
pub mod Access
pub mod Idn
pub mod Notifier
pub mod Zones
pub mod Api
pub mod RateLimit
pub mod Csrf
pub mod Accounts
pub mod Verify
pub mod Fake
pub mod Checks
pub mod Secondaries
pub mod Dnssec
pub mod Tests
pub mod Resign
pub mod Spf
