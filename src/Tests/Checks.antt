-- ===== src/Tests/Checks.antt =====
-- Probes on a network whose state is the list of the connections that were asked for.
use mojodns.Prelude.{
  true, false, List, [], ◌∷◌, ◌++◌, All, none, some, inl, refl, length, ◌≤◌, ◌≡◌, any, ◌==◌, ◌&&◌,
  ◌||◌, arith, filter, ◌+◌,
}
use mojodns.Text.{Text, codes, pos}
use mojodns.Db.{Proxy, Db, is_admin}
use mojodns.Checks.Guard.{Flags}
use mojodns.Checks.Http.{Socket, read_head, blank_line}
use mojodns.Checks.Http.Head.{IsBounded, length-read_head, read_head-fuel}
use mojodns.Checks.Cert.{Certificate}
use mojodns.Checks.Probe.{Network, connected, secured, Report, bare_report, check_tcp, check_http}
use mojodns.Checks.Https.{check_https}
use mojodns.Checks.Contained.{IsContained, checks-Contained}
use mojodns.Checks.Quiet.{Target, IsQuiet, IsLogged}
use mojodns.Checks.Proxies.{visible_proxies}
use mojodns.Checks.Proxies.Visible.{Usable, Follows, visible_proxies-Usable}
use mojodns.Checks.Certs.{store_cert}
use mojodns.Checks.Certs.Rows.{rows_of, IsUnique, store_cert-IsUnique}
use mojodns.Checks.Run.{Panel}
use mojodns.Pdns.{canonical}
use mojodns.Fake as Stand
use mojodns.Tests.{demo, demo_db, demo_zone, owner}

abbrev web_ip : Text
web_ip = codes "8.8.8.8"

abbrev web_answer : Text
web_answer = codes "HTTP/1.1 200 OK" ++ blank_line

abbrev web_socket : Socket (List Target)
web_socket = record { sendall = λ t n. (none, n); recv = λ n. (some web_answer, n) }

abbrev public_flags : Flags
public_flags = record {
  is_loopback = false;
  is_link_local = false;
  is_private = false;
  is_reserved = false;
  is_multicast = false;
  is_unspecified = false;
  is_global = true;
}

abbrev web_cert : Certificate
web_cert = record {
  subject = record { common_name = some (codes "w.a.b"); rfc4514 = [] };
  issuer = record { common_name = none; rfc4514 = codes "CN=ca" };
  is_self_issued = false;
  sans = codes "*.a.b" ∷ [];
  not_before = 0;
  not_after = 1000;
}

abbrev web : Network (List Target)
web = record {
  dial = λ proxy ip port n. (connected web_socket, n ++ (proxy, ip, port) ∷ []);
  handshake = λ v sock host n. (secured web_socket (some (1 ∷ [])), n);
  load_der = λ der. inl web_cert;
  address = λ t. some (record { flags = public_flags; ipv4_mapped = none });
  check_allow_private = false;
}

web-IsQuiet : IsQuiet (λ n. n) web_socket
web-IsQuiet = record { sends = λ t n. refl; receives = λ n. refl }

web_logged : IsLogged (λ n. n) web
web_logged = record {
  dials = λ proxy ip port n. refl;
  dials_quiet = λ proxy ip port n. web-IsQuiet;
  shakes = λ v sock host n quiet. refl;
  shakes_quiet = λ v sock host n quiet. web-IsQuiet;
}

checks-Contained_example :
    IsContained (λ n. n) web web_logged 1 1 (none, web_ip, 443) (check_tcp web web_ip 443 none) []
    × IsContained
        (λ n. n)
        web
        web_logged
        1
        1
        (none, web_ip, 443)
        (check_http web web_ip (codes "w.a.b.") 443 none)
        []
    × IsContained
        (λ n. n)
        web
        web_logged
        1
        2
        (none, web_ip, 443)
        (check_https web 500 web_ip (codes "w.a.b.") 443 none)
        []
checks-Contained_example =
    checks-Contained (λ n. n) web web_logged none web_ip (codes "w.a.b.") 443 500 []

abbrev direct : Proxy
direct = record {
  id = 1;
  name = codes "direct";
  is_direct = true;
  host = none;
  port = none;
  username = none;
  password = none;
  enabled = true;
  public_available = true;
}

abbrev inner : Proxy
inner = record direct {
  id = 2;
  name = codes "lab";
  is_direct = false;
  host = some (codes "10.0.0.1");
  public_available = false;
}

abbrev proxy_db : Db
proxy_db = record demo_db { proxies = inner ∷ direct ∷ [] }

visible_proxies-Usable_example :
    let visible = visible_proxies proxy_db owner in
    All (Usable owner) visible
    × Follows visible
    × (any (λ p. p.id == 1) visible
        ≡ any
            (λ p. p.id == 1 && (p.enabled && (is_admin owner || p.public_available)))
            proxy_db.proxies)
visible_proxies-Usable_example = visible_proxies-Usable proxy_db owner 1

abbrev web_zone : Stand.Server
web_zone = record {
  zones =
      record {
        data' = record demo_zone {
          rrsets =
              record {
                name = codes "w.a.b.";
                rtype = codes "A";
                ttl = pos 60;
                records = record { content = codes "8.8.8.8"; disabled = false } ∷ [];
              }
              ∷ [];
        };
        meta = [];
      }
      ∷ [];
  keys = [];
}

abbrev panel : Panel Stand.Server (List Target)
panel = record { world = record demo { server = web_zone; db = proxy_db }; hits = []; net = [] }

web-IsBounded : IsBounded 4096 web_socket
web-IsBounded n = omega arith

length-read_head_example : length (read_head 16384 web_socket [] []).0 ≤ 16383 + 4096
length-read_head_example = length-read_head 4096 web_socket web-IsBounded 16384 [] [] (omega arith)

read_head-fuel_example : read_head 16384 web_socket [] [] ≡ read_head 20000 web_socket [] []
read_head-fuel_example = read_head-fuel web_socket 16384 20000 [] [] (omega arith) (omega arith)

no_rows : IsUnique demo_db
unfolding filter
no_rows host ip port = omega arith

abbrev tls_failed : Report
tls_failed = bare_report (codes "https") web_ip (some (codes "w.a.b")) 443 (codes "error") none

store_cert-IsUnique_example :
    (rows_of
        (codes "w.a.b.")
        web_ip
        443
        (store_cert (codes "a.b.") (codes "w.a.b") web_ip 500 tls_failed demo_db)
      ≤ 1)
    × (rows_of
          (canonical (codes "w.a.b"))
          web_ip
          443
          (store_cert (codes "a.b.") (codes "w.a.b") web_ip 500 tls_failed demo_db)
        ≡ 1)
store_cert-IsUnique_example =
    store_cert-IsUnique (codes "a.b.") (codes "w.a.b") web_ip 500 tls_failed demo_db no_rows
      (codes "w.a.b.") web_ip 443
