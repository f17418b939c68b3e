-- ===== src/Checks/Https.antt =====
-- app/mojodns/httpcheck.py: the HTTPS check.
use mojodns.Prelude.{
  ℕ, true, false, List, [], ◌∷◌, ◌++◌, Option, none, some, Exec, ok, crash, pure, raise, ◌>>=◌, ◌⊎◌,
  inl, inr, if◌then◌else◌,
}
use mojodns.Text.{Text, codes, rstrip_char}
use mojodns.Checks.Http.{
  Failure, ssl_failure, os_failure, HttpReply, Answer, answered, broken, value_error, http_request,
}
use mojodns.Checks.Proxies.{ProxySpec}
use mojodns.Checks.Cert.{Certificate, analyze_cert}
use mojodns.Checks.Probe.{
  Network, Handshake, secured, unverified, refused, Opened, reached, failed, Trust, CertInfo,
  Report, bare_report, blocked_report, has_status, blocked, connect,
}

-- The report before anything has answered.
abbrev out_of : Text → Text → ℕ → Text → Option Text → Report
out_of ip host port status detail = bare_report (codes "https") ip (some host) port status detail

abbrev parsed : ℕ → Text → Certificate ⊎ Text → CertInfo
parsed now host (inl cert) = record {
  analysis = some (analyze_cert now cert host);
  error = none;
  trust = none;
}
parsed now host (inr e) = record {
  analysis = none;
  error = some (codes "cert parse failed: " ++ e);
  trust = none;
}

-- `e.reason or e`
abbrev reason_or : Text → Option Text → Text
reason_or e none = e
reason_or e (some []) = e
reason_or e (some (c ∷ cs)) = c ∷ cs

abbrev failure_detail : Failure → Text
failure_detail (ssl_failure reason e) = codes "TLS error: " ++ reason_or e reason
failure_detail (os_failure e) = e

abbrev failure_text : Failure → Text
failure_text (ssl_failure reason e) = e
failure_text (os_failure e) = e

abbrev with_trust : Trust → Option CertInfo → Option CertInfo
with_trust trust none = none
with_trust trust (some c) = some (record c { trust = some trust })

-- The last lines: the verdict is added to the certificate, and the status follows from the HTTP answer.
unfoldable pub finish : Report → Trust → Report
finish out trust = record out {
  cert = with_trust trust out.cert;
  status =
      if has_status out.http_status
      then codes "ok"
      else if out.tls_ok
      then codes "tls-only"
      else codes "error";
}

unfoldable pub trust_of : {N : Type 0} → Handshake N → Trust
trust_of (secured sock der) = record { trusted = true; trust_error = none }
trust_of (unverified e) = record { trusted = false; trust_error = some e }
trust_of (refused failure) = record { trusted = false; trust_error = some (failure_text failure) }

module _ {N : Type 0} (net : Network N) (now : ℕ) where
  -- `_analyze_cert` of the bytes, if there are any
  abbrev pub cert_of : Text → Option (List ℕ) → Option CertInfo
  cert_of host none = none
  cert_of host (some []) = none
  cert_of host (some (b ∷ bs)) = some (parsed now host (net.load_der (b ∷ bs)))

  -- The verifying handshake, over a connection of its own.
  abbrev pub verdict : Text → Opened N → Exec N Trust
  verdict host (failed status detail) n =
      (ok (record { trusted = false; trust_error = some detail }), n)
  verdict host (reached sock) n =
      let (h, n') = net.handshake true sock host n in (ok (trust_of h), n')

  abbrev pub answered_report : Text → Text → ℕ → Option CertInfo → HttpReply → Report
  answered_report ip host port cert r = record (out_of ip host port (codes "error") none) {
    tls_ok = true;
    cert = cert;
    http_status = r.http_status;
    status_line = r.status_line;
    server = r.server;
    location = r.location;
  }

  -- A ValueError of `int` leaves the check; an error of `sendall` ends it.
  abbrev pub after_http :
      Text → Text → ℕ → Option ProxySpec → Option CertInfo → Answer → Exec N Report
  after_http ip host port proxy cert (answered r) = do
    opened ← connect net ip port proxy
    trust ← verdict host opened
    pure (finish (answered_report ip host port cert r) trust)
  after_http ip host port proxy cert (broken e) =
      pure (record (out_of ip host port (codes "error") (some (failure_detail e))) {
        tls_ok = true;
        cert = cert;
      })
  after_http ip host port proxy cert value_error = raise crash

  abbrev pub after_handshake : Text → Text → ℕ → Option ProxySpec → Handshake N → Exec N Report
  after_handshake ip host port proxy (secured sock der) n =
      let (a, n') = http_request sock host n in
      after_http ip host port proxy (cert_of host der) a n'
  after_handshake ip host port proxy (unverified e) n =
      (ok (out_of ip host port (codes "error") (some (codes "TLS error: " ++ e))), n)
  after_handshake ip host port proxy (refused e) n =
      (ok (out_of ip host port (codes "error") (some (failure_detail e))), n)

  abbrev pub inspect : Text → Text → ℕ → Option ProxySpec → Opened N → Exec N Report
  inspect ip host port proxy (failed status detail) n =
      (ok (out_of ip host port status (some detail)), n)
  inspect ip host port proxy (reached raw) n =
      let (h, n') = net.handshake false raw host n in after_handshake ip host port proxy h n'

  unfoldable pub check_https : Text → Text → ℕ → Option ProxySpec → Exec N Report
  check_https ip raw_host port proxy =
      let host = rstrip_char b'.' raw_host in
      if blocked net ip
      then pure (blocked_report (codes "https") ip (some host) port)
      else connect net ip port proxy >>= inspect ip host port proxy
