-- ===== src/Checks/Contained.antt =====
-- Where the probes connect to.
use mojodns.Prelude.{
  ℕ, true, false, List, Option, none, some, Exec, ◌≡◌, refl, sym, ◌∙◌, ◌⊎◌, inl, inr, Bool-cases,
  arith, append-nil, ap,
}
use mojodns.Text.{Text, rstrip_char}
use mojodns.Checks.Proxies.{ProxySpec}
use mojodns.Checks.Http.{Answer, answered, broken, value_error, http_request}
use mojodns.Checks.Probe.{
  Network, Dial, Handshake, secured, unverified, refused, Opened, reached, failed, classified,
  blocked, connect, ask, http_outcome, check_tcp, check_http, CertInfo,
}
use mojodns.Checks.Https.{
  check_https, inspect, after_handshake, after_http, verdict, cert_of, finish, answered_report,
}
use mojodns.Checks.Quiet.{
  Target, state-of_pure, QuietDial, QuietHandshake, IsLogged, Dials, Dials-from, Dials-then,
  http_request-log, QuietOpened, opened_direct-quiet, opened_by_proxy-quiet,
}

module _ {N : Type 0} (log : N → List Target) where
  module _ (net : Network N) (logged : IsLogged log net) where
    classified-quiet :
        (proxy : Option ProxySpec) (d : Dial N)
        → QuietDial log d
        → QuietOpened log (classified net proxy d)
    classified-quiet none d h = opened_direct-quiet log d h
    classified-quiet (some p) d h = opened_by_proxy-quiet log d h

    -- The check is refused without a connection, or it connects to its own target only: at least `low`
    -- times and at most `high` times.
    abbrev pub IsContained : {A : Type 0} → ℕ → ℕ → Target → Exec N A → N → Type 0
    IsContained low high target m n =
        ((blocked net target.1 ≡ true) × ((m n).1 ≡ n))
        ⊎ ((blocked net target.1 ≡ false) × Dials log low high target n (m n).1)

    module _ (ip host : Text) (port : ℕ) (proxy : Option ProxySpec) where
      abbrev target : Target
      target = (proxy, ip, port)

      once : (n m : N) → log m ≡ log (net.dial proxy ip port n).1 → Dials log 1 1 target n m
      once n m h = (1, omega arith, omega arith, h ∙ logged.dials proxy ip port n)

      at_most : (n m : N) → Dials log 1 1 target n m → Dials log 0 1 target n m
      at_most n m (k, le, ge, e) = (k, omega arith, ge, e)

      check_tcp-IsContained : (n : N) → IsContained 1 1 target (check_tcp net ip port proxy) n
      unfolding check_tcp connect
      check_tcp-IsContained n = elim (Bool-cases (blocked net ip)) [
        | inl e ↦ rw e (inl (refl, refl))
        | inr e ↦ rw e (inr (refl, once n _ refl))
      ]

      ask-log :
          (name : Text) (o : Opened N)
          → QuietOpened log o
          → (n : N) → log (ask net ip name port o n).1 ≡ log n
      ask-log name (failed status detail) h n = refl
      ask-log name (reached sock) h n =
          go (http_request sock name n) (http_request-log log sock h name n)
        where
          go :
              (r : Answer × N)
              → log r.1 ≡ log n
              → log (http_outcome net ip name port r.0 r.1).1 ≡ log n
          go (answered r, m) e = e
          go (broken f, m) e = e
          go (value_error, m) e = e

      opened-quiet : (n : N) → QuietOpened log (classified net proxy (net.dial proxy ip port n).0)
      opened-quiet n = classified-quiet proxy _ (logged.dials_quiet proxy ip port n)

      check_http-IsContained :
          (n : N) → IsContained 1 1 target (check_http net ip host port proxy) n
      unfolding check_http connect
      check_http-IsContained n = elim (Bool-cases (blocked net ip)) [
        | inl e ↦ rw e (inl (refl, refl))
        | inr e ↦ rw e (inr (refl, once n _ (ask-log (rstrip_char b'.' host) _ (opened-quiet n) _)))
      ]

      verdict-log :
          (now : ℕ) (name : Text) (o : Opened N)
          → QuietOpened log o
          → (n : N) → log (verdict net now name o n).1 ≡ log n
      verdict-log now name (failed status detail) h n = refl
      verdict-log now name (reached sock) h n = logged.shakes true sock name n h

      module _ (now : ℕ) (name : Text) where
        after_http-log :
            (cert : Option CertInfo) (a : Answer) (n : N)
            → Dials log 0 1 target n (after_http net now ip name port proxy cert a n).1
        unfolding connect
        after_http-log cert (answered r) n = at_most n _ (
            once n _ (
              ap log (state-of_pure _ (finish (answered_report net now ip name port cert r)) _)
              ∙ verdict-log now name _ (opened-quiet n) (net.dial proxy ip port n).1))
        after_http-log cert (broken e) n = (0, omega arith, omega arith, sym (append-nil (log n)))
        after_http-log cert value_error n = (0, omega arith, omega arith, sym (append-nil (log n)))

        after_handshake-log :
            (h : Handshake N)
            → QuietHandshake log h
            → (n : N) → Dials log 0 1 target n (after_handshake net now ip name port proxy h n).1
        after_handshake-log (secured sock der) quiet n =
            go (http_request sock name n) (http_request-log log sock quiet name n)
          where
            go :
                (r : Answer × N)
                → log r.1 ≡ log n
                → Dials log 0 1 target n
                    (after_http net now ip name port proxy (cert_of net now name der) r.0 r.1).1
            go (a, m) e =
                Dials-from log 0 1 target n m _ e (after_http-log (cert_of net now name der) a m)
        after_handshake-log (unverified e) quiet n =
            (0, omega arith, omega arith, sym (append-nil (log n)))
        after_handshake-log (refused e) quiet n =
            (0, omega arith, omega arith, sym (append-nil (log n)))

        inspect-log :
            (o : Opened N)
            → QuietOpened log o
            → (n : N) → Dials log 0 1 target n (inspect net now ip name port proxy o n).1
        inspect-log (failed status detail) quiet n =
            (0, omega arith, omega arith, sym (append-nil (log n)))
        inspect-log (reached raw) quiet n =
            Dials-from log 0 1 target n _ _ (logged.shakes false raw name n quiet)
              (after_handshake-log _ (logged.shakes_quiet false raw name n quiet) _)

      check_https-IsContained :
          (now : ℕ) (n : N) → IsContained 1 2 target (check_https net now ip host port proxy) n
      unfolding check_https connect
      check_https-IsContained now n = elim (Bool-cases (blocked net ip)) [
        | inl e ↦ rw e (inl (refl, refl))
        | inr e ↦ rw e (
            inr (
              refl,
              Dials-then log 0 1 target n _ _ (logged.dials proxy ip port n)
                  (inspect-log now (rstrip_char b'.' host) _ (opened-quiet n) _),
            ))
      ]

    -- A blocked address is never connected to. Otherwise a check connects to the address and port it was
    -- given, through the proxy it was given, and to nothing else: exactly once for TCP and HTTP, once or
    -- twice for HTTPS, whose second handshake is the one that verifies.
    pub checks-Contained :
        (proxy : Option ProxySpec) (ip host : Text) (port now : ℕ) (n : N)
        → IsContained 1 1 (proxy, ip, port) (check_tcp net ip port proxy) n
          × IsContained 1 1 (proxy, ip, port) (check_http net ip host port proxy) n
          × IsContained 1 2 (proxy, ip, port) (check_https net now ip host port proxy) n
    checks-Contained proxy ip host port now n = (
      check_tcp-IsContained ip host port proxy n,
      check_http-IsContained ip host port proxy n,
      check_https-IsContained ip host port proxy now n,
    )
