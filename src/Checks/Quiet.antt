-- ===== src/Checks/Quiet.antt =====
-- Networks that log the connections that are asked for, and sockets that open none.
use mojodns.Prelude.{
  ℕ, zero, suc, ◌≤◌, Bool, List, [], ◌∷◌, ◌++◌, Option, none, some, Result, ok, err, pure, continue,
  ◌≡◌, refl, ◌∙◌, inl, inr, Bool-cases, arith, append_assoc, ap,
}
use mojodns.Text.{Text}
use mojodns.Checks.Proxies.{ProxySpec}
use mojodns.Checks.Http.{
  Socket, Failure, wants_more, read_head, received, http_request, after_send, request_text,
}
use mojodns.Checks.Probe.{
  Network, Dial, connected, connection_refused, timed_out, socks5_auth_error,
  proxy_connection_error, socks5_error, general_proxy_error, os_error, Handshake, secured,
  unverified, refused, Opened, reached, failed, opened_direct, opened_by_proxy,
}

-- A connection that was asked for.
abbrev pub Target : Type 0
Target = Option ProxySpec × Text × ℕ

abbrev pub repeat : ℕ → Target → List Target
repeat zero t = []
repeat (suc k) t = t ∷ repeat k t

pub state-of_pure :
    {S A B : Type 0} (r : Result A) (f : A → B) (s : S) → (continue r (λ a. pure (f a)) s).1 ≡ s
state-of_pure (ok a) f s = refl
state-of_pure (err e) f s = refl

module _ {N : Type 0} (log : N → List Target) where
  -- A socket that opens no connection.
  pub record IsQuiet (sock : Socket N) : Type 0 where
    pub sends : (t : Text) (n : N) → log (sock.sendall t n).1 ≡ log n
    pub receives : (n : N) → log (sock.recv n).1 ≡ log n

  abbrev pub QuietDial : Dial N → Type 0
  QuietDial (connected sock) = IsQuiet sock
  QuietDial (connection_refused e) = Unit
  QuietDial timed_out = Unit
  QuietDial (socks5_auth_error e) = Unit
  QuietDial (proxy_connection_error e) = Unit
  QuietDial (socks5_error e) = Unit
  QuietDial (general_proxy_error e) = Unit
  QuietDial (os_error e) = Unit

  abbrev pub QuietHandshake : Handshake N → Type 0
  QuietHandshake (secured sock der) = IsQuiet sock
  QuietHandshake (unverified e) = Unit
  QuietHandshake (refused e) = Unit

  -- A network that logs the connections that are asked for, in order.
  pub record IsLogged (net : Network N) : Type 0 where
    pub dials :
        (proxy : Option ProxySpec) (ip : Text) (port : ℕ) (n : N)
        → log (net.dial proxy ip port n).1 ≡ log n ++ (proxy, ip, port) ∷ []
    pub dials_quiet :
        (proxy : Option ProxySpec) (ip : Text) (port : ℕ) (n : N)
        → QuietDial (net.dial proxy ip port n).0
    pub shakes :
        (v : Bool) (sock : Socket N) (host : Text) (n : N)
        → IsQuiet sock
        → log (net.handshake v sock host n).1 ≡ log n
    pub shakes_quiet :
        (v : Bool) (sock : Socket N) (host : Text) (n : N)
        → IsQuiet sock
        → QuietHandshake (net.handshake v sock host n).0

  -- From `n` to `n'` at least `low` and at most `high` connections were asked for, all of them to
  -- `target`.
  abbrev pub Dials : ℕ → ℕ → Target → N → N → Type 0
  Dials low high target n n' =
      (k : ℕ) × (low ≤ k) × (k ≤ high) × (log n' ≡ log n ++ repeat k target)

  pub Dials-from :
      (low high : ℕ) (target : Target) (n m m' : N)
      → log m ≡ log n
      → Dials low high target m m'
      → Dials low high target n m'
  Dials-from low high target n m m' e (k, le, ge, f) =
      (k, le, ge, f ∙ ap (λ l. l ++ repeat k target) e)

  pub Dials-then :
      (low high : ℕ) (target : Target) (n m m' : N)
      → log m ≡ log n ++ target ∷ []
      → Dials low high target m m'
      → Dials (suc low) (suc high) target n m'
  Dials-then low high target n m m' e (k, le, ge, f) = (
    suc k,
    omega (arith, le),
    omega (arith, ge),
    f ∙ ap (λ l. l ++ repeat k target) e ∙ append_assoc (log n) (target ∷ []) (repeat k target),
  )

  module _ (sock : Socket N) (quiet : IsQuiet sock) where
    read_head-log : (fuel : ℕ) (buf : Text) (n : N) → log (read_head fuel sock buf n).1 ≡ log n
    unfolding read_head
    read_head-log zero buf n = refl
    read_head-log (suc fuel) buf n = elim (Bool-cases (wants_more buf)) [
      | inl e ↦ rw e (go (sock.recv n) (quiet.receives n) (read_head-log fuel))
      | inr e ↦ rw e refl
    ]
      where
        go :
            (r : Option Text × N)
            → log r.1 ≡ log n
            → ((t : Text) (m : N) → log (read_head fuel sock t m).1 ≡ log m)
            → log (received r (read_head fuel sock) buf).1 ≡ log n
        go (none, m) h again = h
        go (some [], m) h again = h
        go (some (c ∷ cs), m) h again = again (buf ++ c ∷ cs) m ∙ h

    pub http_request-log : (host : Text) (n : N) → log (http_request sock host n).1 ≡ log n
    unfolding http_request
    http_request-log host n = go (sock.sendall (request_text host) n) (quiet.sends _ n)
      where
        go : (r : Option Failure × N) → log r.1 ≡ log n → log (after_send sock r).1 ≡ log n
        go (some e, m) h = h
        go (none, m) h = read_head-log 16384 [] m ∙ h

  abbrev pub QuietOpened : Opened N → Type 0
  QuietOpened (reached sock) = IsQuiet sock
  QuietOpened (failed status detail) = Unit

  pub opened_direct-quiet : (d : Dial N) → QuietDial d → QuietOpened (opened_direct d)
  unfolding opened_direct
  opened_direct-quiet (connected sock) h = h
  opened_direct-quiet (connection_refused e) h = tt
  opened_direct-quiet timed_out h = tt
  opened_direct-quiet (socks5_auth_error e) h = tt
  opened_direct-quiet (proxy_connection_error e) h = tt
  opened_direct-quiet (socks5_error e) h = tt
  opened_direct-quiet (general_proxy_error e) h = tt
  opened_direct-quiet (os_error e) h = tt

  socks5_failure-quiet : (e : Text) → QuietOpened (opened_by_proxy (socks5_error e))
  unfolding opened_by_proxy
  socks5_failure-quiet e = ground arith

  pub opened_by_proxy-quiet : (d : Dial N) → QuietDial d → QuietOpened (opened_by_proxy d)
  unfolding opened_by_proxy
  opened_by_proxy-quiet (connected sock) h = h
  opened_by_proxy-quiet (connection_refused e) h = tt
  opened_by_proxy-quiet timed_out h = tt
  opened_by_proxy-quiet (socks5_auth_error e) h = tt
  opened_by_proxy-quiet (proxy_connection_error e) h = tt
  opened_by_proxy-quiet (socks5_error e) h = socks5_failure-quiet e
  opened_by_proxy-quiet (general_proxy_error e) h = tt
  opened_by_proxy-quiet (os_error e) h = tt
