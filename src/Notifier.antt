-- ===== src/Notifier.antt =====
-- app/mojodns/notifier.py: who is told of a change. DNS packets go out by a library: what is sent is
-- recorded, and the answers, which the code only logs, are not modelled.
use mojodns.Prelude.{
  ℕ, suc, Bool, not, ◌&&◌, ◌||◌, List, [], ◌∷◌, ◌++◌, none, some, map, filter, all, append_new, leb,
  length, ◌==◌, Exec, Result, ok, err, value_error, ◌>>=◌, continue, if◌then◌else◌,
}
use mojodns.Text.{
  Text, ℤ, pos, strip, starts_with, ends_with, partition, lstrip_char, rstrip_char, parse_int,
  split_by, split, is_space, is_empty, is_digit,
}
use mojodns.Pdns.{canonical}
use mojodns.Pdns.Types.{Api}
use mojodns.Pdns.Zones
use mojodns.Pdns.Update
use mojodns.Db.{World, on_server}

-- `token.count(":")`
unfoldable pub count_char : ℕ → Text → ℕ
count_char c [] = 0
count_char c (x ∷ xs) = let n = count_char c xs in if x == c then suc n else n

-- `int(port) if port else 53`
abbrev pub port_of : Text → Result ℤ
port_of [] = ok (pos 53)
port_of (c ∷ cs) = elim (parse_int (c ∷ cs)) [ none ↦ err (value_error (c ∷ cs)) | some n ↦ ok n ]

abbrev with_host : Text → Result ℤ → Result (Text × ℤ)
with_host host (ok port) = ok (host, port)
with_host host (err e) = err e

abbrev bracketed : Text → Result (Text × ℤ)
bracketed inside =
    let (host, found, rest) = partition b']' inside in
    with_host host (port_of (lstrip_char b':' rest))

abbrev tail_of : Text → Text
tail_of [] = []
tail_of (c ∷ cs) = cs

unfoldable pub split_host_port : Text → Result (Text × ℤ)
split_host_port token =
    let t = strip token in
    let (host, found, port) = partition b':' t in
    if starts_with (b'[' ∷ []) t
    then bracketed (tail_of t)
    else if count_char b':' t == 1
    then with_host host (port_of port)
    else with_host t (ok (pos 53))

-- A label of `_HOST_RE`: 1 to 63 letters, digits and hyphens, with no hyphen at either end.
abbrev pub is_label_char : ℕ → Bool
is_label_char c =
    is_digit c || (leb b'a' c && leb c b'z') || (leb b'A' c && leb c b'Z') || c == b'-'

unfoldable pub is_host_label : Text → Bool
is_host_label l =
    not (is_empty l)
    && leb (length l) 63
    && all is_label_char l
    && not (starts_with (b'-' ∷ []) l)
    && not (ends_with (b'-' ∷ []) l)

-- `t[:-1]` if it ends in a dot
unfoldable pub one_dot_less : Text → Text
one_dot_less [] = []
one_dot_less (x ∷ []) = if x == b'.' then [] else x ∷ []
one_dot_less (x ∷ y ∷ ys) = x ∷ one_dot_less (y ∷ ys)

-- `_HOST_RE.match`
unfoldable pub is_hostname : Text → Bool
is_hostname host =
    let body = one_dot_less host in leb (length body) 253 && all is_host_label (split b'.' body)

-- The lookups of this module: whether a text is an IP address, and the A records of a name.
pub record Lookup : Type 0 where
  pub is_ip : Text → Bool
  pub a_records : Text → List Text

module _ (dns : Lookup) where
  unfoldable pub add_target : Text → Result (Text × ℤ) → List Text → Result (List Text)
  add_target tok (ok (host, port)) out =
      if dns.is_ip host || is_hostname host then ok (append_new tok out) else err (value_error tok)
  add_target tok (err e) out = err e

  abbrev bind_targets : Result (List Text) → (List Text → Result (List Text)) → Result (List Text)
  bind_targets (ok out) f = f out
  bind_targets (err e) f = err e

  unfoldable pub parse_tokens : List Text → List Text → Result (List Text)
  parse_tokens [] out = ok out
  parse_tokens (tok ∷ toks) out =
      bind_targets (add_target tok (split_host_port tok) out) (parse_tokens toks)

  -- The tokens between commas and white space; empty ones are passed over.
  unfoldable pub parse_targets : Text → Result (List Text)
  parse_targets raw =
      parse_tokens
        (filter (λ t. not (is_empty t)) (split_by (λ c. c == b',' || is_space c) (strip raw))) []

  unfoldable pub resolve : Text → List Text
  resolve host =
      if dns.is_ip host then host ∷ [] else dns.a_records (rstrip_char b'.' host ++ b'.' ∷ [])

  abbrev record_sent : {S : Type 0} → List (Text × Text × ℤ) → World S → World S
  record_sent packets w = record w { sent = w.sent ++ packets }

  unfoldable pub send_notify : {S : Type 0} → Text → List Text → Exec (World S) (Unit {0})
  send_notify zone [] w = (ok tt, w)
  send_notify zone (t ∷ ts) w =
      continue (split_host_port t)
        (λ hp w.
          send_notify zone ts
            (record_sent (map (λ ip. (canonical zone, ip, hp.1)) (resolve hp.0)) w))
        w

  abbrev pub notify_listed : {S : Type 0} → Api S → Text → List Text → Exec (World S) (Unit {0})
  notify_listed api zone [] w = on_server (Zones.notify api zone) w
  notify_listed api zone (t ∷ ts) w = send_notify zone (t ∷ ts) w

  unfoldable pub notify_zone : {S : Type 0} → Api S → Text → Exec (World S) (Unit {0})
  notify_zone api zone = do
    targets ← on_server (Update.get_zone_also_notify api zone)
    notify_listed api zone targets
