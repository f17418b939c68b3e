-- ===== src/Checks/Http.antt =====
-- app/mojodns/httpcheck.py: the request and the head of its answer. Bytes are numbers, and are their own
-- latin-1 characters.
pub mod Head
use mojodns.Prelude.{
  ℕ, zero, suc, Bool, true, false, not, ◌&&◌, ◌||◌, List, [], ◌∷◌, ◌++◌, Option, none, some, length,
  Exec, Result, ok, err, crash, pure, raise, ◌>>=◌, all, ltb, if◌then◌else◌, ◌==◌, ◌≟◌,
}
use mojodns.Text.{
  Text, codes, strip, lower, is_empty, is_digit, is_infix, starts_with, split, partition, join,
  parse_nat,
}

abbrev crlf : Text
crlf = 13 ∷ 10 ∷ []

abbrev pub blank_line : Text
blank_line = 13 ∷ 10 ∷ 13 ∷ 10 ∷ []

-- An exception of a socket with its text, and the reason of an SSLError.
pub data Failure : Type 0 where
  ssl_failure : Option Text → Text → Failure
  os_failure : Text → Failure

-- An open socket: what `sendall` raises, and the bytes that `recv(4096)` returns, none when it raises.
pub record Socket (N : Type 0) : Type 0 where
  pub sendall : Text → N → Option Failure × N
  pub recv : N → Option Text × N

pub record HttpReply : Type 0 where
  pub http_status : Option ℕ
  pub status_line : Option Text
  pub server : Option Text
  pub location : Option Text
  pub detail : Option Text

-- The loop goes on while the blank line is missing and fewer than 16384 bytes are there.
unfoldable pub wants_more : Text → Bool
wants_more buf = not (is_infix blank_line buf) && ltb (length buf) 16384

module _ {N : Type 0} where
  abbrev pub received : Option Text × N → (Text → N → Text × N) → Text → Text × N
  received (none, n) again buf = (buf, n)
  received (some [], n) again buf = (buf, n)
  received (some (b ∷ bs), n) again buf = again (buf ++ b ∷ bs) n

  -- The loop on fuel.
  unfoldable pub read_head : ℕ → Socket N → Text → N → Text × N
  read_head zero sock buf n = (buf, n)
  read_head (suc fuel) sock buf n =
      if wants_more buf then received (sock.recv n) (read_head fuel sock) buf else (buf, n)

-- `buf.split(sep, 1)[0]`
unfoldable pub before : Text → Text → Text
before sep [] = []
before sep (b ∷ bs) = let rest = before sep bs in if starts_with sep (b ∷ bs) then [] else b ∷ rest

abbrev push : ℕ → List Text → List Text
push b [] = (b ∷ []) ∷ []
push b (l ∷ ls) = (b ∷ l) ∷ ls

-- `head.split("\r\n")`
unfoldable pub split_lines : Text → List Text
split_lines [] = [] ∷ []
split_lines (b ∷ []) = (b ∷ []) ∷ []
split_lines (b ∷ c ∷ cs) =
    let rest = split_lines cs in
    let next = split_lines (c ∷ cs) in if b == 13 && c == 10 then [] ∷ rest else push b next

-- The header `key`: the last line with that name counts.
abbrev header_line : Text → Text × Bool × Text → Option Text
header_line key (k, false, v) = none
header_line key (k, true, v) = if lower (strip k) ≟ key then some (strip v) else none

abbrev or_else : Option Text → Option Text → Option Text
or_else (some v) w = some v
or_else none w = w

unfoldable pub header : Text → List Text → Option Text
header key [] = none
header key (ln ∷ lns) = or_else (header key lns) (header_line key (partition b':' ln))

-- The latin-1 characters for which `isdigit` holds: besides the digits the three superscripts, which
-- `int` does not take.
abbrev superscript : ℕ → Bool
superscript c = c == 0xb2 || c == 0xb3 || c == 0xb9

abbrev int_or_raise : Option ℕ → Result (Option ℕ)
int_or_raise none = err crash
int_or_raise (some n) = ok (some n)

unfoldable pub status_word : Text → Result (Option ℕ)
status_word part =
    if not (is_empty part) && all (λ c. is_digit c || superscript c) part
    then int_or_raise (parse_nat part)
    else ok none

abbrev status_of : List Text → Result (Option ℕ)
status_of [] = ok none
status_of (p ∷ []) = ok none
status_of (p ∷ q ∷ rest) = status_word q

-- `http_status` of a status line: `crash` is the ValueError of `int`.
unfoldable pub parse_status : Text → Result (Option ℕ)
parse_status status_line = status_of (split b' ' status_line)

abbrev reply_of : List Text → Result HttpReply
reply_of [] = err crash
reply_of (status_line ∷ lines) = build (parse_status status_line)
  where
    build : Result (Option ℕ) → Result HttpReply
    build (err e) = err e
    build (ok http_status) = ok (record {
      http_status = http_status;
      status_line = some status_line;
      server = header (codes "server") lines;
      location = header (codes "location") lines;
      detail = none;
    })

unfoldable pub parse_reply : Text → Result HttpReply
parse_reply [] = ok (record {
  http_status = none;
  status_line = none;
  server = none;
  location = none;
  detail = some (codes "no HTTP response");
})
parse_reply (b ∷ bs) = reply_of (split_lines (before blank_line (b ∷ bs)))

abbrev pub request_text : Text → Text
request_text host = join crlf (
    codes "GET / HTTP/1.1"
    ∷ (codes "Host: " ++ host)
    ∷ codes "User-Agent: mojodns-check/1"
    ∷ codes "Accept: */*"
    ∷ codes "Connection: close"
    ∷ []
    ∷ []
    ∷ [])

-- What comes of a request: a reply, what `sendall` raised, or the ValueError of `int`.
pub data Answer : Type 0 where
  answered : HttpReply → Answer
  broken : Failure → Answer
  value_error : Answer

abbrev as_answer : Result HttpReply → Answer
as_answer (ok r) = answered r
as_answer (err e) = value_error

module _ {N : Type 0} where
  abbrev pub after_send : Socket N → Option Failure × N → Answer × N
  after_send sock (some failure, n) = (broken failure, n)
  after_send sock (none, n) =
      let (buf, m) = read_head 16384 sock [] n in (as_answer (parse_reply buf), m)

  unfoldable pub http_request : Socket N → Text → N → Answer × N
  http_request sock host n = after_send sock (sock.sendall (request_text host) n)
