-- ===== src/DnsUtil/Soa.antt =====
-- The class Soa of app/mojodns/dnsutil.py, and mail addresses as RNAMEs.
pub mod RoundTrip
pub mod Mail
use mojodns.Prelude.{
  ℕ, zero, suc, Bool, true, false, List, [], ◌∷◌, ◌++◌, none, some, if◌then◌else◌, Result, ok, err,
  value_error, crash,
}
use mojodns.Text.{
  Text, ℤ, strip, split_words, join, partition, replace_char, replace_pair, show_int, parse_int,
  rstrip_char,
}
use mojodns.DnsUtil.{dotted}

pub record Soa : Type 0 where
  pub mname : Text
  pub rname : Text
  pub serial : ℤ
  pub refresh : ℤ
  pub retry : ℤ
  pub expire : ℤ
  pub minimum : ℤ

infixl 5 ◌>>=◌
abbrev pub ◌>>=◌ {ℓ κ} : {A : Type ℓ} {B : Type κ} → Result A → (A → Result B) → Result B
ok a >>= f = f a
err e >>= f = err e

-- `p[i]`: an IndexError is a crash
unfoldable pub token_at : List Text → ℕ → Result Text
token_at [] i = err crash
token_at (t ∷ ts) zero = ok t
token_at (t ∷ ts) (suc i) = token_at ts i

-- `int(t)`: a token that is no integer is a ValueError
unfoldable pub to_int : Text → Result ℤ
to_int t = elim (parse_int t) [ none ↦ err (value_error t) | some n ↦ ok n ]

-- `Soa.parse`
unfoldable pub parse : Text → Result Soa
parse content = do
  let p = split_words content
  mname ← token_at p 0
  rname ← token_at p 1
  serial ← token_at p 2 >>= to_int
  refresh ← token_at p 3 >>= to_int
  retry ← token_at p 4 >>= to_int
  expire ← token_at p 5 >>= to_int
  minimum ← token_at p 6 >>= to_int
  ok (record {
    mname = mname;
    rname = rname;
    serial = serial;
    refresh = refresh;
    retry = retry;
    expire = expire;
    minimum = minimum;
  })

-- `Soa.content`: seven fields with single spaces between
unfoldable pub fields : Soa → List Text
fields soa =
    dotted soa.mname
    ∷ dotted soa.rname
    ∷ show_int soa.serial
    ∷ show_int soa.refresh
    ∷ show_int soa.retry
    ∷ show_int soa.expire
    ∷ show_int soa.minimum
    ∷ []

unfoldable pub content : Soa → Text
content soa = join (b' ' ∷ []) (fields soa)

-- `f"{local.replace(…)}@{domain}" if domain else bare`
unfoldable pub address : Text → Text → Text → Text
address local [] bare = bare
address local (d ∷ ds) bare = replace_pair b'\\' b'.' (b'.' ∷ []) local ++ (b'@' ∷ d ∷ ds)

-- The property `Soa.email`
unfoldable pub email : Text → Text
email rname =
    let bare = rstrip_char b'.' rname in
    let (local, found, domain) = partition b'.' bare in address local domain bare

unfoldable pub email_to_rname : Text → Text
email_to_rname mail =
    let mail' = strip mail in
    let (local, found, domain) = partition b'@' mail' in
    if found
    then dotted (replace_char b'.' (b'\\' ∷ b'.' ∷ []) local ++ (b'.' ∷ domain))
    else dotted mail'
