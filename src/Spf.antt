-- ===== src/Spf.antt =====
-- app/mojodns/spf.py: SPF records taken apart and put together. Python's `ipaddress` is a parameter.
pub mod Quote
pub mod Unquote
pub mod Parse
pub mod Build
use mojodns.Prelude.{
  ℕ, zero, suc, ◌+◌, Bool, true, false, not, ◌&&◌, ◌||◌, List, [], ◌∷◌, ◌++◌, Option, none, some,
  map, filter, any, all, elem, leb, ltb, length, ◌==◌, ◌≟◌, if◌then◌else◌,
}
use mojodns.Text.{
  Text, codes, ℤ, pos, show_int, parse_int, strip, rstrip_char, lower, split, split_words,
  partition, join, is_empty, is_digit, starts_with, ends_with, replace_pair,
}

abbrev pub mechanisms : List Text
mechanisms =
    codes "all"
    ∷ codes "include"
    ∷ codes "a"
    ∷ codes "mx"
    ∷ codes "ip4"
    ∷ codes "ip6"
    ∷ codes "exists"
    ∷ codes "ptr"
    ∷ []

abbrev pub modifiers : List Text
modifiers = codes "redirect" ∷ codes "exp" ∷ []

abbrev pub lookup_kinds : List Text
lookup_kinds =
    codes "include" ∷ codes "a" ∷ codes "mx" ∷ codes "ptr" ∷ codes "exists" ∷ codes "redirect" ∷ []

abbrev pub host_kinds : List Text
host_kinds = codes "a" ∷ codes "mx" ∷ codes "ptr" ∷ []

abbrev pub is_qualifier : ℕ → Bool
is_qualifier c = c == b'+' || c == b'-' || c == b'~' || c == b'?'

pub record Term : Type 0 where
  pub qualifier : Text
  pub kind : Text
  pub value : Text
  pub raw : Text
  pub error : Text

abbrev pub quoted : Text → Text
quoted t = b'\'' ∷ t ++ b'\'' ∷ []

abbrev alnum : ℕ → Bool
alnum c = (leb b'a' c && leb c b'z') || (leb b'A' c && leb c b'Z') || is_digit c

-- A label of the pattern: `inner` are the characters at its ends, and a hyphen may stand between.
abbrev spf_label : (ℕ → Bool) → Text → Bool
spf_label inner l =
    not (is_empty l)
    && leb (length l) 63
    && all (λ c. inner c || c == b'-') l
    && not (starts_with (b'-' ∷ []) l)
    && not (ends_with (b'-' ∷ []) l)

-- The last label holds no underscore.
unfoldable pub spf_labels : List Text → Bool
spf_labels [] = false
spf_labels (l ∷ []) = spf_label alnum l
spf_labels (l ∷ m ∷ ls) = spf_label (λ c. alnum c || c == b'_') l && spf_labels (m ∷ ls)

unfoldable pub valid_domain : Text → Bool
valid_domain domain =
    let d = rstrip_char b'.' domain in
    if is_empty d || ltb 253 (length d)
    then false
    else if any (λ x. x == b'%') d
    then true
    else spf_labels (split b'.' d)

-- A value of `a`, `mx` or `ptr`: domain and prefix length.
unfoldable pub host_parts : Text → Text × Text
host_parts value =
    let (before, slash, after) = partition b'/' value in (before, if slash then after else [])

abbrev int_le : Option ℤ → ℕ → Bool
int_le (some (pos n)) bound = leb n bound
int_le (some (ℤ.negsuc n)) bound = true
int_le none bound = false

unfoldable pub valid_prefix : Text → Bool
valid_prefix cidr = not (is_empty cidr) && all is_digit cidr && int_le (parse_int cidr) 128

unfoldable pub validate_host : Text × Text → Text
validate_host (dom, cidr) =
    if not (is_empty dom) && not (valid_domain dom)
    then codes "invalid domain " ++ quoted dom
    else if not (is_empty cidr) && not (valid_prefix cidr)
    then codes "invalid CIDR " ++ quoted (b'/' ∷ cidr)
    else []

-- `is_network4` and `is_network6` are the tests that the constructors of `ipaddress` do.
pub record IpAddress : Type 0 where
  pub is_network4 : Text → Bool
  pub is_network6 : Text → Bool

-- Name and value of a token without its qualifier.
unfoldable pub name_value : Text → Text × Text
name_value body =
    let (name, colon, value) = partition b':' body in
    let (host, slash, rest) = partition b'/' body in
    if colon
    then (name, value)
    else if slash && elem (lower host) host_kinds
    then (host, b'/' ∷ rest)
    else (body, [])

module _ (ip : IpAddress) where
  unfoldable pub validate : Text → Text → Text
  validate kind value =
      if kind ≟ codes "all"
      then (if is_empty value then [] else codes "'all' takes no value")
      else if elem kind (codes "include" ∷ codes "exists" ∷ codes "redirect" ∷ codes "exp" ∷ [])
      then (if is_empty value
          then quoted kind ++ codes " requires a domain"
          else if valid_domain value
          then []
          else codes "invalid domain " ++ quoted value)
      else if kind ≟ codes "ip4"
      then (if is_empty value
          then codes "'ip4' requires an address"
          else if ip.is_network4 value
          then []
          else codes "invalid IPv4 address/range " ++ quoted value)
      else if kind ≟ codes "ip6"
      then (if is_empty value
          then codes "'ip6' requires an address"
          else if ip.is_network6 value
          then []
          else codes "invalid IPv6 address/range " ++ quoted value)
      else if elem kind host_kinds
      then (if is_empty value then [] else validate_host (host_parts value))
      else codes "unknown mechanism " ++ quoted kind

  unfoldable pub mechanism : Text → Text → Text → Term
  mechanism qual body token =
      let (name, value) = name_value body in
      if not (elem (lower name) mechanisms)
      then record {
        qualifier = qual;
        kind = codes "unknown";
        value = value;
        raw = token;
        error = codes "unknown mechanism " ++ quoted name;
      }
      else record {
        qualifier = qual;
        kind = lower name;
        value = value;
        raw = token;
        error = validate (lower name) value;
      }

  unfoldable pub qualified : Text → Text → Term
  qualified [] token = mechanism [] [] token
  qualified (c ∷ cs) token =
      if is_qualifier c then mechanism (c ∷ []) cs token else mechanism [] (c ∷ cs) token

  unfoldable pub parse_term : Text → Term
  parse_term token =
      let (name, equals, value) = partition b'=' token in
      if equals && elem (lower name) modifiers
      then record {
        qualifier = [];
        kind = lower name;
        value = value;
        raw = token;
        error = validate (lower name) value;
      }
      else qualified token token

unfoldable pub render_term : Term → Text
render_term t =
    let s = t.qualifier ++ t.kind in
    if elem t.kind modifiers
    then t.kind ++ b'=' ∷ t.value
    else if is_empty t.value
    then s
    else if elem t.kind host_kinds
    then s ++ (if starts_with (b'/' ∷ []) t.value then t.value else b':' ∷ t.value)
    else s ++ b':' ∷ t.value

unfoldable pub build_spf : List Term → Text
build_spf terms =
    join (b' ' ∷ []) (codes "v=spf1" ∷ map render_term (filter (λ t. not (is_empty t.kind)) terms))
