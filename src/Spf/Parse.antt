-- ===== src/Spf/Parse.antt =====
-- `parse_spf`: the terms of a record, with what is wrong and what is suspect about them.
use mojodns.Prelude.{
  ℕ, ◌+◌, Bool, true, false, not, ◌&&◌, ◌||◌, List, [], ◌∷◌, ◌++◌, filter, any, elem, ltb, length,
  ◌≟◌, if◌then◌else◌,
}
use mojodns.Text.{Text, codes, pos, show_int, lower, split_words, starts_with, is_empty}
use mojodns.Spf.{Term, IpAddress, lookup_kinds, parse_term, quoted}
use mojodns.Spf.Quote.{strip_txt}

pub record Report : Type 0 where
  pub raw : Text
  pub terms : List Term
  pub errors : List Text
  pub warnings : List Text
  pub valid : Bool

-- The variables of the loop over the tokens.
pub record Scan : Type 0 where
  pub terms : List Term
  pub errors : List Text
  pub warnings : List Text
  pub seen_all : Bool
  pub lookups : ℕ

abbrev pub start : Scan
start = record { terms = []; errors = []; warnings = []; seen_all = false; lookups = 0 }

unfoldable pub is_spf : Text → Bool
is_spf content = starts_with (codes "v=spf1") (lower (strip_txt content))

abbrev pub is_kind : Text → Term → Bool
is_kind kind t = t.kind ≟ kind

-- `xs.append(x)` under a condition
abbrev pub append_if : Bool → List Text → Text → List Text
append_if b xs x = if b then xs ++ x ∷ [] else xs

module _ (ip : IpAddress) where
  -- One round of the loop.
  unfoldable pub scan_token : Text → Scan → Scan
  scan_token tok s =
      let t = parse_term ip tok in
      let is_all = is_kind (codes "all") t in
      record {
        terms = s.terms ++ t ∷ [];
        errors = append_if (not (is_empty t.error)) s.errors (tok ++ (codes ": " ++ t.error));
        warnings =
            append_if (not is_all && (s.seen_all && not (is_kind (codes "unknown") t))) s.warnings
              (quoted tok ++ codes " comes after 'all' and is never evaluated");
        seen_all = is_all || s.seen_all;
        lookups = if elem t.kind lookup_kinds then s.lookups + 1 else s.lookups;
      }

  unfoldable pub scan_tokens : List Text → Scan → Scan
  scan_tokens [] s = s
  scan_tokens (tok ∷ toks) s = scan_tokens toks (scan_token tok s)

-- What is said of the terms as a whole.
unfoldable pub more_errors : Scan → List Text
more_errors s =
    append_if (ltb 1 (length (filter (is_kind (codes "redirect")) s.terms))) s.errors
      (codes "more than one 'redirect=' modifier")

unfoldable pub more_warnings : Text → Scan → List Text
more_warnings raw s =
    let has = λ (kind : Text). any (is_kind kind) s.terms in
    let w1 =
      append_if (ltb 1 (length (filter (is_kind (codes "all")) s.terms))) s.warnings
        (codes "more than one 'all' — only the first applies") in
    let w2 =
      append_if (has (codes "redirect") && has (codes "all")) w1
        (codes "'redirect' is ignored when an 'all' mechanism is present") in
    let w3 =
      append_if (ltb 10 s.lookups) w2
        (show_int (pos s.lookups) ++ codes " DNS-lookup terms exceed the RFC 7208 limit of 10") in
    let w4 =
      append_if (not (any (λ t. is_kind (codes "all") t || is_kind (codes "redirect") t) s.terms))
        w3 (codes "no 'all' or 'redirect' — the record has no default policy") in
    append_if (ltb 255 (length raw)) w4 (
      show_int (pos (length raw))
      ++ codes " chars; values over 255 must be split into multiple quoted strings")

abbrev pub is_empty_list : List Text → Bool
is_empty_list [] = true
is_empty_list (x ∷ xs) = false

unfoldable pub report : Text → Scan → Report
report raw s = record {
  raw = raw;
  terms = s.terms;
  errors = more_errors s;
  warnings = more_warnings raw s;
  valid = is_empty_list (more_errors s);
}

abbrev no_version : Text → Report
no_version raw = record {
  raw = raw;
  terms = [];
  errors = codes "record must start with 'v=spf1'" ∷ [];
  warnings = [];
  valid = false;
}

module _ (ip : IpAddress) where
  unfoldable pub parse_tokens : Text → List Text → Report
  parse_tokens raw [] = no_version raw
  parse_tokens raw (tok ∷ toks) =
      if lower tok ≟ codes "v=spf1" then report raw (scan_tokens ip toks start) else no_version raw

  unfoldable pub parse_spf : Text → Report
  parse_spf content = let raw = strip_txt content in parse_tokens raw (split_words raw)
