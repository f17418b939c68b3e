-- ===== src/DnsUtil/Soa/RoundTrip.antt =====
-- The SOA content that the panel writes is read back.
use mojodns.Prelude.{false, [], ◌∷◌, ◌++◌, ◌≡◌, refl, arith, All-append, ok}
use mojodns.Text.{Text, ℤ, is_space, is_empty, show_int, split_words}
use mojodns.Text.Pieces.{IsWord, split_words-join}
use mojodns.Text.Trim.{strip-Lacks}
use mojodns.Text.Decimal.{parse_int-show_int, show_int-IsWord}
use mojodns.DnsUtil.{dotted}
use mojodns.DnsUtil.Soa.{Soa, parse, content, fields, token_at, to_int}

append-not_empty : (t s : Text) → is_empty t ≡ false → is_empty (t ++ s) ≡ false
append-not_empty [] s h = cc
append-not_empty (x ∷ xs) s h = refl

pub dotted-IsWord : (host : Text) → IsWord host → IsWord (dotted host)
unfolding dotted is_space
dotted-IsWord host h = rw (strip-Lacks host h.1) (
    ground (
      arith,
      append-not_empty host (b'.' ∷ []) h.0,
      All-append (λ x. is_space x ≡ false) host (b'.' ∷ []) h.1 (refl, tt),
    ))

to_int-show_int : (z : ℤ) → to_int (show_int z) ≡ ok z
unfolding to_int
to_int-show_int z = rw (parse_int-show_int z, to_int)

split_words-content :
    (soa : Soa) → IsWord soa.mname → IsWord soa.rname → split_words (content soa) ≡ fields soa
unfolding content fields
split_words-content soa hm hr = split_words-join (fields soa) (
  dotted-IsWord soa.mname hm,
  (
    dotted-IsWord soa.rname hr,
    (
      show_int-IsWord soa.serial,
      (
        show_int-IsWord soa.refresh,
        (
          show_int-IsWord soa.retry,
          (show_int-IsWord soa.expire, (show_int-IsWord soa.minimum, tt)),
        ),
      ),
    ),
  ),
)

-- If the names of an SOA are non-empty and hold no white space, then reading the content that is
-- written for it gives the SOA back, with a dot at the end of both names and every number as it was.
pub parse-content :
    (soa : Soa)
    → IsWord soa.mname
    → IsWord soa.rname
    → parse (content soa) ≡ ok (record soa { mname = dotted soa.mname; rname = dotted soa.rname })
unfolding parse fields token_at
parse-content soa hm hr = rw (split_words-content soa hm hr) (simp to_int-show_int)
