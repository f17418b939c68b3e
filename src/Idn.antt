-- ===== src/Idn.antt =====
-- app/mojodns/idn.py. The library `idna` is a parameter: `encode` and `decode` of one label, `none`
-- for an IDNAError.
use mojodns.Prelude.{
  Bool, not, [], ◌∷◌, ◌++◌, Option, none, some, map, filter, all, ltb, if◌then◌else◌,
}
use mojodns.Text.{
  Text, codes, strip, lower, split, join, rstrip_char, ends_with, starts_with, is_empty,
}

pub record Idna : Type 0 where
  pub encode : Text → Option Text
  pub decode : Text → Option Text

abbrev pub or_else : Option Text → Text → Text
or_else none t = t
or_else (some s) t = s

unfoldable pub is_ascii : Text → Bool
is_ascii t = all (λ c. ltb c 128) t

abbrev pub dot_if : Bool → Text
dot_if b = if b then b'.' ∷ [] else []

module _ (idna : Idna) where
  unfoldable pub label_to_ascii : Text → Text
  label_to_ascii label =
      if is_ascii label then lower label else or_else (idna.encode label) (lower label)

  unfoldable pub label_to_unicode : Text → Text
  label_to_unicode label =
      if starts_with (codes "xn--") label then or_else (idna.decode label) label else label

  unfoldable pub to_ascii : Text → Text
  to_ascii name =
      let bare = strip name in
      let labels = filter (λ l. not (is_empty l)) (split b'.' (rstrip_char b'.' bare)) in
      join (b'.' ∷ []) (map label_to_ascii labels) ++ dot_if (ends_with (b'.' ∷ []) bare)

  unfoldable pub to_unicode : Text → Text
  to_unicode name =
      join (b'.' ∷ []) (map label_to_unicode (split b'.' (rstrip_char b'.' name)))
      ++ dot_if (ends_with (b'.' ∷ []) name)
