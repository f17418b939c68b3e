-- ===== src/Tests/Flaky.antt =====
-- A server that keeps metadata and cannot delete an address list: its HTTP client raises.
use mojodns.Prelude.{
  false, ◌&&◌, List, [], ◌∷◌, Option, none, some, ◌≟◌, list_beq, ≟_iff, ≟_refl, if◌then◌else◌,
  is_ok, ◌≡◌, ◌≢◌, inl, refl, arith,
}
use mathlib.Core.List.{cons-ne-nil}
use mojodns.Text.{Text, codes, lower, strip, strip_char}
use mojodns.Pdns.{canonical}
use mojodns.Pdns.Types.{Request, Body, Reply, Api}
use mojodns.Pdns.Client.{req, outcome}
use mojodns.Pdns.Update.{write_update_access, delete_zone_metadata, tsig_allow, allow_from}
use mojodns.Pdns.Update.Stores.{Stores}
use mojodns.Pdns.Update.Access.{write_update_access_ungated}

abbrev Lists : Type 0
Lists = Text → Text → List Text

unfoldable update : Lists → Text → Text → List Text → Lists
update s z k vs z' k' = if z' ≟ z && k' ≟ k then vs else s z' k'

abbrev done : Option Reply
done = some (record { status = 204; message = []; body = Body.empty })

unfoldable flaky : Api Lists
flaky (Request.put_metadata z k vs) s = (done, update s z k vs)
flaky (Request.delete_metadata z k) s =
    if k ≟ allow_from then (none, s) else (done, update s z k [])
flaky r s = (none, s)

abbrev view : Lists → Text → Text → List Text
view s z k = s z k

update_same : (s : Lists) (z k : Text) (vs : List Text) → update s z k vs z k ≡ vs
unfolding update
update_same s z k vs = rw (≟_refl z) (rw (≟_refl k) refl)

update_other : (s : Lists) (z k j : Text) (vs : List Text) → k ≢ j → update s z k vs z j ≡ s z j
unfolding update
update_other s z k j vs h = ground (arith, h, ≟_iff j k)

flaky-Stores : Stores flaky view
unfolding flaky outcome
flaky-Stores = record {
  put = λ s z k vs b h. update_same s z k vs;
  put_atomic = λ s z k vs. inl (update_same s z k vs);
  put_other = λ s z k j vs h. update_other s z k j vs h;
  delete = λ s z k b h. ground (arith, h, update_same s z k []);
  delete_absent = λ s z k m h. ground (arith, h, update_same s z k []);
  delete_other = λ s z k j h. ground (arith, h, update_other s z k j [] h);
}

-- Every list has one member.
abbrev full : Lists
full z k = codes "x" ∷ []

write_update_access_ungated_example :
    (is_ok (write_update_access flaky (codes "z") [] [] full).0 ≡ false)
    × (view (write_update_access flaky (codes "z") [] [] full).1 (canonical (codes "z")) tsig_allow
        ≡ [])
    × (view (write_update_access flaky (codes "z") [] [] full).1 (canonical (codes "z")) allow_from
        ≢ [])
unfolding delete_zone_metadata req outcome flaky update ◌≟◌ list_beq canonical lower strip
    strip_char
write_update_access_ungated_example =
    write_update_access_ungated flaky view flaky-Stores full (codes "z") [] refl refl refl
      (cons-ne-nil (codes "x") [])
