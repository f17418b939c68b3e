-- ===== src/Fake/Stores.antt =====
-- The stand-in keeps metadata and rrsets as the client expects.
use mojodns.Prelude.{
  true, false, List, [], ◌∷◌, Option, none, some, map, filter, find, any, ◌≟◌, ≟_iff, ≟_refl,
  if◌then◌else◌, Error, Result, err, pdns_error, ◌≡◌, ◌≢◌, ◌⊎◌, inl, inr, refl, sym, ap, ◌∙◌, arith,
}
use mojodns.Text.{Text, codes}
use mojodns.Pdns.Types.{Request}
use mojodns.Pdns.Client.{outcome}
use mojodns.Pdns.Update.Stores.{Stores}
use mojodns.Fake.{
  FakeZone, Server, fake_pdns, has_zone, zone_of, on_zone, meta_of, without_meta, set_meta,
  pop_meta,
}

abbrev meta_in : Text → Option FakeZone → List Text
meta_in kind none = []
meta_in kind (some z) = meta_of kind z.meta

-- The metadata of a zone; a zone that is not there has none.
abbrev pub metadata : Server → Text → Text → List Text
metadata s zid kind = meta_in kind (zone_of zid s.zones)

meta_of-without_meta :
    (k : Text) (ms : List (Text × List Text)) → meta_of k (without_meta k ms) ≡ []
unfolding meta_of without_meta filter
meta_of-without_meta k [] = refl
meta_of-without_meta k (m ∷ ms) = ground (arith, meta_of-without_meta k ms)

meta_of-without_meta_ne :
    (k j : Text) (ms : List (Text × List Text))
    → k ≢ j
    → meta_of j (without_meta k ms) ≡ meta_of j ms
unfolding meta_of without_meta filter
meta_of-without_meta_ne k j [] h = refl
meta_of-without_meta_ne k j (m ∷ ms) h =
    ground (arith, h, ≟_iff m.0 k, ≟_iff m.0 j, meta_of-without_meta_ne k j ms h)

-- What is found of a zone that is changed in place, its name kept.
abbrev changed : (FakeZone → FakeZone) → Option FakeZone → Option FakeZone
changed f none = none
changed f (some z) = some (f z)

pub zone_of-on_zone :
    (zid : Text) (f : FakeZone → FakeZone) (zs : List FakeZone)
    → ((z : FakeZone) → (f z).data'.name ≡ z.data'.name)
    → zone_of zid (map (λ z. if z.data'.name ≟ zid then f z else z) zs) ≡ changed f (zone_of zid zs)
unfolding zone_of find
zone_of-on_zone zid f [] keeps = refl
zone_of-on_zone zid f (z ∷ zs) keeps = ground (arith, keeps z, zone_of-on_zone zid f zs keeps)

zone_of_there : (zid : Text) (zs : List FakeZone) → has_zone zid zs ≡ true → zone_of zid zs ≢ none
unfolding zone_of has_zone find any
zone_of_there zid [] h e = cc
zone_of_there zid (z ∷ zs) h e = ground (arith, zone_of_there zid zs)

set_meta_in :
    (k : Text) (vs : List Text) (found : Option FakeZone)
    → found ≢ none
    → meta_in k (changed (set_meta k vs) found) ≡ vs
unfolding set_meta meta_of
set_meta_in k vs none h = absurd (h refl)
set_meta_in k vs (some z) h = rw (≟_refl k) refl

set_meta_in_ne :
    (k j : Text) (vs : List Text) (found : Option FakeZone)
    → k ≢ j
    → meta_in j (changed (set_meta k vs) found) ≡ meta_in j found
unfolding set_meta meta_of
set_meta_in_ne k j vs none h = refl
set_meta_in_ne k j vs (some z) h =
    ground (arith, h, ≟_iff k j, meta_of-without_meta_ne k j z.meta h)

pop_meta_in : (k : Text) (found : Option FakeZone) → meta_in k (changed (pop_meta k) found) ≡ []
unfolding pop_meta
pop_meta_in k none = refl
pop_meta_in k (some z) = meta_of-without_meta k z.meta

pop_meta_in_ne :
    (k j : Text) (found : Option FakeZone)
    → k ≢ j
    → meta_in j (changed (pop_meta k) found) ≡ meta_in j found
unfolding pop_meta
pop_meta_in_ne k j none h = refl
pop_meta_in_ne k j (some z) h = meta_of-without_meta_ne k j z.meta h

-- The metadata after a zone was changed in place, by what was found of it.
metadata-on_zone :
    (s : Server) (zid k : Text) (f : FakeZone → FakeZone)
    → ((z : FakeZone) → (f z).data'.name ≡ z.data'.name)
    → metadata (on_zone zid f s) zid k ≡ meta_in k (changed f (zone_of zid s.zones))
unfolding on_zone
metadata-on_zone s zid k f keeps = ap (meta_in k) (zone_of-on_zone zid f s.zones keeps)

zone_of-none : (zid : Text) (zs : List FakeZone) → has_zone zid zs ≡ false → zone_of zid zs ≡ none
unfolding zone_of has_zone find any
zone_of-none zid [] h = refl
zone_of-none zid (z ∷ zs) h = ground (arith, zone_of-none zid zs)

written :
    (s : Server) (z k : Text) (vs : List Text)
    → has_zone z s.zones ≡ true
    → metadata (on_zone z (set_meta k vs) s) z k ≡ vs
unfolding set_meta
written s z k vs h =
    metadata-on_zone s z k (set_meta k vs) (λ y. refl)
    ∙ set_meta_in k vs (zone_of z s.zones) (zone_of_there z s.zones h)

popped : (s : Server) (z k : Text) → metadata (on_zone z (pop_meta k) s) z k ≡ []
unfolding pop_meta
popped s z k = metadata-on_zone s z k (pop_meta k) (λ y. refl) ∙ pop_meta_in k (zone_of z s.zones)

ok-ne-err : {A : Type 0} {a : A} {e : Error} → Result.ok a ≢ err e
ok-ne-err h = cc

module _ (make : Text → Text) (s : Server) (z k : Text) where
  put_cases :
      (vs : List Text)
      → ((outcome (fake_pdns make (Request.put_metadata z k vs) s).0
            ≡ err (pdns_error 404 (codes "PowerDNS API: {\"detail\":{\"error\":\"Not Found\"}}")))
          × ((fake_pdns make (Request.put_metadata z k vs) s).1 ≡ s))
        ⊎ ((has_zone z s.zones ≡ true)
            × ((fake_pdns make (Request.put_metadata z k vs) s).1 ≡ on_zone z (set_meta k vs) s))
  unfolding fake_pdns outcome
  put_cases vs = ground arith

  delete_cases :
      ((outcome (fake_pdns make (Request.delete_metadata z k) s).0
          ≡ err (pdns_error 404 (codes "PowerDNS API: {\"detail\":{\"error\":\"Not Found\"}}")))
        × (has_zone z s.zones ≡ false)
        × ((fake_pdns make (Request.delete_metadata z k) s).1 ≡ s))
      ⊎ ((has_zone z s.zones ≡ true)
          × ((fake_pdns make (Request.delete_metadata z k) s).1 ≡ on_zone z (pop_meta k) s))
  unfolding fake_pdns outcome
  delete_cases = ground arith

module _ (make : Text → Text) where
  -- The stand-in is a server of the kind that `_write_update_access` relies on.
  pub fake_pdns-Stores : Stores (fake_pdns make) metadata
  unfolding set_meta pop_meta
  fake_pdns-Stores = record {
    put = λ s z k vs b h. elim (put_cases make s z k vs) [
      | inl (e, u) ↦ absurd (ok-ne-err (sym h ∙ e))
      | inr (t, u) ↦ ap (view z k) u ∙ written s z k vs t
    ];
    put_atomic = λ s z k vs. elim (put_cases make s z k vs) [
      | inl (e, u) ↦ inr (ap (view z k) u)
      | inr (t, u) ↦ inl (ap (view z k) u ∙ written s z k vs t)
    ];
    put_other = λ s z k j vs h. elim (put_cases make s z k vs) [
      | inl (e, u) ↦ ap (view z j) u
      | inr (t, u) ↦
          ap (view z j) u
          ∙ metadata-on_zone s z j (set_meta k vs) (λ y. refl)
          ∙ set_meta_in_ne k j vs (zone_of z s.zones) h
    ];
    delete = λ s z k b h. elim (delete_cases make s z k) [
      | inl (e, f, u) ↦ absurd (ok-ne-err (sym h ∙ e))
      | inr (t, u) ↦ ap (view z k) u ∙ popped s z k
    ];
    delete_absent = λ s z k m h. elim (delete_cases make s z k) [
      | inl (e, f, u) ↦ ap (view z k) u ∙ ap (meta_in k) (zone_of-none z s.zones f)
      | inr (t, u) ↦ ap (view z k) u ∙ popped s z k
    ];
    delete_other = λ s z k j h. elim (delete_cases make s z k) [
      | inl (e, f, u) ↦ ap (view z j) u
      | inr (t, u) ↦
          ap (view z j) u
          ∙ metadata-on_zone s z j (pop_meta k) (λ y. refl)
          ∙ pop_meta_in_ne k j (zone_of z s.zones) h
    ];
  }
    where
      view : Text → Text → Server → List Text
      view z k s = metadata s z k
