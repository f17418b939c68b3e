-- ===== src/Fake.antt =====
-- app/tests/fake_pdns.py, the stand-in for the PowerDNS server that the repository's tests run
-- against, as a server for the client of the model.
pub mod Stores
pub mod Rrsets
use mojodns.Prelude.{
  ℕ, ◌+◌, Bool, true, false, not, ◌&&◌, ◌||◌, List, [], ◌∷◌, ◌++◌, Option, none, some, map, filter,
  find, any, ◌≟◌, if◌then◌else◌,
}
use mojodns.Text.{Text, codes, ℤ, pos, rstrip_char}
use mojodns.Pdns.Types.{
  Rec, Rrset, Change, Zone, NewZone, TsigKey, ZoneField, Request, Body, Reply, Api,
}

pub record FakeZone : Type 0 where
  pub data' : Zone
  pub meta : List (Text × List Text)

pub record Server : Type 0 where
  pub zones : List FakeZone
  pub keys : List TsigKey

abbrev answer : ℕ → Body → Server → Option Reply × Server
answer status body s = (some (record { status = status; message = []; body = body }), s)

abbrev refuse : ℕ → Text → Server → Option Reply × Server
refuse status detail s = (some (record { status = status; message = detail; body = Body.empty }), s)

-- The JSON that FastAPI makes of an HTTPException; PdnsError quotes it whole, since its "error" member is
-- below "detail". The names are taken to hold nothing that JSON escapes.
abbrev pub detail_of : Text → Text
detail_of error = codes "{\"detail\":{\"error\":\"" ++ error ++ codes "\"}}"

-- What FastAPI answers where there is no route.
abbrev no_route : Server → Option Reply × Server
no_route s = refuse 404 (codes "{\"detail\":\"Not Found\"}") s

abbrev missing : Server → Option Reply × Server
missing s = refuse 404 (detail_of (codes "Not Found")) s

unfoldable pub has_zone : Text → List FakeZone → Bool
has_zone zid zs = any (λ z. z.data'.name ≟ zid) zs

unfoldable pub zone_of : Text → List FakeZone → Option FakeZone
zone_of zid zs = find (λ z. z.data'.name ≟ zid) zs

-- `ZONES[zid]`, changed in place
unfoldable pub on_zone : Text → (FakeZone → FakeZone) → Server → Server
on_zone zid f s = record s { zones = map (λ z. if z.data'.name ≟ zid then f z else z) s.zones }

-- What the list has of a zone.
abbrev summary : FakeZone → Zone
summary z = record z.data' { master_tsig_key_ids = []; rrsets = []; dnssec = false }

abbrev or_text : Option Text → Text → Text
or_text none d = d
or_text (some t) d = t

abbrev or_ttl : Option ℤ → ℤ
or_ttl none = pos 3600
or_ttl (some t) = t

abbrev as_rrset : Change → Rrset
as_rrset c = record {
  name = or_text c.name [];
  rtype = or_text c.rtype [];
  ttl = or_ttl c.ttl;
  records = c.records;
}

unfoldable pub new_zone : NewZone → FakeZone
new_zone z = record {
  data' = record {
    name = z.name;
    kind = z.kind;
    catalog = or_text z.catalog [];
    serial = some 2026010100;
    dnssec = false;
    rrsets = map as_rrset z.rrsets;
    master_tsig_key_ids = [];
  };
  meta = [];
}

-- One change of a PATCH.
unfoldable pub apply_change : List Rrset → Change → List Rrset
apply_change rrsets c =
    let new = as_rrset c in
    let others = filter (λ rr. not (rr.name ≟ new.name && rr.rtype ≟ new.rtype)) rrsets in
    if or_text c.changetype (codes "REPLACE") ≟ codes "REPLACE" then others ++ new ∷ [] else others

unfoldable pub apply_changes : List Change → List Rrset → List Rrset
apply_changes [] rrsets = rrsets
apply_changes (c ∷ cs) rrsets = apply_changes cs (apply_change rrsets c)

abbrev bumped : Option ℕ → Option ℕ
bumped none = none
bumped (some n) = some (n + 1)

unfoldable pub patched : List Change → FakeZone → FakeZone
patched cs z = record z {
  data' = record z.data' {
    rrsets = apply_changes cs z.data'.rrsets;
    serial = bumped z.data'.serial;
  };
}

-- An unknown member of a PUT is ignored.
unfoldable pub with_field : ZoneField → FakeZone → FakeZone
with_field (ZoneField.catalog c) z = record z { data' = record z.data' { catalog = c } }
with_field (ZoneField.kind k) z = record z { data' = record z.data' { kind = k } }
with_field (ZoneField.master_tsig_key_ids ks) z = record z {
  data' = record z.data' { master_tsig_key_ids = ks };
}
with_field (ZoneField.nsec3 p narrow) z = z

unfoldable pub meta_of : Text → List (Text × List Text) → List Text
meta_of kind [] = []
meta_of kind (m ∷ ms) = if m.0 ≟ kind then m.1 else meta_of kind ms

unfoldable pub without_meta : Text → List (Text × List Text) → List (Text × List Text)
without_meta kind ms = filter (λ m. not (m.0 ≟ kind)) ms

unfoldable pub set_meta : Text → List Text → FakeZone → FakeZone
set_meta kind values z = record z { meta = (kind, values) ∷ without_meta kind z.meta }

unfoldable pub pop_meta : Text → FakeZone → FakeZone
pop_meta kind z = record z { meta = without_meta kind z.meta }

abbrev if_there : Text → Body → ℕ → (FakeZone → FakeZone) → Server → Option Reply × Server
if_there zid body status f s =
    if has_zone zid s.zones then answer status body (on_zone zid f s) else missing s

abbrev key_id : Text → Text
key_id name = rstrip_char b'.' name ++ b'.' ∷ []

abbrev found_zone : Option FakeZone → Server → Option Reply × Server
found_zone none s = missing s
found_zone (some z) s = answer 200 (Body.zone z.data') s

abbrev found_meta : Text → Option FakeZone → Server → Option Reply × Server
found_meta kind none s = missing s
found_meta kind (some z) s = answer 200 (Body.metadata (meta_of kind z.meta)) s

abbrev found_key : Option TsigKey → Server → Option Reply × Server
found_key none s = missing s
found_key (some k) s = answer 200 (Body.tsigkey k) s

-- `body.get("key") or …`: `make` is the digest of the name.
abbrev or_made : (Text → Text) → Text → Option Text → Text
or_made make name none = make name
or_made make name (some t) = t

-- What the list has of a key.
abbrev public_part : TsigKey → TsigKey
public_part k = record k { secret = none }

-- The routes of the stand-in. It has none for DNSSEC keys and for rectify, which FastAPI answers 404.
unfoldable pub fake_pdns : (Text → Text) → Api Server
fake_pdns make Request.list_zones s = answer 200 (Body.zones (map summary s.zones)) s
fake_pdns make (Request.get_zone zid) s = found_zone (zone_of zid s.zones) s
fake_pdns make (Request.post_zone z) s =
    if has_zone z.name s.zones
    then refuse 409 (detail_of (codes "Domain '" ++ z.name ++ codes "' already exists")) s
    else answer 201 (Body.zone (new_zone z).data') (record s { zones = s.zones ++ new_zone z ∷ [] })
fake_pdns make (Request.delete_zone zid) s =
    if has_zone zid s.zones
    then answer 204 Body.empty (record s { zones = filter (λ z. not (z.data'.name ≟ zid)) s.zones })
    else missing s
fake_pdns make (Request.put_notify zid) s = if_there zid Body.empty 200 (λ z. z) s
fake_pdns make (Request.patch_zone zid cs) s = if_there zid Body.empty 204 (patched cs) s
fake_pdns make (Request.put_zone zid field) s = if_there zid Body.empty 204 (with_field field) s
fake_pdns make (Request.get_cryptokeys zid) s = no_route s
fake_pdns make (Request.post_cryptokey zid) s = no_route s
fake_pdns make (Request.delete_cryptokey zid k) s = no_route s
fake_pdns make (Request.put_rectify zid) s = no_route s
fake_pdns make (Request.get_metadata zid kind) s = found_meta kind (zone_of zid s.zones) s
fake_pdns make (Request.put_metadata zid kind vs) s =
    if_there zid (Body.metadata vs) 200 (set_meta kind vs) s
fake_pdns make (Request.delete_metadata zid kind) s = if_there zid Body.empty 204 (pop_meta kind) s
fake_pdns make Request.list_tsigkeys s = answer 200 (Body.tsigkeys (map public_part s.keys)) s
fake_pdns make (Request.get_tsigkey kid) s = found_key (find (λ k. key_id k.name ≟ kid) s.keys) s
fake_pdns make (Request.post_tsigkey k) s =
    let name = rstrip_char b'.' k.name in
    let made : TsigKey = record {
      name = name;
      algorithm = k.algorithm;
      secret = some (or_made make name k.secret);
    } in
    if any (λ t. key_id t.name ≟ key_id name) s.keys
    then refuse 409 (detail_of (codes "TSIG key '" ++ name ++ codes "' already exists")) s
    else answer 201 (Body.tsigkey made) (record s { keys = s.keys ++ made ∷ [] })
fake_pdns make (Request.delete_tsigkey kid) s =
    if any (λ t. key_id t.name ≟ kid) s.keys
    then answer 204 Body.empty (record s { keys = filter (λ t. not (key_id t.name ≟ kid)) s.keys })
    else missing s
