-- ===== src/Tests/Server.antt =====
-- Runs against the stand-in server.
use mojodns.Prelude.{
  inr, true, false, [], ◌∷◌, is_ok, some, ◌≡◌, ◌≢◌, inl, refl, any, find, ◌≟◌, list_beq, ≟_iff,
}
use mathlib.Core.Bool.{false≢true}
use mathlib.Core.List.{cons-ne-nil}
use mojodns.Text.{split, rstrip_char, codes, pos, lower, strip, strip_char}
use mojodns.Pdns.{canonical}
use mojodns.Pdns.Types.{Rec}
use mojodns.Pdns.Client.{req, outcome}
use mojodns.Pdns.Zones.{rrset_change}
use mojodns.Pdns.Update.{write_update_access, set_zone_metadata, tsig_allow, allow_from}
use mojodns.Pdns.Update.Stores.{Stores}
use mojodns.Pdns.Update.Access.{IsGated, write_update_access_lem, write_update_access-IsGated}
use mojodns.Api.Compat.{zone_patch}
use mojodns.Api.PatchScope.{Confined, zone_patch-Confined}
use mojodns.Api.Ddns.{find_zone}
use mojodns.Api.Ddns.Scope.{Covers, find_zone-Covers}
use mojodns.Zones.Records.{rrset_in}
use mojodns.Fake.{set_meta, has_zone, on_zone, zone_of, meta_of, fake_pdns, apply_change}
use mojodns.Fake.Stores.{metadata, fake_pdns-Stores}
use mojodns.Fake.Rrsets.{rrset_in-rrset_change, rrset_in-rrset_change_ne}
use mojodns.Tests.{demo_server, demo_api, no_digest, owner, demo, txt_change}

fake_pdns-Stores_example : Stores (fake_pdns no_digest) metadata
fake_pdns-Stores_example = fake_pdns-Stores no_digest

write_update_access-IsGated_example :
    IsGated demo_api metadata
      (fake_pdns-Stores no_digest)
      (write_update_access demo_api (codes "a.b.") (codes "K." ∷ []) [] demo_server).1
      (canonical (codes "a.b."))
unfolding zone_of find meta_of ◌≟◌ list_beq canonical lower strip strip_char
write_update_access-IsGated_example =
    write_update_access-IsGated demo_api metadata (fake_pdns-Stores no_digest) demo_server
      (codes "a.b.") (codes "K." ∷ []) [] (inr refl) (inl (cons-ne-nil (codes "K.") []))

zone_patch-Confined_example :
    Confined demo_api owner
      (canonical (codes "a.b."))
      (txt_change ∷ [])
      demo
      (zone_patch demo_api owner (codes "a.b.") (txt_change ∷ []) demo).1
zone_patch-Confined_example =
    zone_patch-Confined demo_api owner (codes "a.b.") (txt_change ∷ []) demo

find_zone-Covers_example :
    Covers owner
      (codes "x" ∷ codes "a" ∷ codes "b" ∷ [])
      demo
      (find_zone demo_api owner (codes "x.a.b.") demo).0
unfolding split rstrip_char
find_zone-Covers_example = find_zone-Covers demo_api owner (codes "x.a.b.") demo

abbrev address : Rec
address = record { content = codes "1.2.3.4"; disabled = false }

rrset_in-rrset_change_example :
    rrset_in
      (canonical (codes "W.a.b"))
      (codes "A")
      (apply_change [] (rrset_change (codes "W.a.b") (codes "A") (pos 60) (address ∷ [])))
    ≡ (some (pos 60), address ∷ [])
rrset_in-rrset_change_example =
    rrset_in-rrset_change (codes "W.a.b") (codes "A") (pos 60) (address ∷ []) []

other_name : codes "v.a.b." ≢ canonical (codes "w.a.b")
unfolding ◌≟◌ list_beq canonical lower strip strip_char
other_name h = false≢true ((≟_iff (codes "v.a.b.") (codes "w.a.b.")).1 h)

rrset_in-rrset_change_ne_example :
    rrset_in (codes "v.a.b.") (codes "A") (
      apply_change
        (record { name = codes "v.a.b."; rtype = codes "A"; ttl = pos 5; records = address ∷ [] }
          ∷ [])
        (rrset_change (codes "w.a.b") (codes "A") (pos 60) []))
    ≡ rrset_in (codes "v.a.b.") (codes "A") (
        record { name = codes "v.a.b."; rtype = codes "A"; ttl = pos 5; records = address ∷ [] }
        ∷ [])
rrset_in-rrset_change_ne_example =
    rrset_in-rrset_change_ne (codes "w.a.b") (codes "A") (codes "v.a.b.") (codes "A") (pos 60) []
      (record { name = codes "v.a.b."; rtype = codes "A"; ttl = pos 5; records = address ∷ [] }
        ∷ [])
      (inl other_name)

runs : is_ok (write_update_access demo_api (codes "a.b.") (codes "K." ∷ []) [] demo_server).0 ≡ true
unfolding write_update_access set_zone_metadata req outcome fake_pdns has_zone any ◌≟◌ list_beq
    canonical lower strip strip_char on_zone set_meta
runs = refl

write_update_access_lem_example :
    (metadata
        (write_update_access demo_api (codes "a.b.") (codes "K." ∷ []) [] demo_server).1
        (canonical (codes "a.b."))
        tsig_allow
      ≡ codes "k" ∷ [])
    × (metadata
          (write_update_access demo_api (codes "a.b.") (codes "K." ∷ []) [] demo_server).1
          (canonical (codes "a.b."))
          allow_from
        ≡ codes "0.0.0.0/0" ∷ codes "::/0" ∷ [])
unfolding rstrip_char lower
write_update_access_lem_example =
    write_update_access_lem demo_api metadata (fake_pdns-Stores no_digest) demo_server
      (codes "a.b.") (codes "K." ∷ []) [] runs
