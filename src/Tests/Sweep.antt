-- ===== src/Tests/Sweep.antt =====
-- A sweep on a server whose state is the number of PATCH requests that it carried out.
use mojodns.Prelude.{ℕ, suc, true, false, [], ◌∷◌, some, none, if◌then◌else◌}
use mojodns.Text.{codes, pos}
use mojodns.Pdns.Types.{Request, Body, Zone, Api}
use mojodns.Pdns.Zones.{get_zone}
use mojodns.Db.{World}
use mojodns.Resign.Counts.{is_patch}
use mojodns.Tests.{demo, demo_db, demo_zone}

abbrev signed_zone : Zone
signed_zone = record demo_zone {
  serial = some 1;
  dnssec = true;
  rrsets =
      record {
        name = codes "a.b.";
        rtype = codes "SOA";
        ttl = pos 60;
        records = record { content = codes "n. m. 1 2 3 4 5"; disabled = false } ∷ [];
      }
      ∷ [];
}

abbrev answer : Request → Body
answer Request.list_zones = Body.zones (signed_zone ∷ [])
answer (Request.get_zone z) = Body.zone signed_zone
answer (Request.get_metadata z kind) = Body.metadata []
answer _ = Body.empty

abbrev counting : Api ℕ
counting r n =
    (some (record { status = 200; message = []; body = answer r }), if is_patch r then suc n else n)

abbrev due : World ℕ
due = record {
  server = 0;
  db = record demo_db {
    signing = record { zone = codes "a.b."; last_serial = some 1; due_at = none } ∷ [];
  };
  session = demo.session;
  now = demo.now;
  sent = [];
}
