-- ===== src/Pdns.antt =====
-- app/mojodns/pdns.py: names, and the client of the PowerDNS REST API. The server is not part of the
-- program: it is a parameter `api` of every operation that talks to it.
pub mod Types
pub mod Client
pub mod Zones
pub mod Update
pub mod Names
pub mod Tsig
pub mod Dnssec
use mojodns.Prelude.{Bool, true, false, [], ◌∷◌, ◌++◌, ◌≟◌, if◌then◌else◌, not, ◌&&◌}
use mojodns.Text.{Text, codes, strip, strip_char, lower, is_empty}
use Types.{Zone}

unfoldable pub canonical : Text → Text
canonical name = lower (strip_char b'.' (strip name)) ++ b'.' ∷ []

-- Served by secondaries that are set up by hand: neither the catalog producer nor in the catalog.
unfoldable pub is_custom_zone : Zone → Text → Bool
is_custom_zone zdata catalog_zone =
    if zdata.kind ≟ codes "Producer"
    then false
    else if zdata.name ≟ canonical catalog_zone
    then false
    else is_empty (strip zdata.catalog)
