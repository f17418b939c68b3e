-- ===== src/Zones.antt =====
-- app/mojodns/routers/zones.py: the handlers of the zone pages. Each is an action of the request's
-- world; `zone` is what `zone_guard` returned, `user` what `current_user` returned.
pub mod Names
pub mod Records
pub mod Contents
pub mod Handlers
pub mod Create
pub mod Keys
pub mod Settings
pub mod Spf
pub mod Verification
pub mod Diagnostics
pub mod Edit
pub mod Import
pub mod Pages
