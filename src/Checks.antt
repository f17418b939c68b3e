-- ===== src/Checks.antt =====
-- The reachability checks: which addresses may be probed, from where, and what a probe reports. The
-- libraries `ipaddress`, `ssl`, `socks` and `cryptography` are parameters, and so is the network.
pub mod Guard
pub mod Http
pub mod Probe
pub mod Cert
pub mod Certs
pub mod Https
pub mod Quiet
pub mod Contained
pub mod Proxies
pub mod Run
