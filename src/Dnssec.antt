-- ===== src/Dnssec.antt =====
-- app/mojodns/dnsseccheck.py. Sets of DS records are lists without repetitions in their order.
pub mod Parent
pub mod Nameservers
pub mod Check
