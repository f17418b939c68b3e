-- ===== src/Checks/Guard.antt =====
-- app/mojodns/netguard.py. `address` is `ipaddress.ip_address`, none for a ValueError.
use mojodns.Prelude.{Bool, false, ◌||◌, Option, none, some, if◌then◌else◌}
use mojodns.Text.{Text}

pub record Flags : Type 0 where
  pub is_loopback : Bool
  pub is_link_local : Bool
  pub is_private : Bool
  pub is_reserved : Bool
  pub is_multicast : Bool
  pub is_unspecified : Bool
  pub is_global : Bool

-- An address and, of an IPv6 address that embeds an IPv4 one, that one.
pub record Address : Type 0 where
  pub flags : Flags
  pub ipv4_mapped : Option Flags

abbrev pub unwrapped : Address → Option Flags → Flags
unwrapped addr none = addr.flags
unwrapped addr (some mapped) = mapped

unfoldable pub is_global_unicast : Flags → Bool
is_global_unicast f =
    if f.is_loopback || f.is_link_local || f.is_private || f.is_reserved || f.is_multicast
      || f.is_unspecified
    then false
    else f.is_global

abbrev pub check_address : Option Address → Bool
check_address none = false
check_address (some addr) = is_global_unicast (unwrapped addr addr.ipv4_mapped)

unfoldable pub is_public_ip : (Text → Option Address) → Text → Bool
is_public_ip address ip = check_address (address ip)
