-- ===== src/Checks/Run/Scope.antt =====
-- What a check may reach.
use mojodns.Prelude.{ℕ, false, List, ok, ◌≡◌, ◌⊎◌}
use mojodns.Text.{Text, ℤ}
use mojodns.Pdns.{canonical}
use mojodns.Pdns.Types.{Api, Zone}
use mojodns.Pdns.Zones as Client
use mojodns.Checks.Run.Targets.{Published}
use mojodns.Db.{User, Proxy}
use mojodns.Checks.Proxies.{proxy_spec}
use mojodns.Checks.Proxies.Visible.{Usable}
use mojodns.Checks.Probe.{Network, blocked}
use mojodns.Checks.Quiet.{Target, IsLogged, Dials}
use mojodns.Checks.Run.{Resolve, Panel}

module _ {S N : Type 0} (api : Api S) (net : Network N) (log : N → List Target)
    (logged : IsLogged log net) (resolve : Resolve) (default_limit : ℤ) (micros : ℕ) where
  -- The network is as before, or `ip` is not blocked and all that was asked of the network is one or two
  -- connections to one port of `ip`, from the location `chosen`.
  abbrev pub Reaches : Text → Proxy → N → N → Type 0
  Reaches ip chosen n n' =
      (n' ≡ n)
      ⊎ ((port : ℕ) × (blocked net ip ≡ false) × Dials log 1 2 (proxy_spec chosen, ip, port) n n')

  module _ (user : User) (zone kind host ip : Text) where
    -- Where a check may have gone: nowhere, or to one port of an address that is not blocked and that the
    -- zone, as the server has it, publishes for the host, from a location that is enabled and that the
    -- user may use.
    abbrev pub InScope : Panel S N → Panel S N → Type 0
    InScope p p' =
        (p'.net ≡ p.net)
        ⊎ ((zdata : Zone) × (chosen : Proxy) × ((Client.get_zone api zone p.world.server).0
              ≡ ok zdata)
            × Published resolve (canonical host) zdata.rrsets ip
            × Usable user chosen
            × Reaches ip chosen p.net p'.net)
