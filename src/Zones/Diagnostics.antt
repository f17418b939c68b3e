-- ===== src/Zones/Diagnostics.antt =====
-- The checks of a zone's signatures and of its name servers, within the user's rate limit. The state
-- joins the table of the rate limiter and the request's world.
use mojodns.Prelude.{
  ℕ, Bool, true, false, List, [], ◌∷◌, ◌++◌, Option, none, some, Exec, Result, ok, pure, ◌>>=◌,
  ◌>>◌, try_pdns, if◌then◌else◌, ◌≟◌, ◌⊎◌, inl, inr,
}
use mojodns.Text.{Text, codes, ℤ, pos, show_int}
use mojodns.Pdns.Types.{Api, Zone}
use mojodns.Pdns.Zones as Client
use mojodns.RateLimit.{Hits, allow}
use mojodns.Db.{User, World, on_server}
use mojodns.Verify.Resolver.{Resolver}
use mojodns.Secondaries.{Dns, Row, apex_ns, check_slaves, summarize_rows}
use mojodns.Secondaries.Delegation.{DelegationReport, check_delegation}
use mojodns.Dnssec.Check.{DnssecReport, check_dnssec}
use mojodns.Checks.Run.{limit_of}
use mojodns.Zones.Names.{Env}
use mojodns.Zones.Handlers.{cat, show, log_zone}

-- What the partial page shows: a report or the text of an error.
pub data Shown (A : Type 0) : Type 0 where
  shown : A → Shown A
  sorry : Text → Shown A

pub record ServersReport : Type 0 where
  pub master_serial : Option ℕ
  pub rows : List Row
  pub delegation : DelegationReport

abbrev limit_text : ℤ → ℕ → Text
limit_text limit retry = cat (
    codes "Rate limit reached ("
    ∷ show_int limit
    ∷ codes "/min) — wait "
    ∷ show retry
    ∷ codes "s"
    ∷ [])

module _ {S : Type 0} (api : Api S) (env : Env) (dns : Dns) where
  abbrev if_allowed :
      {A : Type 0}
      → ℤ
      → Exec (World S) (Shown A)
      → (Bool × ℕ) × Hits
      → World S
      → Result (Shown A) × (Hits × World S)
  if_allowed limit m ((false, retry), hits) w = (ok (sorry (limit_text limit retry)), (hits, w))
  if_allowed limit m ((true, retry), hits) w = let (r, w') = m w in (r, (hits, w'))

  -- The check under the limit of the user.
  unfoldable pub within_limit :
      {A : Type 0} → User → Exec (World S) (Shown A) → Exec (Hits × World S) (Shown A)
  within_limit user m (hits, w) =
      let limit = limit_of env.settings.default_check_rate_limit user.check_rate_limit in
      if_allowed limit m (allow (show_int (pos user.id)) limit w.now hits) w

  abbrev verdict_or : Option Text → Text
  verdict_or none = codes "-"
  verdict_or (some v) = v

  abbrev dnssec_note : DnssecReport → Text
  dnssec_note report = if report.secured then verdict_or report.verdict else codes "unsigned"

  abbrev check_signatures : Resolver → ℤ → Text → User → Exec (World S) (Shown DnssecReport)
  check_signatures resolver warn_days zone user w =
      (do
        report ← on_server (check_dnssec api dns resolver w.now warn_days zone)
        log_zone user zone (codes "DNSSEC check: " ++ dnssec_note report)
        pure (shown report))
        w

  unfoldable pub zone_dnssec_check :
      Resolver → ℤ → Text → User → Exec (Hits × World S) (Shown DnssecReport)
  zone_dnssec_check resolver warn_days zone user =
      within_limit user (check_signatures resolver warn_days zone user)

  abbrev servers_note : List Row → DelegationReport → Text
  servers_note rows delegation =
      summarize_rows rows
      ++ (if delegation.status ≟ codes "mismatch" then codes "; delegation MISMATCH" else [])

  abbrev poll_servers : Text → User → Zone ⊎ Text → Exec (World S) (Shown ServersReport)
  poll_servers zone user (inr message) = pure (sorry message)
  poll_servers zone user (inl zdata) = do
    rows ← on_server (check_slaves api dns zone zdata.serial)
    nss ← on_server (apex_ns api zone)
    let delegation = check_delegation dns zone nss
    log_zone user zone (codes "Check DNS servers: " ++ servers_note rows delegation)
    pure (shown (record { master_serial = zdata.serial; rows = rows; delegation = delegation }))

  unfoldable pub zone_servers : Text → User → Exec (Hits × World S) (Shown ServersReport)
  zone_servers zone user = within_limit user (
      try_pdns (do zdata ← on_server (Client.get_zone api zone); pure (inl zdata))
        (λ status message. pure (inr message))
      >>= poll_servers zone user)
