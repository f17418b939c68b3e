-- ===== src/Zones/Create.antt =====
-- Creating a zone.
use mojodns.Prelude.{
  Bool, true, false, not, List, [], ◌∷◌, none, some, map, filter, Exec, pure, ◌>>=◌, ◌>>◌, try_pdns,
  if◌then◌else◌,
}
use mojodns.Text.{Text, codes, ℤ, pos, strip, split, is_empty}
use mojodns.DnsUtil.{dotted}
use mojodns.DnsUtil.Soa.{Soa, email_to_rname}
use mojodns.DnsUtil.Soa
use mojodns.Pdns.{canonical}
use mojodns.Pdns.Types.{Rec, Change, Api}
use mojodns.Pdns.Zones as Client
use mojodns.Pdns.Tsig.{set_zone_tsig_keys, ensure_tsig_allow_axfr}
use mojodns.Idn.{to_ascii, to_unicode}
use mojodns.Http.{Response}
use mojodns.Db.{User, World, on_server, get_db_state, put_db}
use mojodns.Access.Grants.{add_grant}
use mojodns.Zones.Names.{Env, valid_zone_name, zone_page, zones_page}
use mojodns.Zones.Handlers.{cat, log_zone, say, complain}

abbrev or_list : List Text → List Text → List Text
or_list [] ys = ys
or_list (x ∷ xs) ys = x ∷ xs

-- The names of a comma-separated field, or else the default.
unfoldable pub ns_list : Text → List Text → List Text
ns_list nameservers default =
    or_list
      (map (λ n. dotted (strip n))
        (filter (λ n. not (is_empty (strip n))) (split b',' nameservers)))
      default

abbrev enabled : Text → Rec
enabled content = record { content = content; disabled = false }

-- The apex that a new zone starts with.
unfoldable pub apex_rrsets : Text → Soa → List Text → List Change
apex_rrsets zone soa servers =
    record {
      name = some zone;
      rtype = some (codes "SOA");
      changetype = some (codes "REPLACE");
      ttl = some (pos 86400);
      records = enabled (Soa.content soa) ∷ [];
    }
    ∷ record {
      name = some zone;
      rtype = some (codes "NS");
      changetype = some (codes "REPLACE");
      ttl = some (pos 86400);
      records = map enabled servers;
    }
    ∷ []

-- `[s.tsig_key] if s.tsig_key else []`
abbrev pub primary_key : Text → List Text
primary_key [] = []
primary_key (c ∷ cs) = (c ∷ cs) ∷ []

module _ {S : Type 0} (api : Api S) (env : Env) where
  -- The calls of the server, in the `try`.
  unfoldable pub install_zone : Text → Bool → List Change → Exec (World S) (Unit {0})
  install_zone zone true rrsets = do
    on_server (Client.create_zone api zone (codes "Master") none rrsets)
    on_server (set_zone_tsig_keys api zone (primary_key env.settings.tsig_key))
  install_zone zone false rrsets = do
    on_server (Client.create_zone api zone (codes "Master") (some env.settings.catalog_zone) rrsets)
    on_server (ensure_tsig_allow_axfr api env.settings.tsig_key_names zone)

  -- What follows once the zone is on the server.
  unfoldable pub adopt_zone : User → Text → Bool → Exec (World S) Response
  adopt_zone user zone custom = do
    db ← get_db_state
    put_db (add_grant zone user.id true db)
    log_zone user zone
        (cat (codes "Create zone " ∷ zone ∷ (if custom then codes " (custom DNS)" else []) ∷ []))
    say (
        cat (
          codes "Zone "
          ∷ to_unicode env.idna zone
          ∷ (if custom
              then codes
                  " created in custom DNS mode — add a transfer key below for your secondaries"
              else codes " created")
          ∷ []))
    pure (zone_page zone)

  unfoldable pub zone_create :
      User → Text → Text → Text → ℤ → ℤ → ℤ → ℤ → Text → Bool → Exec (World S) Response
  zone_create user name soa_ns soa_mail refresh retry expire minimum nameservers custom =
      let zone = canonical (to_ascii env.idna name) in
      let soa : Soa = record {
        mname = dotted soa_ns;
        rname = email_to_rname soa_mail;
        serial = pos 1;
        refresh = refresh;
        retry = retry;
        expire = expire;
        minimum = minimum;
      } in
      let rrsets = apex_rrsets zone soa (ns_list nameservers env.settings.default_ns_list) in
      if not (valid_zone_name zone)
      then (do
        complain (cat (codes "'" ∷ name ∷ codes "' is not a valid zone name" ∷ []))
        pure zones_page)
      else (do
        installed ←
            try_pdns (do install_zone zone custom rrsets; pure true)
              λ status message. (do complain message; pure false)
        if installed then adopt_zone user zone custom else pure zones_page)
