-- ===== src/Zones/Records.antt =====
-- Creating, changing and deleting records.
use mojodns.Prelude.{
  ℕ, false, ◌&&◌, List, [], ◌∷◌, ◌++◌, Option, none, some, ◌≟◌, Exec, Result, crash, pure, raise,
  ◌>>=◌, ◌>>◌, if◌then◌else◌,
}
use mojodns.Text.{Text, codes, ℤ, pos, negsuc}
use mojodns.DnsUtil.{build_content, dotted}
use mojodns.DnsUtil.Rows.{flatten_rrsets}
use mojodns.DnsUtil.Soa.{Soa, email_to_rname}
use mojodns.DnsUtil.Soa
use mojodns.Pdns.{canonical}
use mojodns.Pdns.Types.{Rec, Rrset, Api}
use mojodns.Pdns.Zones as Client
use mojodns.Http.{Response, page}
use mojodns.Db.{User, World, on_server, flash}
use mojodns.Notifier.{notify_zone}
use mojodns.Zones.Names.{Env, fqdn, edit_page}
use mojodns.Zones.Handlers.{or_flash, log_zone}
use mojodns.Zones.Contents.{add_content, drop_content}

-- The rrset of a name and type, if there is one: the first that the server lists.
unfoldable pub rrset_in : Text → Text → List Rrset → Option ℤ × List Rec
rrset_in name rtype [] = (none, [])
rrset_in name rtype (rr ∷ rrs) =
    if rr.name ≟ name && rr.rtype ≟ rtype
    then (some rr.ttl, rr.records)
    else rrset_in name rtype rrs

-- `old or default`: 0 counts as missing.
abbrev pub ttl_or : Option ℤ → ℤ → ℤ
ttl_or none d = d
ttl_or (some (pos ℕ.zero)) d = d
ttl_or (some (pos (ℕ.suc n))) d = pos (ℕ.suc n)
ttl_or (some (negsuc n)) d = negsuc n

abbrev pub lift : {S A : Type 0} → Result A → Exec (World S) A
lift r w = (r, w)

module _ {S : Type 0} (api : Api S) (env : Env) where
  -- The table that the record forms come back with.
  unfoldable pub records_partial : Text → Exec (World S) Response
  records_partial zone = do
    zdata ← on_server (Client.get_zone api zone)
    lift (flatten_rrsets zdata.rrsets)
    pure (page (codes "partials/records_table.html"))

  unfoldable pub rrset_contents : Text → Text → Text → Exec (World S) (Option ℤ × List Rec)
  rrset_contents zone name rtype = do
    zdata ← on_server (Client.get_zone api zone)
    pure (rrset_in name rtype zdata.rrsets)

  abbrev replace : Text → Text → Text → ℤ → List Rec → Exec (World S) (Unit {0})
  replace zone name rtype ttl records =
      on_server (Client.replace_rrset api zone name rtype ttl records)

  unfoldable pub record_create :
      Text → User → Text → Text → Text → ℤ → Option ℤ → Exec (World S) Response
  record_create zone user host rtype body ttl prio = do
    let name = fqdn env.idna host zone
    let content = build_content rtype body prio
    existing ← rrset_contents zone name rtype
    or_flash (do
      replace zone name rtype ttl (add_content content existing.1)
      notify_zone env.dns api zone
      log_zone user zone
          (codes "Create record " ++ (name ++ (codes " " ++ (rtype ++ (codes " " ++ content))))))
    records_partial zone

  -- Under its old name the record changes in place; under a new one it leaves one rrset and joins another.
  unfoldable pub move_record :
      Text → Text → Text → Text → Text → Text → ℤ → Option ℤ → List Rec → Exec (World S) (Unit {0})
  move_record zone orig_name rtype orig_content new_name new_content ttl old_ttl old_set =
      let remaining = drop_content orig_content old_set in
      if new_name ≟ canonical orig_name
      then replace zone orig_name rtype ttl (add_content new_content remaining)
      else (do
        replace zone orig_name rtype (ttl_or old_ttl ttl) remaining
        target ← rrset_contents zone new_name rtype
        replace zone new_name rtype ttl (add_content new_content target.1))

  unfoldable pub record_update :
      Text → User → Text → Text → Text → Text → Text → ℤ → Option ℤ → Exec (World S) Response
  record_update zone user orig_name orig_type orig_content host body ttl prio = do
    let new_name = fqdn env.idna host zone
    let new_content = build_content orig_type body prio
    or_flash (do
      old ← rrset_contents zone orig_name orig_type
      move_record zone orig_name orig_type orig_content new_name new_content ttl old.0 old.1
      notify_zone env.dns api zone
      log_zone user zone (
          codes "Update record "
          ++ (orig_name
              ++ (codes " "
                  ++ (orig_type
                      ++ (codes ": " ++ (orig_content ++ (codes " -> " ++ new_content))))))))
    records_partial zone

  unfoldable pub record_delete : Text → User → Text → Text → Text → Exec (World S) Response
  record_delete zone user name rtype content = do
    or_flash (do
      existing ← rrset_contents zone name rtype
      replace zone name rtype (ttl_or existing.0 (pos 3600)) (drop_content content existing.1)
      notify_zone env.dns api zone
      log_zone user zone
          (codes "Delete record " ++ (name ++ (codes " " ++ (rtype ++ (codes " " ++ content))))))
    records_partial zone

  -- `soa.mname = …`: a zone without an SOA raises AttributeError.
  abbrev with_soa : Option Soa → Exec (World S) Soa
  with_soa none = raise crash
  with_soa (some soa) = pure soa

  unfoldable pub soa_update :
      Text → User → Text → Text → ℤ → ℤ → ℤ → ℤ → ℤ → Exec (World S) Response
  soa_update zone user soa_ns soa_mail refresh retry expire minimum ttl = do
    zdata ← on_server (Client.get_zone api zone)
    flat ← lift (flatten_rrsets zdata.rrsets)
    old ← with_soa flat.0
    let soa = record old {
      mname = dotted soa_ns;
      rname = email_to_rname soa_mail;
      refresh = refresh;
      retry = retry;
      expire = expire;
      minimum = minimum;
    }
    or_flash (do
      replace zone zone (codes "SOA") ttl
          (record { content = Soa.content soa; disabled = false } ∷ [])
      notify_zone env.dns api zone
      log_zone user zone (codes "Update SOA")
      flash (codes "SOA updated") (codes "ok"))
    pure (edit_page zone)
