-- ===== src/Zones/Spf.antt =====
-- The SPF page and its form. The pages also give what they show.
use mojodns.Prelude.{
  Bool, true, false, not, List, [], ◌∷◌, ◌++◌, Option, none, some, find, Exec, pure, ◌>>=◌, ◌>>◌,
  try_pdns, if◌then◌else◌, ◌≡◌, ◌≢◌, Bool-cases, inl, inr, ◌∙◌,
}
use mojodns.Text.{Text, codes, ℤ, pos, is_empty}
use mojodns.Pdns.{canonical}
use mojodns.Pdns.Types.{Api, Rec}
use mojodns.Pdns.Zones as Client
use mojodns.Spf.{IpAddress}
use mojodns.Spf.Parse as Spf
use mojodns.DnsUtil.{quote_txt}
use mojodns.Http.{Response, page}
use mojodns.Db.{User, World, on_server}
use mojodns.Notifier.{notify_zone}
use mojodns.Zones.Names.{Env, rel_name, zone_page}
use mojodns.Zones.Handlers.{cat, log_zone, say, complain}
use mojodns.Zones.Contents.{
  has_content, add_content, drop_content, has_content-add_content, has_content-add_content_ne,
  has_content-drop_content_ne,
}
use mojodns.Zones.Records.{rrset_contents, ttl_or}

-- The TXT records that stay, and the new one.
unfoldable pub spf_records : Text → Text → List Rec → List Rec
spf_records orig_content new existing =
    add_content new (if is_empty orig_content then existing else drop_content orig_content existing)

abbrev content_or : Option Rec → Text
content_or none = []
content_or (some r) = r.content

-- What the form starts from: the record that is asked for, else the first SPF record, else a fresh one.
unfoldable pub orig_of : Text → List Rec → Text
orig_of [] existing = content_or (find (λ r. Spf.is_spf r.content) existing)
orig_of (c ∷ cs) existing = c ∷ cs

abbrev parsed_from : IpAddress → Text → Spf.Report
parsed_from ip [] = Spf.parse_spf ip (codes "v=spf1 ~all")
parsed_from ip (c ∷ cs) = Spf.parse_spf ip (c ∷ cs)

abbrev name_or : Text → Text → Text
name_or zone [] = canonical zone
name_or zone (c ∷ cs) = canonical (c ∷ cs)

abbrev spf_page : Response
spf_page = page (codes "spf.html")

module _ {S : Type 0} (api : Api S) (env : Env) (ip : IpAddress) where
  -- The original record, its TTL, and the parsed terms.
  unfoldable pub spf_edit : Text → Text → Text → Exec (World S) (Text × ℤ × Spf.Report)
  spf_edit zone name content = do
    found ← rrset_contents api env zone (name_or zone name) (codes "TXT")
    let orig = orig_of content found.1
    pure (orig, ttl_or found.0 (pos 3600), parsed_from ip orig)

  abbrev save_spf : Text → Text → Text → Text → ℤ → Exec (World S) Bool
  save_spf zone target orig_content new ttl = do
    existing ← rrset_contents api env zone target (codes "TXT")
    on_server (
        Client.replace_rrset api zone target (codes "TXT") ttl
          (spf_records orig_content new existing.1))
    notify_zone env.dns api zone
    pure true

  abbrev after_save : Text → User → Text → Text → Bool → Exec (World S) Response
  after_save zone user host raw true = do
    log_zone user zone (cat (codes "Update SPF at " ∷ host ∷ codes ": " ∷ raw ∷ []))
    say (codes "SPF record saved for " ++ host)
    pure (zone_page zone)
  after_save zone user host raw false = pure spf_page

  unfoldable pub spf_save : Text → User → Text → Text → Text → ℤ → Exec (World S) Response
  spf_save zone user name orig_content content ttl =
      let target = canonical name in
      let parsed = Spf.parse_spf ip content in
      if not parsed.valid
      then (do complain (codes "SPF record has errors — fix them and save again"); pure spf_page)
      else (do
        saved ←
            try_pdns (save_spf zone target orig_content (quote_txt parsed.raw) ttl)
              (λ status message. do complain message; pure false)
        after_save zone user (rel_name env.idna target zone) parsed.raw saved)

-- Saving an SPF record puts it into the TXT records of the name, and touches no other content but the one
-- that was edited.
pub spf_records-keeps :
    (orig new other : Text) (rs : List Rec)
    → other ≢ orig
    → new ≢ other
    → (has_content new (spf_records orig new rs) ≡ true)
      × (has_content other (spf_records orig new rs) ≡ has_content other rs)
unfolding spf_records
spf_records-keeps orig new other rs h k = elim (Bool-cases (is_empty orig)) [
  | inl e ↦ rw e (has_content-add_content new rs, has_content-add_content_ne new other rs k)
  | inr e ↦ rw e (
    has_content-add_content new (drop_content orig rs),
    has_content-add_content_ne new other (drop_content orig rs) k
        ∙ has_content-drop_content_ne orig other rs h,
  )
]
