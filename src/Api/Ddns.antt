-- ===== src/Api/Ddns.antt =====
-- app/mojodns/routers/ddns.py. `address` is `ipaddress.ip_address`: the version and the normal form of
-- an address, none for a ValueError.
pub mod Scope
use mojodns.Prelude.{
  ℕ, Bool, true, false, not, ◌&&◌, ◌||◌, List, [], ◌∷◌, ◌++◌, Option, none, some, ◌==◌, ◌≟◌, Exec,
  http_error, pure, raise, ◌>>=◌, ◌>>◌, if◌then◌else◌,
}
use mojodns.Text.{Text, codes, ℤ, pos, negsuc, upper, rstrip_char, split, join}
use mojodns.Pdns.{canonical}
use mojodns.Pdns.Types.{Rec, Api}
use mojodns.Pdns.Zones.{get_zone, zone_exists, replace_rrset}
use mojodns.Idn.{Idna, to_ascii}
use mojodns.Notifier.{Lookup, notify_zone}
use mojodns.Db.{User, World, on_server, log_history}
use mojodns.Access.{can_access_zone}
use mojodns.Api.Compat.{relay}
use mojodns.Zones.Records.{rrset_in}

pub data Version : Type 0 where
  v4 : Version
  v6 : Version

abbrev is_v4 : Version → Bool
is_v4 v4 = true
is_v4 v6 = false

-- The answer: name, type and, of an update, the address, and whether anything was changed.
pub record DdnsAnswer : Type 0 where
  pub name : Text
  pub rtype : Text
  pub ip : Option Text
  pub changed : Bool

-- `_check`
unfoldable pub check_name : {S : Type 0} → Idna → Text → Text → Exec S (Text × Text)
check_name idna name rtype =
    let t = upper rtype in
    if not (t ≟ codes "A" || t ≟ codes "AAAA")
    then raise (http_error 403 (codes "only A and AAAA allowed"))
    else pure (canonical (to_ascii idna name), t)

-- `ip or request.client.host`
abbrev or_source : Option Text → Text → Text
or_source none host = host
or_source (some []) host = host
or_source (some (c ∷ cs)) host = c ∷ cs

unfoldable pub check_address :
    {S : Type 0} → (Text → Option (Version × Text)) → Text → Text → Exec S Text
check_address address rtype source = elim (address source) [
  | none ↦ raise (http_error 422 (codes "bad address '" ++ (source ++ codes "'")))
  | some (v, normal) ↦
      if rtype ≟ codes "A" && not (is_v4 v)
      then raise (http_error 422 (normal ++ codes " is not an IPv4 address"))
      else if not (rtype ≟ codes "A") && is_v4 v
      then raise (http_error 422 (normal ++ codes " is not an IPv6 address"))
      else pure normal
]

-- `cur == [content] and cur_ttl == ttl`; a `ttl` of the form is from 10 to 86400
abbrev same_ttl : Option ℤ → ℕ → Bool
same_ttl (some (pos n)) ttl = n == ttl
same_ttl (some (negsuc n)) ttl = false
same_ttl none ttl = false

abbrev only : Text → List Rec → Bool
only content [] = false
only content (r ∷ []) = r.content ≟ content
only content (r ∷ s ∷ rs) = false

module _ {S : Type 0} (api : Api S) where
  -- The loop of `_find_zone`, on the labels that are left.
  unfoldable pub find_suffix : User → Text → List Text → Exec (World S) Text
  find_suffix user fqdn [] w = raise (http_error 404 (codes "no managed zone covers " ++ fqdn)) w
  find_suffix user fqdn (l ∷ ls) w =
      let candidate = canonical (join (b'.' ∷ []) (l ∷ ls)) in
      if can_access_zone w.db user candidate
      then (do
        there ← on_server (zone_exists api candidate)
        if there then pure candidate else find_suffix user fqdn ls)
          w
      else find_suffix user fqdn ls w

  unfoldable pub find_zone : User → Text → Exec (World S) Text
  find_zone user fqdn = find_suffix user fqdn (split b'.' (rstrip_char b'.' fqdn))

  -- `_current`
  unfoldable pub current : Text → Text → Text → Exec (World S) (Option ℤ × List Rec)
  current zone fqdn rtype = do
    zdata ← on_server (get_zone api zone)
    pure (rrset_in fqdn rtype zdata.rrsets)

  module _ (idna : Idna) (dns : Lookup) where
    -- The `try` of an update: whether anything was sent.
    unfoldable pub publish : Text → Text → Text → ℕ → Text → Exec (World S) Bool
    publish zone fqdn rtype ttl content = do
      cur ← current zone fqdn rtype
      if only content cur.1 && same_ttl cur.0 ttl then pure false else (do
        on_server (
            replace_rrset api zone fqdn rtype (pos ttl)
              (record { content = content; disabled = false } ∷ []))
        notify_zone dns api zone
        pure true)

    abbrev logged : User → Text → Bool → Text → Exec (World S) (Unit {0})
    logged user zone changed message =
        if changed then log_history (some user.id) (codes "zone") (some zone) message else pure tt

    unfoldable pub ddns_update :
        (Text → Option (Version × Text))
        → User
        → Text
        → Text
        → Option Text
        → Text
        → ℕ
        → Exec (World S) DdnsAnswer
    ddns_update address user name rtype ip host ttl = do
      (fqdn, t) ← check_name idna name rtype
      zone ← find_zone user fqdn
      content ← check_address address t (or_source ip host)
      changed ← relay (publish zone fqdn t ttl content)
      logged user zone changed
          (codes "DDNS " ++ (t ++ (codes " " ++ (fqdn ++ (codes " -> " ++ content)))))
      pure (record { name = fqdn; rtype = t; ip = some content; changed = changed })

    -- The `try` of a deletion.
    unfoldable pub withdraw : Text → Text → Text → Exec (World S) Bool
    withdraw zone fqdn rtype = do
      cur ← current zone fqdn rtype
      elim cur.1 [
        | [] ↦ pure false
        | r ∷ rs ↦ (do
          on_server (replace_rrset api zone fqdn rtype (pos 300) [])
          notify_zone dns api zone
          pure true)
      ]

    unfoldable pub ddns_delete : User → Text → Text → Exec (World S) DdnsAnswer
    ddns_delete user name rtype = do
      (fqdn, t) ← check_name idna name rtype
      zone ← find_zone user fqdn
      changed ← relay (withdraw zone fqdn t)
      logged user zone changed (codes "DDNS delete " ++ (t ++ (codes " " ++ fqdn)))
      pure (record { name = fqdn; rtype = t; ip = none; changed = changed })
