-- ===== src/Zones/Keys.antt =====
-- Transfer keys, and the keys and addresses of dynamic updates.
use mojodns.Prelude.{
  ℕ, Bool, not, ◌&&◌, ◌||◌, List, [], ◌∷◌, ◌++◌, Option, none, some, map, filter, all, elem, leb,
  length, Exec, Result, ok, err, value_error, pure, raise, ◌>>=◌, ◌>>◌, if◌then◌else◌, ◌==◌, ◌≟◌,
}
use mojodns.Text.{
  Text, codes, strip, rstrip_char, lower, split, split_words, replace_char, starts_with, ends_with,
  is_empty, is_digit,
}
use mojodns.Pdns.{canonical}
use mojodns.Pdns.Types.{Api}
use mojodns.Pdns.Tsig.{
  zone_tsig_keys, set_zone_tsig_keys, create_tsig_key, delete_tsig_key, tsig_key_in_use,
}
use mojodns.Pdns.Update.{get_zone_update_keys, set_zone_update_keys, set_zone_update_ips}
use mojodns.Http.{Response}
use mojodns.Db.{User, World, on_server}
use mojodns.Zones.Names.{Env, edit_page}
use mojodns.Zones.Handlers.{cat, show, or_flash, log_zone, say, complain}

abbrev key_char : ℕ → Bool
key_char c = (leb b'a' c && leb c b'z') || is_digit c

abbrev is_key_label : Text → Bool
is_key_label l =
    not (is_empty l)
    && all (λ c. key_char c || c == b'-') l
    && not (starts_with (b'-' ∷ []) l)
    && not (ends_with (b'-' ∷ []) l)

-- The pattern of a key name: labels of letters, digits and inner hyphens, with dots between.
unfoldable pub valid_key_name : Text → Bool
valid_key_name name = all is_key_label (split b'.' name)

unfoldable pub key_name : Text → Text
key_name name = lower (rstrip_char b'.' (strip name))

-- `secret.strip() if action == "import" else None`
abbrev imported : Text → Text → Option Text
imported action secret = if action ≟ codes "import" then some (strip secret) else none

-- `if key_name not in keys: keys.append(key_name)`
abbrev with_key : Text → List Text → List Text
with_key k keys = if elem k keys then keys else keys ++ k ∷ []

-- `[k for k in keys if canonical(k) != canonical(keyname)]`
abbrev without_key : Text → List Text → List Text
without_key k keys = filter (λ x. not (canonical x ≟ canonical k)) keys

abbrev is_global : List Text → Text → Bool
is_global names k = elem (canonical k) (map canonical names)

abbrev bad_name : {S : Type 0} → Text → Text → Exec (World S) Response
bad_name zone name = do
  complain (cat (codes "'" ∷ name ∷ codes "' is not a valid key name" ∷ []))
  pure (edit_page zone)

-- `parse_update_cidrs`: `network` is str(ip_network(tok, strict=False)), none for a ValueError. The
-- first bad token is raised.
unfoldable pub parse_networks : (Text → Option Text) → List Text → List Text → Result (List Text)
parse_networks network [] out = ok out
parse_networks network (t ∷ ts) out = elim (network t) [
  | none ↦ err (value_error t)
  | some n ↦ parse_networks network ts (if elem n out then out else out ++ n ∷ [])
]

unfoldable pub parse_update_cidrs : (Text → Option Text) → Text → Result (List Text)
parse_update_cidrs network text =
    parse_networks network (split_words (replace_char b',' (codes " ") text)) []

module _ {S : Type 0} (api : Api S) (env : Env) where
  abbrev drop_unused : Text → Exec (World S) (Unit {0})
  drop_unused k = do
    used ← on_server (tsig_key_in_use api k none)
    if used then pure tt else on_server (delete_tsig_key api k)

  unfoldable pub zone_key_add : Text → User → Text → Text → Text → Text → Exec (World S) Response
  zone_key_add zone user action name algorithm secret =
      let k = key_name name in
      if not (valid_key_name k) then bad_name zone name else (do
        or_flash (do
          on_server (create_tsig_key api k algorithm (imported action secret))
          keys ← on_server (zone_tsig_keys api zone)
          on_server (set_zone_tsig_keys api zone (with_key k keys))
          log_zone user zone
              (cat (codes "Add transfer key " ∷ k ∷ codes " (" ∷ action ∷ codes ")" ∷ []))
          say (cat (codes "Transfer key " ∷ k ∷ codes " added" ∷ [])))
        pure (edit_page zone))

  unfoldable pub zone_key_delete : Text → User → Text → Exec (World S) Response
  zone_key_delete zone user keyname =
      if not (is_empty env.settings.tsig_key) && canonical keyname ≟ canonical env.settings.tsig_key
      then (do complain (codes "Cannot remove the master's primary key"); pure (edit_page zone))
      else (do
        or_flash (do
          keys ← on_server (zone_tsig_keys api zone)
          on_server (set_zone_tsig_keys api zone (without_key keyname keys))
          drop_unused keyname
          log_zone user zone (cat (codes "Remove transfer key " ∷ keyname ∷ []))
          say (cat (codes "Transfer key " ∷ keyname ∷ codes " removed" ∷ [])))
        pure (edit_page zone))

  unfoldable pub zone_update_key_add :
      Text → User → Text → Text → Text → Text → Exec (World S) Response
  zone_update_key_add zone user action name algorithm secret =
      let k = key_name name in
      if not (valid_key_name k) then bad_name zone name else (do
        or_flash (do
          on_server (create_tsig_key api k algorithm (imported action secret))
          keys ← on_server (get_zone_update_keys api zone)
          on_server (set_zone_update_keys api zone (with_key k keys))
          log_zone user zone
              (cat (codes "Add dynamic-update key " ∷ k ∷ codes " (" ∷ action ∷ codes ")" ∷ []))
          say (cat (codes "Dynamic-update key " ∷ k ∷ codes " added" ∷ [])))
        pure (edit_page zone))

  unfoldable pub zone_update_key_delete : Text → User → Text → Exec (World S) Response
  zone_update_key_delete zone user keyname = do
    or_flash (do
      keys ← on_server (get_zone_update_keys api zone)
      on_server (set_zone_update_keys api zone (without_key keyname keys))
      if is_global env.settings.tsig_key_names keyname then pure tt else drop_unused keyname
      log_zone user zone (cat (codes "Remove dynamic-update key " ∷ keyname ∷ []))
      say (cat (codes "Dynamic-update key " ∷ keyname ∷ codes " removed" ∷ [])))
    pure (edit_page zone)

  -- What the allow-list amounts to: with addresses but no key, updates stay off.
  unfoldable pub report_ips : Text → List Text → Exec (World S) (Unit {0})
  report_ips zone [] =
      say (codes "IP allow-list cleared — updates allowed from any source (TSIG still required)")
  report_ips zone (c ∷ cs) = do
    keys ← on_server (get_zone_update_keys api zone)
    if leb 1 (length keys)
        then say (codes "Dynamic-update IP allow-list saved")
        else complain (
            codes
              "IP allow-list noted, but updates stay OFF until you add an update key — dynamic updates always require TSIG.")

  abbrev save_ips : Text → User → Result (List Text) → Exec (World S) (Unit {0})
  save_ips zone user (ok parsed) = or_flash (do
    on_server (set_zone_update_ips api zone parsed)
    log_zone user zone (
        cat (
          codes "Set dynamic-update IP allow-list ("
          ∷ show (length parsed)
          ∷ codes " ranges)"
          ∷ []))
    report_ips zone parsed)
  save_ips zone user (err (value_error bad)) =
      complain (cat (codes "'" ∷ bad ∷ codes "' is not a valid IP or CIDR range" ∷ []))
  save_ips zone user (err e) = raise e

  unfoldable pub zone_update_ips :
      (Text → Option Text) → Text → User → Text → Exec (World S) Response
  zone_update_ips network zone user cidrs = do
    save_ips zone user (parse_update_cidrs network cidrs)
    pure (edit_page zone)
