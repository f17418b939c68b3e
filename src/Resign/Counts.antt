-- ===== src/Resign/Counts.antt =====
-- How many PATCH requests a bump sends.
use mojodns.Prelude.{
  catch_pdns, pdns_error, http_error, value_error, crash, raise, if◌then◌else◌, ◌==◌, Bool-cases,
  inl, inr, ℕ, suc, ◌≤◌, Bool, true, false, List, [], ◌∷◌, Option, none, some, Result, ok, err,
  Exec, pure, continue, ◌>>=◌, ◌≡◌, refl, ◌∙◌, arith,
}
use mojodns.Text.{Text, ℤ, codes}
use mojodns.Pdns.{canonical}
use mojodns.Pdns.Types.{Request, Body, Rec, Rrset, Api}
use mojodns.Pdns.Client.{req, outcome}
use mojodns.Pdns.Zones.{
  as_zone, as_zones, list_zones, get_zone, patch_rrsets, replace_rrset, notify,
}
use mojodns.Pdns.Update.{as_metadata, get_zone_metadata, get_zone_also_notify}
use mojodns.Notifier.{Lookup, split_host_port, send_notify, notify_listed, notify_zone}
use mojodns.Db.{World, on_server}
use mojodns.Resign.{first_soa, rewrite, bump_serial}

-- An action leaves a count of the state, or adds at most one to it.
abbrev pub Keeps : {S A : Type 0} → (S → ℕ) → Exec S A → Type 0
Keeps {S} count m = (s : S) → count (m s).1 ≡ count s

abbrev pub AddsOne : {S A : Type 0} → (S → ℕ) → Exec S A → Type 0
AddsOne {S} count m = (s : S) → count (m s).1 ≤ suc (count s)

module _ {S A B : Type 0} (count : S → ℕ) where
  continue-Keeps :
      (r : Result A) (f : A → Exec S B) → ((a : A) → Keeps count (f a)) → Keeps count (continue r f)
  continue-Keeps (ok a) f h s = h a s
  continue-Keeps (err e) f h s = refl

  continue-AddsOne :
      (r : Result A) (f : A → Exec S B)
      → ((a : A) → AddsOne count (f a))
      → AddsOne count (continue r f)
  continue-AddsOne (ok a) f h s = h a s
  continue-AddsOne (err e) f h s = omega arith

  bind-Keeps :
      (m : Exec S A) (f : A → Exec S B)
      → Keeps count m
      → ((a : A) → Keeps count (f a))
      → Keeps count (m >>= f)
  bind-Keeps m f k h s = continue-Keeps (m s).0 f h (m s).1 ∙ k s

  -- Adding comes in the first action, or behind it.
  bind-AddsOne :
      (m : Exec S A) (f : A → Exec S B)
      → Keeps count m
      → ((a : A) → AddsOne count (f a))
      → AddsOne count (m >>= f)
  bind-AddsOne m f k h s = omega (arith, continue-AddsOne (m s).0 f h (m s).1, k s)

  AddsOne-bind :
      (m : Exec S A) (f : A → Exec S B)
      → AddsOne count m
      → ((a : A) → Keeps count (f a))
      → AddsOne count (m >>= f)
  AddsOne-bind m f k h s = omega (arith, continue-Keeps (m s).0 f h (m s).1, k s)

abbrev pub is_patch : Request → Bool
is_patch (Request.patch_zone z changes) = true
is_patch _ = false

-- A server that counts the PATCH requests that it carries out.
pub record IsCounter {S : Type 0} (api : Api S) (patches : S → ℕ) : Type 0 where
  pub counts : (r : Request) (s : S) → patches (api r s).1 ≤ suc (patches s)
  pub ignores : (r : Request) → is_patch r ≡ false → (s : S) → patches (api r s).1 ≡ patches s

module _ {S : Type 0} (patches : S → ℕ) where
  abbrev pub on_world : World S → ℕ
  on_world w = patches w.server

  on_server-Keeps : {A : Type 0} (m : Exec S A) → Keeps patches m → Keeps on_world (on_server m)
  on_server-Keeps m h w = h w.server

  as_zone-Keeps : (b : Body) → Keeps patches (as_zone b)
  as_zone-Keeps (Body.zone z) s = refl
  as_zone-Keeps Body.empty s = refl
  as_zone-Keeps (Body.zones z) s = refl
  as_zone-Keeps (Body.cryptokeys k) s = refl
  as_zone-Keeps (Body.metadata m) s = refl
  as_zone-Keeps (Body.tsigkeys k) s = refl
  as_zone-Keeps (Body.tsigkey k) s = refl

  as_zones-Keeps : (b : Body) → Keeps patches (as_zones b)
  as_zones-Keeps (Body.zones z) s = refl
  as_zones-Keeps (Body.zone z) s = refl
  as_zones-Keeps Body.empty s = refl
  as_zones-Keeps (Body.cryptokeys k) s = refl
  as_zones-Keeps (Body.metadata m) s = refl
  as_zones-Keeps (Body.tsigkeys k) s = refl
  as_zones-Keeps (Body.tsigkey k) s = refl

  as_metadata-Keeps : (b : Body) → Keeps patches (as_metadata b)
  as_metadata-Keeps (Body.metadata m) s = refl
  as_metadata-Keeps (Body.zone z) s = refl
  as_metadata-Keeps (Body.zones z) s = refl
  as_metadata-Keeps Body.empty s = refl
  as_metadata-Keeps (Body.cryptokeys k) s = refl
  as_metadata-Keeps (Body.tsigkeys k) s = refl
  as_metadata-Keeps (Body.tsigkey k) s = refl

  missing-Keeps :
      (r : Result (List Text))
      → Keeps patches (
          catch_pdns r (λ status message.
            if status == 404 then pure [] else raise (pdns_error status message)))
  missing-Keeps (ok a) s = refl
  missing-Keeps (err (pdns_error status message)) s = elim (Bool-cases (status == 404)) [
    | inl e ↦ rw e refl
    | inr e ↦ rw e refl
  ]
  missing-Keeps (err (http_error status detail)) s = refl
  missing-Keeps (err (value_error token)) s = refl
  missing-Keeps (err crash) s = refl

  send_notify-Keeps :
      (dns : Lookup) (zone : Text) (ts : List Text) → Keeps on_world (send_notify dns zone ts)
  unfolding send_notify
  send_notify-Keeps dns zone [] w = refl
  send_notify-Keeps dns zone (t ∷ ts) w =
      continue-Keeps on_world (split_host_port t) _ (λ hp v. send_notify-Keeps dns zone ts _) w

  module _ (api : Api S) (counter : IsCounter api patches) where
    asks-Keeps :
        {A : Type 0} (r : Request) (f : Body → Exec S A)
        → is_patch r ≡ false
        → ((b : Body) → Keeps patches (f b))
        → Keeps patches (req api r >>= f)
    unfolding req
    asks-Keeps r f p h s =
        continue-Keeps patches (outcome (api r s).0) f h (api r s).1 ∙ counter.ignores r p s

    pub list_zones-Keeps : Keeps patches (list_zones api)
    unfolding list_zones
    list_zones-Keeps = asks-Keeps Request.list_zones as_zones refl as_zones-Keeps

    pub get_zone-Keeps : (zone : Text) → Keeps patches (get_zone api zone)
    unfolding get_zone
    get_zone-Keeps zone = asks-Keeps (Request.get_zone (canonical zone)) as_zone refl as_zone-Keeps

    get_zone_also_notify-Keeps : (zone : Text) → Keeps patches (get_zone_also_notify api zone)
    unfolding get_zone_also_notify get_zone_metadata
    get_zone_also_notify-Keeps zone s =
        let m =
          req api (Request.get_metadata (canonical zone) (codes "ALSO-NOTIFY")) >>= as_metadata in
        missing-Keeps (m s).0 (m s).1
        ∙ asks-Keeps (Request.get_metadata (canonical zone) (codes "ALSO-NOTIFY")) as_metadata refl
            as_metadata-Keeps s

    notify-Keeps : (zone : Text) → Keeps patches (notify api zone)
    unfolding notify
    notify-Keeps zone =
        asks-Keeps (Request.put_notify (canonical zone)) (λ b. pure tt) refl (λ b s. refl)

    replace_rrset-AddsOne :
        (zone name rtype : Text) (ttl : ℤ) (rs : List Rec)
        → AddsOne patches (replace_rrset api zone name rtype ttl rs)
    unfolding replace_rrset patch_rrsets req
    replace_rrset-AddsOne zone name rtype ttl rs =
        AddsOne-bind patches (req api (Request.patch_zone (canonical zone) _)) (λ b. pure tt)
          (counter.counts (Request.patch_zone (canonical zone) _)) (λ b s. refl)

    module _ (dns : Lookup) where
      notify_listed-Keeps :
          (zone : Text) (ts : List Text) → Keeps on_world (notify_listed dns api zone ts)
      notify_listed-Keeps zone [] w = notify-Keeps zone w.server
      notify_listed-Keeps zone (t ∷ ts) w = send_notify-Keeps dns zone (t ∷ ts) w

      notify_zone-Keeps : (zone : Text) → Keeps on_world (notify_zone dns api zone)
      unfolding notify_zone
      notify_zone-Keeps zone =
          bind-Keeps on_world (on_server (get_zone_also_notify api zone))
            (notify_listed dns api zone) (λ w. get_zone_also_notify-Keeps zone w.server)
            (notify_listed-Keeps zone)

      rewrite-AddsOne :
          (zone : Text) (found : Option (Rrset × Rec)) (digest : Text → ℕ) (quiet jit : ℕ)
          → AddsOne on_world (rewrite api dns digest quiet jit zone found)
      rewrite-AddsOne zone none digest quiet jit w = omega arith
      rewrite-AddsOne zone (some (rr, r)) digest quiet jit w =
          replace_rrset-AddsOne zone zone (codes "SOA") rr.ttl _ w.server

      -- A bump sends at most one PATCH.
      pub bump_serial-AddsOne :
          (digest : Text → ℕ) (quiet jit : ℕ) (zone : Text)
          → AddsOne on_world (bump_serial api dns digest quiet jit zone)
      unfolding bump_serial
      bump_serial-AddsOne digest quiet jit zone =
          bind-AddsOne on_world (on_server (get_zone api zone)) _
            (λ w. get_zone-Keeps zone w.server)
            (λ zdata.
              AddsOne-bind on_world (rewrite api dns digest quiet jit zone (first_soa zdata.rrsets))
                _ (rewrite-AddsOne zone (first_soa zdata.rrsets) digest quiet jit)
                (λ u. notify_zone-Keeps zone))
