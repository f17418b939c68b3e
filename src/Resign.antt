-- ===== src/Resign.antt =====
-- app/mojodns/resign.py, the sweep that keeps signatures fresh. The digest behind the jitter is the
-- parameter `digest`; times are seconds and not negative, and a server lists a zone once.
pub mod Cap
pub mod Counts
use mojodns.Prelude.{
  ℕ, zero, suc, ◌+◌, ◌/◌, ◌%◌, Bool, true, false, not, ◌&&◌, List, [], ◌∷◌, ◌++◌, Option, none,
  some, map, filter, find, any, leb, max, length, ◌==◌, ◌≟◌, Exec, Result, ok, err, pure, ◌>>=◌,
  ◌>>◌, if◌then◌else◌,
}
use mojodns.Text.{Text, codes}
use mojodns.Pdns.Types.{Rec, Rrset, Zone, Api}
use mojodns.Pdns.Zones.{list_zones, get_zone, replace_rrset}
use mojodns.Notifier.{Lookup, notify_zone}
use mojodns.Db.{ZoneSigning, Db, World, on_server, get_db_state, get_now, put_db}

unfoldable pub jitter_seconds : (Text → ℕ) → Text → ℕ → ℕ
jitter_seconds digest zone zero = 0
jitter_seconds digest zone (suc n) = digest zone % suc n

unfoldable pub next_due : (Text → ℕ) → ℕ → Text → ℕ → ℕ → ℕ
next_due digest now zone quiet jitter_max = now + (quiet + jitter_seconds digest zone jitter_max)

pub data Action : Type 0 where
  reset : Action
  bump : Action
  wait : Action

abbrev same_serial : Option ℕ → ℕ → Bool
same_serial none last = false
same_serial (some serial) last = serial == last

abbrev is_due : Option ℕ → ℕ → Bool
is_due none now = true
is_due (some due) now = leb due now

unfoldable pub classify : Option ℕ → Option ℕ → Option ℕ → ℕ → Action
classify serial none due_at now = reset
classify serial (some last) due_at now =
    if not (same_serial serial last) then reset else if is_due due_at now then bump else wait

-- `max(1, math.ceil(n / 40))`
unfoldable pub cap_of : ℕ → ℕ
cap_of n = max 1 ((n + 39) / 40)

-- The first SOA rrset with a record: its TTL and content.
unfoldable pub first_soa : List Rrset → Option (Rrset × Rec)
first_soa [] = none
first_soa (rr ∷ rrs) = elim rr.records [
  | [] ↦ first_soa rrs
  | r ∷ rs ↦ if rr.rtype ≟ codes "SOA" then some (rr, r) else first_soa rrs
]

-- `… or serial`
abbrev or_serial : Option ℕ → Option ℕ → Option ℕ
or_serial none serial = serial
or_serial (some zero) serial = serial
or_serial (some (suc n)) serial = some (suc n)

unfoldable pub set_row : Text → Option ℕ → ℕ → Db → Db
set_row zone serial due db = record db {
  signing =
      map (λ r. if r.zone ≟ zone then record r { last_serial = serial; due_at = some due } else r)
        db.signing;
}

unfoldable pub add_row : Text → Option ℕ → ℕ → Db → Db
add_row zone serial due db = record db {
  signing = db.signing ++ record { zone = zone; last_serial = serial; due_at = some due } ∷ [];
}

unfoldable pub forget_rows : List Zone → Db → Db
forget_rows signed db = record db {
  signing = filter (λ r. any (λ z. z.name ≟ r.zone) signed) db.signing;
}

abbrev pub settled : {A : Type 0} → Result A → Option A
settled (ok a) = some a
settled (err e) = none

-- `except Exception`: any error is caught.
abbrev pub attempt : {S A : Type 0} → Exec S A → Exec S (Option A)
attempt m s = let (r, s') = m s in (ok (settled r), s')

module _ {S : Type 0} (api : Api S) (dns : Lookup) (digest : Text → ℕ) (quiet jit : ℕ) where
  abbrev pub rewrite : Text → Option (Rrset × Rec) → Exec (World S) (Unit {0})
  rewrite zone none = pure tt
  rewrite zone (some (rr, r)) = on_server (
      replace_rrset api zone zone (codes "SOA") rr.ttl
        (record { content = r.content; disabled = false } ∷ []))

  unfoldable pub bump_serial : Text → Exec (World S) (Unit {0})
  bump_serial zone = do
    zdata ← on_server (get_zone api zone)
    rewrite zone (first_soa zdata.rrsets)
    notify_zone dns api zone

  abbrev due_after : ℕ → Text → ℕ
  due_after now name = next_due digest now name quiet jit

  -- After a bump: the serial that the server now has.
  abbrev pub restart : Text → Option ℕ → Option Zone → Exec (World S) (Unit {0})
  restart name serial none = pure tt
  restart name serial (some zdata) = do
    now ← get_now
    db ← get_db_state
    put_db (set_row name (or_serial zdata.serial serial) (due_after now name) db)

  abbrev pub after_bump :
      Text → Option ℕ → List Text → Option (Unit {0}) → Exec (World S) (List Text)
  after_bump name serial bumped none = pure bumped
  after_bump name serial bumped (some u) = do
    zdata ← attempt (on_server (get_zone api name))
    restart name serial zdata
    pure (bumped ++ name ∷ [])

  unfoldable pub act : Action → ℕ → Zone → List Text → Exec (World S) (List Text)
  act wait limit z bumped = pure bumped
  act reset limit z bumped = do
    now ← get_now
    db ← get_db_state
    put_db (set_row z.name z.serial (due_after now z.name) db)
    pure bumped
  act bump limit z bumped =
      if leb limit (length bumped)
      then pure bumped
      else (do done ← attempt (bump_serial z.name); after_bump z.name z.serial bumped done)

  -- One round of the loop over the signed zones.
  unfoldable pub sweep_row : Option ZoneSigning → ℕ → Zone → List Text → Exec (World S) (List Text)
  sweep_row none limit z bumped w =
      (do
        now ← get_now
        db ← get_db_state
        put_db (add_row z.name z.serial (due_after now z.name) db)
        pure bumped)
        w
  sweep_row (some r) limit z bumped w =
      act (classify z.serial r.last_serial r.due_at w.now) limit z bumped w

  unfoldable pub sweep : ℕ → List Zone → List Text → Exec (World S) (List Text)
  sweep limit [] bumped w = pure bumped w
  sweep limit (z ∷ zs) bumped w =
      (do
        bumped' ← sweep_row (find (λ r. r.zone ≟ z.name) w.db.signing) limit z bumped
        sweep limit zs bumped')
        w

  -- What the sweep returns: the number of signed zones, and the bumped ones.
  unfoldable pub resign_due_zones : Exec (World S) (ℕ × List Text)
  resign_due_zones = do
    zones ← on_server (list_zones api)
    let signed = filter (λ z. z.dnssec) zones
    bumped ← sweep (cap_of (length signed)) signed []
    db ← get_db_state
    put_db (forget_rows signed db)
    pure (length signed, bumped)
