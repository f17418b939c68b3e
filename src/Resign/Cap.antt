-- ===== src/Resign/Cap.antt =====
-- How many zones one sweep bumps.
use mojodns.Prelude.{ℕ, ◌+◌, ◌≤◌, false, List, length, Result, ok, err, is_ok, ◌≡◌}
use mojodns.Text.{Text}
use mojodns.Pdns.Types.{Api}
use mojodns.Notifier.{Lookup}
use mojodns.Db.{World}
use mojodns.Resign.{cap_of, bump_serial}
use mojodns.Resign.Counts.{IsCounter}

module _ {S : Type 0} (patches : S → ℕ) where
  -- A sweep that goes on: at most `n` zones are listed, and since the count was `base` no more PATCH
  -- requests were carried out than zones are listed.
  abbrev pub Within : ℕ → ℕ → Result (List Text) × World S → Type 0
  Within n base (ok bumped, w) = (length bumped ≤ n) × (patches w.server ≤ base + length bumped)
  Within n base (err e, w) = ⊥

  -- What a sweep from a count `base` ends in: it lists the zones that it bumped, at most the cap for the
  -- signed zones, and as many PATCH requests at most were carried out; or it fails and none was.
  abbrev pub IsCapped : ℕ → Result (ℕ × List Text) × World S → Type 0
  IsCapped base (ok (signed, bumped), w) =
      (length bumped ≤ cap_of signed) × (patches w.server ≤ base + length bumped)
  IsCapped base (err e, w) = patches w.server ≡ base

module _ {S : Type 0} (api : Api S) (patches : S → ℕ) (counter : IsCounter api patches)
    (dns : Lookup) (digest : Text → ℕ) (quiet jit : ℕ) where
  -- A bump that fails has carried out no PATCH: what fails is not the NOTIFY behind it.
  abbrev pub IsClean : Type 0
  IsClean =
      (zone : Text) (w : World S)
      → is_ok (bump_serial api dns digest quiet jit zone w).0 ≡ false
      → patches (bump_serial api dns digest quiet jit zone w).1.server ≡ patches w.server
