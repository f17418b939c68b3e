-- ===== src/Zones/Handlers.antt =====
-- What the handlers of app/mojodns/routers/zones.py share.
use mojodns.Prelude.{ℕ, List, [], some, Exec, try_pdns}
use mojodns.Text.{Text, codes, join, show_int, pos}
use mojodns.Db.{User, World, log_history, flash}

-- An f-string.
abbrev pub cat : List Text → Text
cat parts = join [] parts

abbrev pub show : ℕ → Text
show n = show_int (pos n)

module _ {S : Type 0} where
  -- `except PdnsError as e: flash(request, str(e), "error")`
  abbrev pub or_flash : Exec (World S) (Unit {0}) → Exec (World S) (Unit {0})
  or_flash m = try_pdns m λ status message. flash message (codes "error")

  abbrev pub log_zone : User → Text → Text → Exec (World S) (Unit {0})
  log_zone user zone message = log_history (some user.id) (codes "zone") (some zone) message

  abbrev pub say : Text → Exec (World S) (Unit {0})
  say message = flash message (codes "ok")

  abbrev pub complain : Text → Exec (World S) (Unit {0})
  complain message = flash message (codes "error")
