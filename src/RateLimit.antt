-- ===== src/RateLimit.antt =====
-- app/mojodns/ratelimit.py. The clock is a parameter and counts whole seconds; a table of hits per key
-- is an association list.
pub mod Window
use mojodns.Prelude.{
  ℕ, zero, suc, ◌+◌, ◌-◌, Bool, true, false, List, [], ◌∷◌, ◌++◌, filter, length, ltb, leb, max,
  if◌then◌else◌, ◌≟◌,
}
use mojodns.Text.{Text, ℤ, pos, negsuc}

abbrev pub window : ℕ
window = 60

abbrev pub Hits : Type 0
Hits = List (Text × List ℕ)

-- `_hits.get(key, ())`
unfoldable pub hits_of : Hits → Text → List ℕ
hits_of [] key = []
hits_of (e ∷ es) key = if e.0 ≟ key then e.1 else hits_of es key

unfoldable pub set_hits : Hits → Text → List ℕ → Hits
set_hits [] key hits = (key, hits) ∷ []
set_hits (e ∷ es) key hits = if e.0 ≟ key then (key, hits) ∷ es else e ∷ set_hits es key hits

-- The hits that are not yet a window old.
unfoldable pub recent : ℕ → List ℕ → List ℕ
recent now hits = filter (λ t. ltb (now - t) window) hits

-- The seconds until the oldest hit ages out; the 0.999 that is added rounds up, and adds nothing to
-- whole seconds.
unfoldable pub retry_after : ℕ → List ℕ → ℕ
retry_after now [] = 1
retry_after now (t ∷ ts) = max 1 (window - (now - t))

unfoldable pub allow : Text → ℤ → ℕ → Hits → (Bool × ℕ) × Hits
allow key (pos zero) now table = ((true, 0), table)
allow key (negsuc n) now table = ((true, 0), table)
allow key (pos (suc limit)) now table =
    let hits = recent now (hits_of table key) in
    if leb (suc limit) (length hits)
    then ((false, retry_after now hits), set_hits table key hits)
    else ((true, 0), set_hits table key (hits ++ now ∷ []))
