-- ===== src/Api/Ddns/Scope.antt =====
-- Which zone a dynamic DNS request can reach.
use mojodns.Prelude.{
  Bool, true, false, List, [], ◌∷◌, Result, ok, err, continue, if◌then◌else◌, ◌>>=◌, ◌≡◌, ◌⊎◌, inl,
  inr, refl, pure,
}
use mojodns.Text.{Text, rstrip_char, split, join}
use mojodns.Pdns.{canonical}
use mojodns.Pdns.Types.{Api}
use mojodns.Pdns.Zones.{zone_exists}
use mojodns.Db.{User, World, on_server}
use mojodns.Access.{can_access_zone}
use mojodns.Api.Ddns.{find_suffix, find_zone}

-- One of the ends of a list of labels, as a zone name.
abbrev pub Suffix : List Text → Text → Type 0
Suffix [] zone = ⊥
Suffix (l ∷ ls) zone = (zone ≡ canonical (join (b'.' ∷ []) (l ∷ ls))) ⊎ Suffix ls zone

-- The zone of a result, if there is one: a name that ends the labels, and that the user may work on.
abbrev pub Covers : {S : Type 0} → User → List Text → World S → Result Text → Type 0
Covers user labels w (ok zone) = Suffix labels zone × (can_access_zone w.db user zone ≡ true)
Covers user labels w (err e) = Unit

wider :
    {S : Type 0} (user : User) (l : Text) (ls : List Text) (w : World S) (r : Result Text)
    → Covers user ls w r
    → Covers user (l ∷ ls) w r
wider user l ls w (ok zone) (h, k) = (inr h, k)
wider user l ls w (err e) h = tt

module _ {S : Type 0} (api : Api S) (user : User) (fqdn : Text) where
  find_suffix-Covers :
      (labels : List Text) (w : World S)
      → Covers user labels w (find_suffix api user fqdn labels w).0
  unfolding find_suffix
  find_suffix-Covers [] w = tt
  find_suffix-Covers (l ∷ ls) w =
      step (can_access_zone w.db user candidate) refl (λ v. find_suffix-Covers ls v)
    where
      candidate : Text
      candidate = canonical (join (b'.' ∷ []) (l ∷ ls))

      asked :
          (r : Result Bool) (v : World S)
          → can_access_zone v.db user candidate ≡ true
          → ((u : World S) → Covers user ls u (find_suffix api user fqdn ls u).0)
          → Covers user
              (l ∷ ls)
              v
              (continue r
                (λ there. if there then pure candidate else find_suffix api user fqdn ls)
                v).0
      asked (ok true) v e rest = (inl refl, e)
      asked (ok false) v e rest = wider user l ls v _ (rest v)
      asked (err x) v e rest = tt

      step :
          (b : Bool)
          → can_access_zone w.db user candidate ≡ b
          → ((u : World S) → Covers user ls u (find_suffix api user fqdn ls u).0)
          → Covers user
              (l ∷ ls)
              w
              (if b
                then (do
                  there ← on_server (zone_exists api candidate)
                  if there then pure candidate else find_suffix api user fqdn ls)
                    w
                else find_suffix api user fqdn ls w).0
      step true e rest =
          let (r, s') = zone_exists api candidate w.server in
          asked r (record w { server = s' }) e rest
      step false e rest = wider user l ls w _ (rest w)

  -- Whatever the server answers, the zone that `_find_zone` returns is named by the last labels of the
  -- name, and is one that the user may work on.
  pub find_zone-Covers :
      (w : World S)
      → Covers user (split b'.' (rstrip_char b'.' fqdn)) w (find_zone api user fqdn w).0
  unfolding find_zone
  find_zone-Covers w = find_suffix-Covers (split b'.' (rstrip_char b'.' fqdn)) w
