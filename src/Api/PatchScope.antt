-- ===== src/Api/PatchScope.antt =====
-- What an acme.sh token can change: TXT rrsets inside a zone that its user may work on.
use mojodns.Prelude.{
  Bool, true, false, List, [], ◌∷◌, All, ≟_iff, Exec, Result, ok, err, crash, http_error,
  pdns_error, value_error, continue, if◌then◌else◌, ◌≡◌, ◌⊎◌, inl, inr, refl, arith, catch_pdns,
  then_final, ap, ◌∙◌, ◌>>◌, pure,
}
use mojodns.Text.{Text, codes, upper, ends_with}
use mojodns.Pdns.{canonical}
use mojodns.Pdns.Types.{Change, Api, Request, Body}
use mojodns.Pdns.Client.{req, outcome}
use mojodns.Pdns.Zones.{patch_rrsets}
use mojodns.Http.{no_content}
use mojodns.Db.{User, World, on_server, log_history}
use mojodns.Access.{can_access_zone}
use mojodns.Api.Compat.{
  relay, or_empty, guard, check_rrset, check_rrsets, log_rrsets, after_checks, patch_checked,
  patch_some, zone_patch,
}

-- A change of a TXT rrset at or below the zone.
abbrev pub InScope : Text → Change → Type 0
InScope czone rr =
    (upper (or_empty rr.rtype) ≡ codes "TXT")
    × ((upper (or_empty rr.changetype) ≡ codes "REPLACE")
        ⊎ (upper (or_empty rr.changetype) ≡ codes "DELETE"))
    × ((canonical (or_empty rr.name) ≡ czone)
        ⊎ (ends_with (b'.' ∷ czone) (canonical (or_empty rr.name)) ≡ true))

check_rrset-InScope : (czone : Text) (rr : Change) → check_rrset czone rr ≡ ok tt → InScope czone rr
unfolding check_rrset
check_rrset-InScope czone rr h =
    let name = canonical (or_empty rr.name) in
    let rtype = upper (or_empty rr.rtype) in
    let change = upper (or_empty rr.changetype) in
    ground (
      arith,
      ≟_iff rtype (codes "TXT"),
      ≟_iff change (codes "REPLACE"),
      ≟_iff change (codes "DELETE"),
      ≟_iff name czone,
    )

module _ {S : Type 0} where
  check_rrsets-world :
      (czone : Text) (rrs : List Change) (w : World S) → (check_rrsets czone rrs w).1 ≡ w
  unfolding check_rrsets
  check_rrsets-world czone [] w = refl
  check_rrsets-world czone (rr ∷ rrs) w = ground (arith, check_rrsets-world czone rrs w)

  check_rrsets-InScope :
      (czone : Text) (rrs : List Change) (w : World S)
      → (check_rrsets czone rrs w).0 ≡ ok tt
      → All (InScope czone) rrs
  unfolding check_rrsets
  check_rrsets-InScope czone [] w h = tt
  check_rrsets-InScope czone (rr ∷ rrs) w h =
      go (check_rrset czone rr) refl (check_rrsets-InScope czone rrs w) h
    where
      go :
          (r : Result (Unit {0}))
          → check_rrset czone rr ≡ r
          → ((check_rrsets czone rrs w).0 ≡ ok tt → All (InScope czone) rrs)
          → (continue r (λ _. check_rrsets czone rrs) w).0 ≡ ok tt
          → All (InScope czone) (rr ∷ rrs)
      go (ok a) e rest k = (check_rrset-InScope czone rr e, rest k)
      go (err x) e rest k = cc

  log_rrsets-server :
      (user : User) (czone : Text) (rrs : List Change) (w : World S)
      → (log_rrsets user czone rrs w).1.server ≡ w.server
  unfolding log_rrsets log_history
  log_rrsets-server user czone [] w = refl
  log_rrsets-server user czone (rr ∷ rrs) w = log_rrsets-server user czone rrs _

-- Returning a value at the end keeps the state.
answered :
    {S A : Type 0} (m : Exec (World S) (Unit {0})) (a : A) (w : World S)
    → ((m >> pure a) w).1 ≡ (m w).1
answered {S} {A} m a w = go (m w).0
  where
    go : (r : Result (Unit {0})) → (continue r (λ _. pure a) (m w).1).1 ≡ (m w).1
    go (ok x) = refl
    go (err e) = refl

-- Turning a PdnsError into an HTTPException keeps the state.
relay_state : {S A : Type 0} (m : Exec (World S) A) (w : World S) → (relay m w).1 ≡ (m w).1
relay_state {S} {A} m w = go (m w).0
  where
    go :
        (r : Result A)
        → (catch_pdns r (λ status message. λ w. (err (http_error status message), w)) (m w).1).1
          ≡ (m w).1
    go (ok a) = refl
    go (err (http_error s d)) = refl
    go (err (pdns_error s d)) = refl
    go (err (value_error d)) = refl
    go (err crash) = refl

module _ {S : Type 0} (api : Api S) where
  -- The server after the one request that a PATCH makes.
  abbrev pub patched : Text → List Change → S → S
  patched czone rrsets s = (api (Request.patch_zone (canonical czone) rrsets) s).1

  patch_rrsets_server :
      (czone : Text) (rrs : List Change) (s : S)
      → (patch_rrsets api czone rrs s).1 ≡ patched czone rrs s
  unfolding patch_rrsets req
  patch_rrsets_server czone rrs s =
      go (outcome (api (Request.patch_zone (canonical czone) rrs) s).0)
    where
      go :
          (r : Result Body)
          → (continue r (λ _. (λ t. (ok tt, t))) (patched czone rrs s)).1 ≡ patched czone rrs s
      go (ok b) = refl
      go (err e) = refl

  -- Once the checks are behind, the request is made, and nothing else reaches the server.
  relayed :
      (user : User) (czone : Text) (rrs : List Change) (w : World S)
      → (after_checks api user czone rrs w).1.server ≡ patched czone rrs w.server
  unfolding after_checks
  relayed user czone rrs w =
      let m = relay (on_server (patch_rrsets api czone rrs)) in
      let sent = relay_state (on_server (patch_rrsets api czone rrs)) w in
      let at_server = patch_rrsets_server czone rrs w.server in
      elim (then_final m (λ w. (log_rrsets user czone rrs >> pure no_content) w) w) [
        | inl (p, e) ↦
            ap (λ (w : World S). w.server) e
            ∙ ap (λ (w : World S). w.server)
                (answered (log_rrsets user czone rrs) no_content (m w).1)
            ∙ log_rrsets-server user czone rrs (m w).1
            ∙ ap (λ (w : World S). w.server) sent
            ∙ at_server
        | inr e ↦ ap (λ (w : World S). w.server) e ∙ ap (λ (w : World S). w.server) sent ∙ at_server
      ]

  -- The two ends of a PATCH: the server is as it was, or it has been sent exactly the rrsets of the
  -- request, all of them TXT rrsets at or below a zone that the user may work on.
  abbrev pub Confined : User → Text → List Change → World S → World S → Type 0
  Confined user czone rrsets w after =
      (after.server ≡ w.server)
      ⊎ ((can_access_zone w.db user czone ≡ true)
          × All (InScope czone) rrsets
          × (after.server ≡ patched czone rrsets w.server))

  checked :
      (user : User) (czone : Text) (rrs : List Change) (w : World S)
      → can_access_zone w.db user czone ≡ true
      → Confined user czone rrs w (patch_checked api user czone rrs w).1
  unfolding patch_checked
  checked user czone rrs w access =
      go (check_rrsets czone rrs w).0 (check_rrsets czone rrs w).1 refl
        (check_rrsets-world czone rrs w)
    where
      go :
          (r : Result (Unit {0})) (t : World S)
          → (check_rrsets czone rrs w).0 ≡ r
          → t ≡ w
          → Confined user czone rrs w (continue r (λ _. after_checks api user czone rrs) t).1
      go (ok a) t e k = inr (
        access,
        check_rrsets-InScope czone rrs w e,
        relayed user czone rrs t ∙ ap (λ (v : World S). patched czone rrs v.server) k,
      )
      go (err x) t e k = inl (ap (λ (v : World S). v.server) k)

  -- Whatever a PATCH asks for, and whatever the server answers: the server is left alone, or it is
  -- sent once exactly the rrsets of the request, each a REPLACE or DELETE of a TXT rrset whose name is
  -- the zone's or ends in a dot and the zone's, for a zone that the token's user may work on.
  pub zone_patch-Confined :
      (user : User) (zone_id : Text) (rrsets : List Change) (w : World S)
      → Confined user (canonical zone_id) rrsets w (zone_patch api user zone_id rrsets w).1
  unfolding zone_patch guard patch_some
  zone_patch-Confined user zone_id rrsets w =
      go rrsets (can_access_zone w.db user (canonical zone_id)) refl
    where
      czone : Text
      czone = canonical zone_id

      go :
          (rrs : List Change) (b : Bool)
          → can_access_zone w.db user czone ≡ b
          → let x : Result Text × World S =
              if b then (ok czone, w) else (err (http_error 404 (codes "Not Found")), w) in
            Confined user czone rrs w (continue x.0 (λ c. patch_some api user c rrs) x.1).1
      go [] false e = inl refl
      go (rr ∷ rrs) false e = inl refl
      go [] true e = inl refl
      go (rr ∷ rrs) true e = checked user czone (rr ∷ rrs) w e
