-- ===== src/Pdns/Update/Stores.antt =====
-- What the panel relies on in a server that keeps metadata, and what its metadata calls then do.
use mojodns.Prelude.{
  true, List, [], ◌≡◌, ◌≢◌, refl, sym, arith, Result, ok, err, pdns_error, http_error, value_error,
  crash, is_ok, ◌==◌, ◌≟◌, ≟_iff, list_beq, if◌then◌else◌, ◌⊎◌,
}
use mathlib.Core.Bool.{false≢true}
use mojodns.Text.{Text, rstrip_char, lower}
use mojodns.Pdns.{canonical}
use mojodns.Pdns.Types.{Request, Body, Api}
use mojodns.Pdns.Client.{req, outcome}
use mojodns.Pdns.Update.{tsig_allow, allow_from, set_zone_metadata, delete_zone_metadata}

-- What the panel relies on of a server: `view s z k` is the metadata list of kind `k` of zone `z`. A
-- request writes its list or leaves it, other lists stay; success says that it was written, and a 404
-- for a list to delete says that there is none.
pub record Stores {S : Type 0} (api : Api S) (view : S → Text → Text → List Text) : Type 0 where
  pub put :
      (s : S) (z k : Text) (vs : List Text) (b : Body)
      → outcome (api (Request.put_metadata z k vs) s).0 ≡ ok b
      → view (api (Request.put_metadata z k vs) s).1 z k ≡ vs
  pub put_atomic :
      (s : S) (z k : Text) (vs : List Text)
      → (view (api (Request.put_metadata z k vs) s).1 z k ≡ vs)
        ⊎ (view (api (Request.put_metadata z k vs) s).1 z k ≡ view s z k)
  pub put_other :
      (s : S) (z k j : Text) (vs : List Text)
      → k ≢ j
      → view (api (Request.put_metadata z k vs) s).1 z j ≡ view s z j
  pub delete :
      (s : S) (z k : Text) (b : Body)
      → outcome (api (Request.delete_metadata z k) s).0 ≡ ok b
      → view (api (Request.delete_metadata z k) s).1 z k ≡ []
  pub delete_absent :
      (s : S) (z k m : Text)
      → outcome (api (Request.delete_metadata z k) s).0 ≡ err (pdns_error 404 m)
      → view (api (Request.delete_metadata z k) s).1 z k ≡ []
  pub delete_other :
      (s : S) (z k j : Text) → k ≢ j → view (api (Request.delete_metadata z k) s).1 z j ≡ view s z j

pub tsig_allow-ne-allow_from : tsig_allow ≢ allow_from
unfolding ◌≟◌ list_beq
tsig_allow-ne-allow_from h =
    let same : (tsig_allow ≟ allow_from) ≡ true = (≟_iff tsig_allow allow_from).1 h in
    false≢true same

pub allow_from-ne-tsig_allow : allow_from ≢ tsig_allow
allow_from-ne-tsig_allow h = tsig_allow-ne-allow_from (sym h)

-- A key name as the server compares it.
abbrev pub bare : Text → Text
bare k = lower (rstrip_char b'.' k)

-- What the two writers make of the server's answer.
absent_ok : Result Body → Result (Unit {0})
absent_ok (ok b) = ok tt
absent_ok (err (pdns_error status m)) = if status == 404 then ok tt else err (pdns_error status m)
absent_ok (err e) = err e

done : Result Body → Result (Unit {0})
done (ok b) = ok tt
done (err e) = err e

module _ {S : Type 0} (api : Api S) (z k : Text) where
  delete_zone_metadata_eq :
      (s : S)
      → let r = api (Request.delete_metadata (canonical z) k) s in
        delete_zone_metadata api z k s ≡ (absent_ok (outcome r.0), r.1)
  unfolding delete_zone_metadata req absent_ok
  delete_zone_metadata_eq s = ground arith

  set_zone_metadata_eq :
      (s : S) (vs : List Text)
      → let r = api (Request.put_metadata (canonical z) k vs) s in
        set_zone_metadata api z k vs s ≡ (done (outcome r.0), r.1)
  unfolding set_zone_metadata req done
  set_zone_metadata_eq s vs = ground arith

module _ {S : Type 0} (api : Api S) (view : S → Text → Text → List Text)
    (laws : Stores api view) where
  pub delete_zone_metadata_lem :
      (s : S) (z k : Text)
      → is_ok (delete_zone_metadata api z k s).0 ≡ true
      → view (delete_zone_metadata api z k s).1 (canonical z) k ≡ []
  unfolding absent_ok
  delete_zone_metadata_lem s z k =
      rw (delete_zone_metadata_eq api z k s)
        (go (outcome (api (Request.delete_metadata (canonical z) k) s).0) refl)
    where
      after : S
      after = (api (Request.delete_metadata (canonical z) k) s).1

      go :
          (o : Result Body)
          → outcome (api (Request.delete_metadata (canonical z) k) s).0 ≡ o
          → is_ok (absent_ok o) ≡ true
          → view after (canonical z) k ≡ []
      go (ok b) e h = laws.delete s (canonical z) k b e
      go (err (pdns_error status m)) e h = ground (arith, laws.delete_absent s (canonical z) k m)
      go (err (http_error status m)) e h = cc
      go (err (value_error m)) e h = cc
      go (err crash) e h = cc

  pub set_zone_metadata_lem :
      (s : S) (z k : Text) (vs : List Text)
      → is_ok (set_zone_metadata api z k vs s).0 ≡ true
      → view (set_zone_metadata api z k vs s).1 (canonical z) k ≡ vs
  unfolding done
  set_zone_metadata_lem s z k vs =
      rw (set_zone_metadata_eq api z k s vs)
        (go (outcome (api (Request.put_metadata (canonical z) k vs) s).0) refl)
    where
      after : S
      after = (api (Request.put_metadata (canonical z) k vs) s).1

      go :
          (o : Result Body)
          → outcome (api (Request.put_metadata (canonical z) k vs) s).0 ≡ o
          → is_ok (done o) ≡ true
          → view after (canonical z) k ≡ vs
      go (ok b) e h = laws.put s (canonical z) k vs b e
      go (err other) e h = cc

  pub delete_zone_metadata_other :
      (s : S) (z k j : Text)
      → k ≢ j
      → view (delete_zone_metadata api z k s).1 (canonical z) j ≡ view s (canonical z) j
  delete_zone_metadata_other s z k j h =
      rw (delete_zone_metadata_eq api z k s) (laws.delete_other s (canonical z) k j h)

  pub set_zone_metadata_other :
      (s : S) (z k j : Text) (vs : List Text)
      → k ≢ j
      → view (set_zone_metadata api z k vs s).1 (canonical z) j ≡ view s (canonical z) j
  set_zone_metadata_other s z k j vs h =
      rw (set_zone_metadata_eq api z k s vs) (laws.put_other s (canonical z) k j vs h)

  pub set_zone_metadata_atomic :
      (s : S) (z k : Text) (vs : List Text)
      → (view (set_zone_metadata api z k vs s).1 (canonical z) k ≡ vs)
        ⊎ (view (set_zone_metadata api z k vs s).1 (canonical z) k ≡ view s (canonical z) k)
  set_zone_metadata_atomic s z k vs =
      rw (set_zone_metadata_eq api z k s vs) (laws.put_atomic s (canonical z) k vs)
