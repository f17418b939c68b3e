-- ===== src/Pdns/Update/Access.antt =====
-- Who may send dynamic updates: the two lists that PowerDNS keeps for a zone, and what the panel
-- leaves in them.
use mojodns.Prelude.{
  true, false, List, [], ◌∷◌, map, ◌≡◌, ◌≢◌, refl, sym, subst, ◌∙◌, Result, is_ok, then_ok,
  then_final, then_runs, ◌⊎◌, inl, inr,
}
use mathlib.Core.List.{cons-ne-nil}
use mojodns.Text.{Text}
use mojodns.Pdns.{canonical}
use mojodns.Pdns.Types.{Api}
use mojodns.Pdns.Update.{
  tsig_allow, allow_from, set_zone_metadata, delete_zone_metadata, write_update_access, or_any,
}
use mojodns.Pdns.Update.Stores.{
  Stores, bare, tsig_allow-ne-allow_from, allow_from-ne-tsig_allow, delete_zone_metadata_lem,
  set_zone_metadata_lem, delete_zone_metadata_other, set_zone_metadata_other,
  set_zone_metadata_atomic,
}

-- The addresses that the zone is left with.
abbrev pub allowed : List Text → List Text → List Text
allowed [] cidrs = []
allowed (k ∷ ks) cidrs = or_any cidrs

module _ {S : Type 0} (api : Api S) (view : S → Text → Text → List Text)
    (laws : Stores api view) where
  -- No source address is let in without a key: there is a key, or no address.
  abbrev pub IsGated : S → Text → Type 0
  IsGated s z = (view s z tsig_allow ≢ []) ⊎ (view s z allow_from ≡ [])

  -- If `_write_update_access` returns, then the zone has exactly the keys it was given, in lower case
  -- and without their final dots, and with a key the address list it was given, or the list of all
  -- addresses for an empty one; without a key both lists are empty.
  pub write_update_access_lem :
      (s : S) (z : Text) (keys cidrs : List Text)
      → is_ok (write_update_access api z keys cidrs s).0 ≡ true
      → let after = (write_update_access api z keys cidrs s).1 in
        (view after (canonical z) tsig_allow ≡ map bare keys)
        × (view after (canonical z) allow_from ≡ allowed keys cidrs)
  unfolding write_update_access
  write_update_access_lem s z [] cidrs h =
      let m = delete_zone_metadata api z tsig_allow in
      let n = delete_zone_metadata api z allow_from in
      let (p, q, e) = then_ok m n s h in
      subst
        (λ (t : S). (view t (canonical z) tsig_allow ≡ []) × (view t (canonical z) allow_from ≡ []))
        (sym e)
        (
          delete_zone_metadata_other api view laws (m s).1 z allow_from tsig_allow
                allow_from-ne-tsig_allow
              ∙ delete_zone_metadata_lem api view laws s z tsig_allow p,
          delete_zone_metadata_lem api view laws (m s).1 z allow_from q,
        )
  write_update_access_lem s z (k ∷ ks) cidrs h =
      let names = map bare (k ∷ ks) in
      let m = set_zone_metadata api z tsig_allow names in
      let n = set_zone_metadata api z allow_from (or_any cidrs) in
      let (p, q, e) = then_ok m n s h in
      subst
        (λ (t : S).
          (view t (canonical z) tsig_allow ≡ names)
          × (view t (canonical z) allow_from ≡ or_any cidrs))
        (sym e)
        (
          set_zone_metadata_other api view laws (m s).1 z allow_from tsig_allow (or_any cidrs)
                allow_from-ne-tsig_allow
              ∙ set_zone_metadata_lem api view laws s z tsig_allow names p,
          set_zone_metadata_lem api view laws (m s).1 z allow_from (or_any cidrs) q,
        )

  -- After the key list was asked to be `names`, whether it was written or not.
  names_written :
      (s : S) (z k : Text) (ks : List Text)
      → IsGated s (canonical z)
      → IsGated (set_zone_metadata api z tsig_allow (k ∷ ks) s).1 (canonical z)
  names_written s z k ks g = elim (set_zone_metadata_atomic api view laws s z tsig_allow (k ∷ ks)) [
    | inl e ↦ inl (λ h. cons-ne-nil k ks (sym e ∙ h))
    | inr e ↦ unchanged e g
  ]
    where
      after : S
      after = (set_zone_metadata api z tsig_allow (k ∷ ks) s).1

      unchanged :
          view after (canonical z) tsig_allow ≡ view s (canonical z) tsig_allow
          → IsGated s (canonical z)
          → IsGated after (canonical z)
      unchanged e (inl keyed) = inl (λ h. keyed (sym e ∙ h))
      unchanged e (inr closed) = inr (
          set_zone_metadata_other api view laws s z tsig_allow allow_from (k ∷ ks)
            tsig_allow-ne-allow_from
          ∙ closed)

  -- A key list that is set: whatever the requests do, a key stays.
  keyed :
      (s : S) (z k : Text) (ks cidrs : List Text)
      → IsGated s (canonical z)
      → IsGated (write_update_access api z (k ∷ ks) cidrs s).1 (canonical z)
  unfolding write_update_access
  keyed s z k ks cidrs g =
      let names = map bare (k ∷ ks) in
      let m = set_zone_metadata api z tsig_allow names in
      let n = set_zone_metadata api z allow_from (or_any cidrs) in
      elim (then_final m n s) [
        | inl (p, e) ↦
            subst (λ (t : S). IsGated t (canonical z)) (sym e)
              (inl (λ h. cons-ne-nil (bare k) (map bare ks) (
                sym (set_zone_metadata_lem api view laws s z tsig_allow names p)
                ∙ sym (
                    set_zone_metadata_other api view laws (m s).1 z allow_from tsig_allow
                      (or_any cidrs) allow_from-ne-tsig_allow)
                ∙ h)))
        | inr e ↦
            subst (λ (t : S). IsGated t (canonical z)) (sym e)
              (names_written s z (bare k) (map bare ks) g)
      ]

  -- Dynamic updates stay closed to unsigned packets: if the zone had no address list without a key,
  -- then it has none after `_write_update_access` returns, and none after it was given a key, whether
  -- it returned or raised.
  pub write_update_access-IsGated :
      (s : S) (z : Text) (keys cidrs : List Text)
      → IsGated s (canonical z)
      → (keys ≢ []) ⊎ (is_ok (write_update_access api z keys cidrs s).0 ≡ true)
      → IsGated (write_update_access api z keys cidrs s).1 (canonical z)
  write_update_access-IsGated s z keys cidrs g (inr h) = returned keys h
    where
      returned :
          (keys : List Text)
          → is_ok (write_update_access api z keys cidrs s).0 ≡ true
          → IsGated (write_update_access api z keys cidrs s).1 (canonical z)
      returned [] p = inr (write_update_access_lem s z [] cidrs p).1
      returned (k ∷ ks) p = keyed s z k ks cidrs g
  write_update_access-IsGated s z [] cidrs g (inl h) = absurd (h refl)
  write_update_access-IsGated s z (k ∷ ks) cidrs g (inl h) = keyed s z k ks cidrs g

  -- The order of the two deletions matters: if the key list of a zone without keys to set is deleted
  -- and the deletion of the address list then fails, with the list left in place, the call raises
  -- and leaves the zone open to unsigned updates from those addresses.
  pub write_update_access_ungated :
      (s : S) (z : Text) (cidrs : List Text)
      → is_ok (delete_zone_metadata api z tsig_allow s).0 ≡ true
      → let t = (delete_zone_metadata api z tsig_allow s).1 in
        is_ok (delete_zone_metadata api z allow_from t).0 ≡ false
        → view (delete_zone_metadata api z allow_from t).1 (canonical z) allow_from
          ≡ view t (canonical z) allow_from
        → view s (canonical z) allow_from ≢ []
        → (is_ok (write_update_access api z [] cidrs s).0 ≡ false)
          × (view (write_update_access api z [] cidrs s).1 (canonical z) tsig_allow ≡ [])
          × (view (write_update_access api z [] cidrs s).1 (canonical z) allow_from ≢ [])
  unfolding write_update_access
  write_update_access_ungated s z cidrs p q stays full =
      let m = delete_zone_metadata api z tsig_allow in
      let n = delete_zone_metadata api z allow_from in
      let t = (m s).1 in
      subst
        (λ (r : Result (Unit {0}) × S).
          (is_ok r.0 ≡ false)
          × (view r.1 (canonical z) tsig_allow ≡ [])
          × (view r.1 (canonical z) allow_from ≢ []))
        (sym (then_runs m n s p))
        (
          q,
          delete_zone_metadata_other api view laws t z allow_from tsig_allow
                allow_from-ne-tsig_allow
              ∙ delete_zone_metadata_lem api view laws s z tsig_allow p,
          λ none_left. full (
              sym (
                delete_zone_metadata_other api view laws s z tsig_allow allow_from
                  tsig_allow-ne-allow_from)
              ∙ sym stays
              ∙ none_left),
        )
