-- ===== src/Access/Admit.antt =====
-- Who gets past the sign-in dependency.
use mojodns.Prelude.{
  ℕ, zero, suc, Bool, true, false, not, ◌&&◌, Option, none, some, elem, Result, ok, err,
  if◌then◌else◌, ◌≡◌, ◌⊎◌, inl, inr, refl, ◌>>◌,
}
use mojodns.Text.{Text, codes}
use mojodns.Http.{Settings}
use mojodns.Db.{User, World, user_by_id, put_session, empty_session}
use mojodns.Access.{
  is_active, needs_password_change, pwchange_exempt, admit, with_uid, current_user, redirect_to,
}

-- The account of a request, if it gets one: that of the session's id, which is not 0, active, and with
-- a password that is not to be changed, unless the page is one for changing it or signing out.
abbrev pub Admitted : {S : Type 0} → Settings → Text → World S → Result User → Type 0
Admitted st path w (ok user) =
    (uid : ℕ) × (w.session.user_id ≡ some (suc uid))
    × (user_by_id w.db (suc uid) ≡ some user)
    × (is_active user ≡ true)
    × ((needs_password_change st w.now user ≡ false) ⊎ (elem path pwchange_exempt ≡ true))
Admitted st path w (err e) = Unit

module _ {S : Type 0} (st : Settings) (path : Text) (w : World S) where
  admit-Admitted :
      (uid : ℕ) (account : Option User)
      → w.session.user_id ≡ some (suc uid)
      → user_by_id w.db (suc uid) ≡ account
      → Admitted st path w (admit st path account w).0
  unfolding admit
  admit-Admitted uid none e f = tt
  admit-Admitted uid (some user) e f =
      decide (is_active user) (needs_password_change st w.now user) (elem path pwchange_exempt) refl
        refl refl
    where
      decide :
          (active old exempt : Bool)
          → is_active user ≡ active
          → needs_password_change st w.now user ≡ old
          → elem path pwchange_exempt ≡ exempt
          → Admitted st path w
              (if not active
                then (do put_session empty_session; redirect_to (codes "/login")) w
                else if old && not exempt
                then redirect_to (codes "/account/password") w
                else (ok user, w)).0
      decide false old exempt a o x = tt
      decide true true true a o x = (uid, e, f, a, inr x)
      decide true true false a o x = tt
      decide true false x' a o x = (uid, e, f, a, inl o)

  -- A request that `current_user` lets in has the session of an enabled, active account, whose
  -- password is not due for a change, unless the path is exempt from that.
  pub current_user-Admitted : Admitted st path w (current_user st path w).0
  unfolding current_user with_uid
  current_user-Admitted = go w.session.user_id refl
    where
      go :
          (uid : Option ℕ) → w.session.user_id ≡ uid → Admitted st path w (with_uid st path uid w).0
      go none e = tt
      go (some zero) e = tt
      go (some (suc n)) e = admit-Admitted n (user_by_id w.db (suc n)) e refl
