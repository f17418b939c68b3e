-- ===== src/Accounts/SignIn.antt =====
-- Who a session can belong to after a sign-in.
use mojodns.Prelude.{
  ℕ, Bool, true, false, ◌&&◌, List, [], ◌∷◌, ◌++◌, none, some, filter, ◌≟◌, continue, if◌then◌else◌,
  ◌≡◌, ◌⊎◌, inl, inr, refl,
}
use mojodns.Text.{Text, codes}
use mojodns.Http.{Settings}
use mojodns.Db.{User, World, log_history, flash}
use mojodns.Access.{is_active}
use mojodns.RateLimit.{Hits, allow}
use mojodns.Accounts.{
  Security, sign_in, authenticate, login, accepted, one_or_none, hash_of, throttled,
}

-- The account that a session is for after a login with `user` and `password`: the one it was for, or
-- an active account of that name whose password verifies.
abbrev pub SignedIn : {S : Type 0} → Security → Text → Text → World S → World S → Type 0
SignedIn sec user password w after =
    (after.session.user_id ≡ w.session.user_id)
    ⊎ ((account : User) × (filter (λ u. u.login ≟ user) w.db.users ≡ account ∷ [])
        × (is_active account ≡ true)
        × (sec.verify password account.password_hash ≡ true)
        × (after.session.user_id ≡ some account.id))

module _ {S : Type 0} (sec : Security) (st : Settings) where
  decided :
      (user password : Text) (w : World S) (account : User) (active valid : Bool)
      → filter (λ u. u.login ≟ user) w.db.users ≡ account ∷ []
      → is_active account ≡ active
      → sec.verify password account.password_hash ≡ valid
      → SignedIn sec user password w
          (sign_in sec st password (if active && valid then some account else none) w).1
  unfolding sign_in log_history flash
  decided user password w account true true e a v = inr (account, e, a, v, refl)
  decided user password w account true false e a v = inl refl
  decided user password w account false v' e a v = inl refl

  authenticate-SignedIn :
      (user password : Text) (w : World S)
      → SignedIn sec user password w (authenticate sec st user password w).1
  unfolding authenticate sign_in log_history flash
  authenticate-SignedIn user password w = go (filter (λ u. u.login ≟ user) w.db.users) refl
    where
      go :
          (rows : List User)
          → filter (λ u. u.login ≟ user) w.db.users ≡ rows
          → SignedIn sec user password w
              (continue
                (one_or_none {S = World S} rows w).0
                (λ account.
                  sign_in sec st password
                    (accepted (sec.verify password (hash_of sec.dummy account)) account))
                (one_or_none {S = World S} rows w).1).1
      go [] e = inl refl
      go (account ∷ []) e = decided user password w account _ _ e refl refl
      go (a ∷ b ∷ rest) e = inl refl

  -- Whatever is typed in, a login leaves the session with the account it was for, or gives it the one
  -- account of that name, which is enabled and active and whose password verifies.
  pub login-SignedIn :
      (clock : ℕ) (src user password : Text) (hits : Hits) (w : World S)
      → SignedIn sec user password w (login sec st clock src user password (hits, w)).1.1
  unfolding login flash
  login-SignedIn clock src user password hits w =
      let (allowed, retry) = (allow (codes "login " ++ src) st.login_rate_limit clock hits).0 in
      branch allowed retry
    where
      branch :
          (allowed : Bool) (retry : ℕ)
          → SignedIn sec user password w
              ((if allowed then authenticate sec st user password else throttled retry) w).1
      branch true retry = authenticate-SignedIn user password w
      branch false retry = inl refl
