-- ===== src/Api/Tokens/Owner.antt =====
-- Whom a token stands for.
use mojodns.Prelude.{
  ℕ, Bool, true, false, List, [], ◌∷◌, Option, none, some, filter, ◌≟◌, Result, ok, err,
  if◌then◌else◌, ◌≡◌, refl,
}
use mojodns.Text.{Text}
use mojodns.Db.{User, ApiToken, Db, user_by_id}
use mojodns.Access.{is_active}
use mojodns.Api.Tokens.{
  Lookup, found, token_expired, invalid, expired, owner_of, check_row, lookup_token,
}

-- What a result says of the tables: a user who is found owns the one token with that digest, which is
-- not expired, and is active; an expired token is one that is there and expired.
abbrev pub Justified : (Text → Text) → Db → ℕ → Text → Result Lookup → Type 0
Justified hash db now token (ok (found user)) =
    (row : ApiToken) × (filter (λ t. t.token_hash ≟ hash token) db.tokens ≡ row ∷ [])
    × (expired now row.expires_at ≡ false)
    × (user_by_id db row.user_id ≡ some user)
    × (is_active user ≡ true)
Justified hash db now token (ok token_expired) =
    (row : ApiToken) × (filter (λ t. t.token_hash ≟ hash token) db.tokens ≡ row ∷ [])
    × (expired now row.expires_at ≡ true)
Justified hash db now token (ok invalid) = Unit
Justified hash db now token (err e) = Unit

module _ (hash : Text → Text) (db : Db) (now : ℕ) (token : Text) where
  owned :
      (row : ApiToken) (owner : Option User)
      → filter (λ t. t.token_hash ≟ hash token) db.tokens ≡ row ∷ []
      → expired now row.expires_at ≡ false
      → user_by_id db row.user_id ≡ owner
      → Justified hash db now token (ok (owner_of owner))
  unfolding owner_of
  owned row none e live by = tt
  owned row (some user) e live by = active (is_active user) refl
    where
      active :
          (b : Bool)
          → is_active user ≡ b
          → Justified hash db now token (ok (if b then found user else invalid))
      active true a = (row, e, live, by, a)
      active false a = tt

  checked :
      (rows : List ApiToken)
      → filter (λ t. t.token_hash ≟ hash token) db.tokens ≡ rows
      → Justified hash db now token (check_row db now rows)
  unfolding check_row
  checked [] e = tt
  checked (row ∷ []) e = lives (expired now row.expires_at) refl
    where
      lives :
          (b : Bool)
          → expired now row.expires_at ≡ b
          → Justified hash db now token
              (if b then ok token_expired else ok (owner_of (user_by_id db row.user_id)))
      lives true x = (row, e, x)
      lives false x = owned row (user_by_id db row.user_id) e x refl
  checked (r ∷ s ∷ rows) e = tt

-- What `lookup_token` answers of a token: a user only for the one stored token of that digest, while it
-- has not expired and its owner is enabled and active; "expired" only for a stored token past its
-- date.
pub lookup_token-Justified :
    (hash : Text → Text) (db : Db) (now : ℕ) (token : Text)
    → Justified hash db now token (lookup_token hash db now token)
unfolding lookup_token
lookup_token-Justified hash db now [] = tt
lookup_token-Justified hash db now (c ∷ cs) = checked hash db now (c ∷ cs) _ refl
