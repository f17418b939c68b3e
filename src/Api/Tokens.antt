-- ===== src/Api/Tokens.antt =====
-- app/mojodns/apitokens.py, and how the endpoints use it. The digest of a token is a parameter.
pub mod Owner
use mojodns.Prelude.{
  ℕ, ◌+◌, ◌*◌, Bool, false, List, [], ◌∷◌, Option, none, some, filter, find, ltb, ◌≟◌, Exec, Result,
  ok, err, crash, http_error, if◌then◌else◌,
}
use mojodns.Text.{Text, codes}
use mojodns.Db.{User, ApiToken, Db, World, user_by_id}
use mojodns.Access.{is_active}

-- Days for each offered interval.
abbrev pub token_intervals : List (Text × ℕ)
token_intervals =
    (codes "1 day", 1)
    ∷ (codes "1 week", 7)
    ∷ (codes "1 month", 30)
    ∷ (codes "1 year", 365)
    ∷ (codes "2 years", 730)
    ∷ (codes "3 years", 1095)
    ∷ (codes "5 years", 1825)
    ∷ []

abbrev pub default_interval : Text
default_interval = codes "1 year"

abbrev days_or_default : Option (Text × ℕ) → ℕ
days_or_default none = 365
days_or_default (some (label, days)) = days

unfoldable pub interval_days : Text → ℕ
interval_days label = days_or_default (find (λ e. e.0 ≟ label) token_intervals)

unfoldable pub interval_expiry : ℕ → Text → ℕ
interval_expiry now label = now + interval_days label * 86400

-- `exp < now`, if the token expires at all
abbrev pub expired : ℕ → Option ℕ → Bool
expired now none = false
expired now (some exp) = ltb exp now

-- (user, None), (None, "expired") or (None, "invalid")
pub data Lookup : Type 0 where
  found : User → Lookup
  token_expired : Lookup
  invalid : Lookup

-- The owner of a live token.
unfoldable pub owner_of : Option User → Lookup
owner_of none = invalid
owner_of (some user) = if is_active user then found user else invalid

unfoldable pub check_row : Db → ℕ → List ApiToken → Result Lookup
check_row db now [] = ok invalid
check_row db now (row ∷ []) =
    if expired now row.expires_at
    then ok token_expired
    else ok (owner_of (user_by_id db row.user_id))
check_row db now (r ∷ s ∷ rows) = err crash

module _ (hash_token : Text → Text) where
  unfoldable pub lookup_token : Db → ℕ → Text → Result Lookup
  lookup_token db now [] = ok invalid
  lookup_token db now (c ∷ cs) =
      check_row db now (filter (λ t. t.token_hash ≟ hash_token (c ∷ cs)) db.tokens)

-- What the endpoints make of it: the user, or a 401.
abbrev pub user_or_401 : {S : Type 0} → Result Lookup → Exec (World S) User
user_or_401 (ok (found user)) w = (ok user, w)
user_or_401 (ok token_expired) w = (err (http_error 401 (codes "token expired")), w)
user_or_401 (ok invalid) w = (err (http_error 401 (codes "invalid token")), w)
user_or_401 (err e) w = (err e, w)

-- `x_api_key or token or ""`
abbrev pub presented : Option Text → Option Text → Text
presented (some (c ∷ cs)) token = c ∷ cs
presented (some []) (some t) = t
presented (some []) none = []
presented none (some t) = t
presented none none = []

-- `token_user` of routers/api.py and `ddns_user` of routers/ddns.py
unfoldable pub token_user :
    {S : Type 0} → (Text → Text) → Option Text → Option Text → Exec (World S) User
token_user hash_token x_api_key token w =
    user_or_401 (lookup_token hash_token w.db w.now (presented x_api_key token)) w
