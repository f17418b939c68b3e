-- ===== src/Prelude/Actions.antt =====
-- Python's exceptions and mutable state: an action reads and writes a state and ends in a value or a
-- raised error. What was written before a raise stays written.
use Prim.Native.Nat.{ℕ}
use mathlib.Core.Bool.{Bool, true, false}
use mathlib.Core.List.{List}
use mathlib.Core.Logic.{◌⊎◌, inl, inr}
use mathlib.Core.Path.{◌≡◌, refl}

-- `http_error status detail` is FastAPI's HTTPException (the detail of a redirect is its Location),
-- `pdns_error status message` is PdnsError, `value_error token` is ValueError, `crash` is any other exception.
pub data Error : Type 0 where
  http_error : ℕ → List ℕ → Error
  pdns_error : ℕ → List ℕ → Error
  value_error : List ℕ → Error
  crash : Error

pub data Result {ℓ} (A : Type ℓ) : Type ℓ where
  ok : A → Result A
  err : Error → Result A

abbrev pub Exec {ℓ} : Type ℓ → Type ℓ → Type ℓ
Exec S A = S → Result A × S

module _ {ℓ} {S A : Type ℓ} where
  abbrev pub pure : A → Exec S A
  pure a s = (ok a, s)

  abbrev pub raise : Error → Exec S A
  raise e s = (err e, s)

module _ {ℓ} {S A B : Type ℓ} where
  abbrev pub continue : Result A → (A → Exec S B) → Exec S B
  continue (ok a) f s = f a s
  continue (err e) f s = (err e, s)

  infixl 5 ◌>>=◌ ◌>>◌
  abbrev pub ◌>>=◌ : Exec S A → (A → Exec S B) → Exec S B
  ◌>>=◌ m f s = let (r, s') = m s in continue r f s'

  abbrev pub ◌>>◌ : Exec S A → Exec S B → Exec S B
  m >> n = m >>= λ _. n

module _ {ℓ} {S A : Type ℓ} where
  abbrev pub catch_pdns : Result A → (ℕ → List ℕ → Exec S A) → Exec S A
  catch_pdns (err (pdns_error status message)) handler s = handler status message s
  catch_pdns (err (http_error status detail)) handler s = (err (http_error status detail), s)
  catch_pdns (err (value_error token)) handler s = (err (value_error token), s)
  catch_pdns (err crash) handler s = (err crash, s)
  catch_pdns (ok a) handler s = (ok a, s)

  -- `try: m` with `except PdnsError as e: handler`
  abbrev pub try_pdns : Exec S A → (ℕ → List ℕ → Exec S A) → Exec S A
  try_pdns m handler s = let (r, s') = m s in catch_pdns r handler s'

abbrev pub is_ok {ℓ} : {A : Type ℓ} → Result A → Bool
is_ok (ok a) = true
is_ok (err e) = false

-- A sequence of two actions that returns has run both; one whose first action raises stops there.
module _ {S A : Type 0} (m : Exec S (Unit {0})) (n : Exec S A) (s : S) where
  pub then_ok :
      is_ok ((m >> n) s).0 ≡ true
      → (is_ok (m s).0 ≡ true) × (is_ok (n (m s).1).0 ≡ true) × (((m >> n) s).1 ≡ (n (m s).1).1)
  then_ok = go (m s).0
    where
      go :
          (r : Result (Unit {0}))
          → is_ok (continue r (λ _. n) (m s).1).0 ≡ true
          → (is_ok r ≡ true)
            × (is_ok (n (m s).1).0 ≡ true)
            × ((continue r (λ _. n) (m s).1).1 ≡ (n (m s).1).1)
      go (ok a) h = (refl, h, refl)
      go (err e) h = cc

  pub then_final :
      ((is_ok (m s).0 ≡ true) × (((m >> n) s).1 ≡ (n (m s).1).1)) ⊎ (((m >> n) s).1 ≡ (m s).1)
  then_final = go (m s).0
    where
      go :
          (r : Result (Unit {0}))
          → ((is_ok r ≡ true) × ((continue r (λ _. n) (m s).1).1 ≡ (n (m s).1).1))
            ⊎ ((continue r (λ _. n) (m s).1).1 ≡ (m s).1)
      go (ok a) = inl (refl, refl)
      go (err e) = inr refl

  pub then_runs : is_ok (m s).0 ≡ true → (m >> n) s ≡ n (m s).1
  then_runs = go (m s).0
    where
      go : (r : Result (Unit {0})) → is_ok r ≡ true → continue r (λ _. n) (m s).1 ≡ n (m s).1
      go (ok a) h = refl
      go (err e) h = cc
