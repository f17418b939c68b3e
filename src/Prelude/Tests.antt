-- ===== src/Prelude/Tests.antt =====
-- Boolean tests on the native numbers, the conditional, and tests of equality.
use Prim.Native.Nat.{ℕ, ◌≤◌, ◌<◌, compare, Ordering}
use mathlib.Core.Path.{◌≡◌, refl}
use mathlib.Core.Logic.{◌↔◌, ◌⊎◌, inl, inr}
use mathlib.Core.Bool.{Bool, true, false, ◌&&◌}
use mathlib.Core.List.{List, [], ◌∷◌}
use mathlib.Core.Option.{Option, none, some}
use native.Mathlib.Omega.{arith}

abbrev pub ltb : ℕ → ℕ → Bool
ltb a b = elim (compare a b) [ Ordering.lt ↦ true | _ ↦ false ]

abbrev pub leb : ℕ → ℕ → Bool
leb a b = elim (compare a b) [ Ordering.gt ↦ false | _ ↦ true ]

infix 50 ◌==◌
abbrev pub ◌==◌ : ℕ → ℕ → Bool
a == b = elim (compare a b) [ Ordering.eq ↦ true | _ ↦ false ]

infix 1 if◌then◌else◌
abbrev pub if◌then◌else◌ {ℓ} : {A : Type ℓ} → Bool → A → A → A
if true then x else y = x
if false then x else y = y

pub ==_iff : (a b : ℕ) → ((a == b) ≡ true) ↔ (a ≡ b)
==_iff a b = ground arith

pub ltb→lt : (a b : ℕ) → ltb a b ≡ true → a < b
ltb→lt a b h = ground arith

pub leb→le : (a b : ℕ) → leb a b ≡ true → a ≤ b
leb→le a b h = ground arith

-- Lists are compared element by element.
unfoldable pub list_beq {ℓ} : {A : Type ℓ} → (A → A → Bool) → List A → List A → Bool
list_beq f [] [] = true
list_beq f [] (y ∷ ys) = false
list_beq f (x ∷ xs) [] = false
list_beq f (x ∷ xs) (y ∷ ys) = f x y && list_beq f xs ys

pub list_beq_iff {ℓ} :
    {A : Type ℓ} (f : A → A → Bool) (f_iff : (a b : A) → (f a b ≡ true) ↔ (a ≡ b)) (xs ys : List A)
    → (list_beq f xs ys ≡ true) ↔ (xs ≡ ys)
unfolding list_beq
list_beq_iff f f_iff [] [] = (λ _. refl, λ _. refl)
list_beq_iff f f_iff [] (y ∷ ys) = ground arith
list_beq_iff f f_iff (x ∷ xs) [] = ground arith
list_beq_iff f f_iff (x ∷ xs) (y ∷ ys) = ground (arith, f_iff x y, list_beq_iff f f_iff xs ys)

-- Texts, lists of code points, are compared by `≟`.
infix 50 ◌≟◌
unfoldable pub ◌≟◌ : List ℕ → List ℕ → Bool
unfolding list_beq
s ≟ t = list_beq ◌==◌ s t

pub ≟_iff : (s t : List ℕ) → ((s ≟ t) ≡ true) ↔ (s ≡ t)
unfolding ◌≟◌
≟_iff s t = list_beq_iff ◌==◌ ==_iff s t

pub ≟_refl : (s : List ℕ) → (s ≟ s) ≡ true
≟_refl s = (≟_iff s s).1 refl

abbrev pub bool_eq : Bool → Bool → Bool
bool_eq true b = b
bool_eq false true = false
bool_eq false false = true

abbrev pub option_beq {ℓ} : {A : Type ℓ} → (A → A → Bool) → Option A → Option A → Bool
option_beq f none none = true
option_beq f none (some b) = false
option_beq f (some a) none = false
option_beq f (some a) (some b) = f a b

pub Bool-cases : (b : Bool) → (b ≡ true) ⊎ (b ≡ false)
Bool-cases true = inl refl
Bool-cases false = inr refl

pub Option-cases {ℓ} : {A : Type ℓ} (o : Option A) → (o ≡ none) ⊎ ((a : A) × (o ≡ some a))
Option-cases none = inl refl
Option-cases (some a) = inr (a, refl)
