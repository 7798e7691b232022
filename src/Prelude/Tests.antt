-- ===== src/Prelude/Tests.antt =====
-- Boolean tests on the native numbers, decidable equality as an instance, and case lemmas.
use Prim.Native.Nat.{ℕ, ◌≤◌, ◌<◌, compare, Ordering}
use Prim.Native.String.{String}
use mathlib.Core.Path.{◌≡◌, refl}
use mathlib.Core.Logic.{◌↔◌, ◌⊎◌, inl, inr, ite}
use mathlib.Core.Bool.{Bool, true, false}
use mathlib.Core.Option.{Option, none, some}
use native.Mathlib.Decide.{ℕ_discrete}
use native.Mathlib.Omega.{arith}
use text.Mathlib.Text.{◌==◌ as str_eq}
use text.Mathlib.TextEquality.{eq_iff}

abbrev pub ltb : ℕ → ℕ → Bool
ltb a b = elim (compare a b) [ Ordering.lt ↦ true | _ ↦ false ]

abbrev pub leb : ℕ → ℕ → Bool
leb a b = elim (compare a b) [ Ordering.gt ↦ false | _ ↦ true ]

infix 50 ◌==◌
abbrev pub ◌==◌ : ℕ → ℕ → Bool
a == b = elim (compare a b) [ Ordering.eq ↦ true | _ ↦ false ]

infix 1 if◌then◌else◌
abbrev pub if◌then◌else◌ {ℓ} : {A : Type ℓ} → Bool → A → A → A
if true then x else y = x
if false then x else y = y

pub ltb→lt : (a b : ℕ) → ltb a b ≡ true → a < b
ltb→lt a b h = ground arith

pub lt→ltb : (a b : ℕ) → a < b → ltb a b ≡ true
lt→ltb a b h = ground arith

pub leb→le : (a b : ℕ) → leb a b ≡ true → a ≤ b
leb→le a b h = ground arith

pub le→leb : (a b : ℕ) → a ≤ b → leb a b ≡ true
le→leb a b h = ground arith

pub ==_iff : (a b : ℕ) → ((a == b) ≡ true) ↔ (a ≡ b)
==_iff a b = ground arith

pub Bool-cases : (b : Bool) → (b ≡ true) ⊎ (b ≡ false)
Bool-cases true = inl refl
Bool-cases false = inr refl

pub Option-cases {ℓ} : {A : Type ℓ} (o : Option A) → (o ≡ none) ⊎ ((a : A) × (o ≡ some a))
Option-cases none = inl refl
Option-cases (some a) = inr (a, refl)

-- Keys of a map: types whose equality is decided.
pub record DecEq {ℓ} (K : Type ℓ) : Type ℓ where
  pub same : Discrete K

abbrev pub dec_eq {ℓ} : {K : Type ℓ} ⦃e : DecEq K⦄ → Discrete K
dec_eq ⦃e⦄ = e.same

instance abbrev pub nat_dec_eq : DecEq ℕ
nat_dec_eq = record { same = ℕ_discrete }

string_decide : (a b : String) (r : Bool) → str_eq a b ≡ r → Dec (a ≡ b)
string_decide a b true e = yes ((eq_iff a b).0 e)
string_decide a b false e = no (λ p. ground (arith, eq_iff a b))

unfoldable pub string_discrete : Discrete String
unfolding string_decide
string_discrete a b = string_decide a b (str_eq a b) refl

instance abbrev pub string_dec_eq : DecEq String
string_dec_eq = record { same = string_discrete }

abbrev pub is_some {ℓ} : {A : Type ℓ} → Option A → Bool
is_some none = false
is_some (some a) = true

-- Equality of keys, as a test.
abbrev pub eqb {ℓ} : {K : Type ℓ} ⦃e : DecEq K⦄ → K → K → Bool
eqb a b = ite (dec_eq a b) true false
