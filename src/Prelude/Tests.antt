-- ===== src/Prelude/Tests.antt =====
-- Boolean tests on numbers and texts, the conditional, and options as TypeScript reads them.
use Prim.Native.Nat.{ℕ, ◌≤◌, ◌<◌, compare, Ordering}
use Prim.Native.String.{String}
use text.Mathlib.Text.{◌==◌ as str_eq}
use text.Mathlib.TextEquality.{eq_iff}
use mathlib.Core.Path.{◌≡◌, refl}
use mathlib.Core.Logic.{◌≢◌, ◌⊎◌, inl, inr, ◌↔◌}
use mathlib.Core.Bool.{Bool, true, false}
use mathlib.Core.Option.{Option, none, some}
use native.Mathlib.Omega.{arith}

abbrev pub ltb : ℕ → ℕ → Bool
ltb a b = elim (compare a b) [ Ordering.lt ↦ true | _ ↦ false ]

abbrev pub leb : ℕ → ℕ → Bool
leb a b = elim (compare a b) [ Ordering.gt ↦ false | _ ↦ true ]

infix 50 ◌==◌
abbrev pub ◌==◌ : ℕ → ℕ → Bool
a == b = elim (compare a b) [ Ordering.eq ↦ true | _ ↦ false ]

infix 1 if◌then◌else◌
abbrev pub if◌then◌else◌ {ℓ} : {A : Type ℓ} → Bool → A → A → A
if true then x else y = x
if false then x else y = y

pub ltb→lt : (a b : ℕ) → ltb a b ≡ true → a < b
ltb→lt a b h = ground arith

pub lt→ltb : (a b : ℕ) → a < b → ltb a b ≡ true
lt→ltb a b h = ground arith

pub leb→le : (a b : ℕ) → leb a b ≡ true → a ≤ b
leb→le a b h = ground arith

pub le→leb : (a b : ℕ) → a ≤ b → leb a b ≡ true
le→leb a b h = ground arith

pub ruleset tests = (arith, ltb→lt, lt→ltb, leb→le, le→leb)

pub Bool-cases : (b : Bool) → (b ≡ true) ⊎ (b ≡ false)
Bool-cases true = inl refl
Bool-cases false = inr refl

pub Option-cases {ℓ} : {A : Type ℓ} (o : Option A) → (o ≡ none) ⊎ ((a : A) × (o ≡ some a))
Option-cases none = inl refl
Option-cases (some a) = inr (a, refl)

pub ne_of_test : {s t : String} {b : Bool} → ((b ≡ true) ↔ (s ≡ t)) → b ≡ false → s ≢ t
ne_of_test h e p = cc (h.1 p)

-- Two texts that the test finds equal are equal.
abbrev dec_of_test : (s t : String) (b : Bool) → ((b ≡ true) ↔ (s ≡ t)) → Dec (s ≡ t)
dec_of_test s t true h = yes (h.0 refl)
dec_of_test s t false h = no (ne_of_test h refl)

unfoldable pub string_discrete : Discrete String
string_discrete s t = dec_of_test s t (str_eq s t) (eq_iff s t)

module _ {ℓ} {A : Type ℓ} where
  -- `a ?? b`, where `b` has a value for sure.
  infixr 20 ◌⁇◌
  abbrev pub ◌⁇◌ : Option A → A → A
  none ⁇ b = b
  some a ⁇ b = a

  -- `a ?? b`, where `b` may be undefined as well.
  infixr 21 ◌<|>◌
  abbrev pub ◌<|>◌ : Option A → Option A → Option A
  none <|> b = b
  some a <|> b = some a

  abbrev pub is_some : Option A → Bool
  is_some none = false
  is_some (some a) = true
