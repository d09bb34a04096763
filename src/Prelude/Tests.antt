-- ===== src/Prelude/Tests.antt =====
-- Boolean tests on the native numbers, the conditional, and the splits on computed values.
use Prim.Native.Nat.{ℕ, compare, Ordering}
use mathlib.Core.Path.{◌≡◌, refl}
use mathlib.Core.Logic.{◌↔◌, ◌⊎◌, inl, inr}
use mathlib.Core.Bool.{Bool, true, false}
use mathlib.Core.Option.{Option, none, some}
use native.Mathlib.Omega.{arith}

abbrev pub ltb : ℕ → ℕ → Bool
ltb a b = elim (compare a b) [ Ordering.lt ↦ true | _ ↦ false ]

abbrev pub leb : ℕ → ℕ → Bool
leb a b = elim (compare a b) [ Ordering.gt ↦ false | _ ↦ true ]

infix 50 ◌==◌
abbrev pub ◌==◌ : ℕ → ℕ → Bool
a == b = elim (compare a b) [ Ordering.eq ↦ true | _ ↦ false ]

infix 1 if◌then◌else◌
abbrev pub if◌then◌else◌ {ℓ} : {A : Type ℓ} → Bool → A → A → A
if true then x else y = x
if false then x else y = y

pub ==_iff : (a b : ℕ) → ((a == b) ≡ true) ↔ (a ≡ b)
==_iff a b = ground arith

pub Bool-cases : (b : Bool) → (b ≡ true) ⊎ (b ≡ false)
Bool-cases true = inl refl
Bool-cases false = inr refl

pub Option-cases {ℓ} : {A : Type ℓ} (o : Option A) → (o ≡ none) ⊎ ((a : A) × (o ≡ some a))
Option-cases none = inl refl
Option-cases (some a) = inr (a, refl)

pub some_injective {ℓ} : {A : Type ℓ} {a b : A} → some a ≡ some b → a ≡ b
some_injective h = cc

pub none-ne-some {ℓ} : {A : Type ℓ} {a : A} → none ≡ some a → ⊥
none-ne-some h = cc

-- A conditional whose other branch has no result.
pub if_then-some {ℓ} :
    {A : Type ℓ} (b : Bool) (o : Option A) {t : A} → (if b then o else none) ≡ some t → o ≡ some t
if_then-some true o h = h
if_then-some false o h = absurd (none-ne-some h)

pub if_else-some {ℓ} :
    {A : Type ℓ} (b : Bool) (o : Option A) {t : A} → (if b then none else o) ≡ some t → o ≡ some t
if_else-some true o h = absurd (none-ne-some h)
if_else-some false o h = h

pub if_then-true {ℓ} :
    {A : Type ℓ} (b : Bool) (o : Option A) {t : A} → (if b then o else none) ≡ some t → b ≡ true
if_then-true true o h = refl
if_then-true false o h = absurd (none-ne-some h)

pub if_else-false {ℓ} :
    {A : Type ℓ} (b : Bool) (o : Option A) {t : A} → (if b then none else o) ≡ some t → b ≡ false
if_else-false true o h = absurd (none-ne-some h)
if_else-false false o h = refl
