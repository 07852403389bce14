-- ===== src/Prelude/Int.antt =====
-- Integers over the native numbers, and their order as a test.
use Prim.Native.Nat.{ℕ, suc, ◌+◌, ◌≤◌}
use mathlib.Core.Path.{◌≡◌, subst}
use mathlib.Core.Logic.{inl, inr}
use mathlib.Core.Bool.{Bool, true, false}
use native.Mathlib.Omega.{arith}
use hola.Prelude.Tests.{ltb, Bool-cases}

-- `negsuc n` is -(n + 1).
pub data ℤ : Type 0 where
  pos negsuc : ℕ → ℤ

abbrev up_part : ℤ → ℕ
up_part (pos n) = n
up_part (negsuc n) = 0

abbrev down_part : ℤ → ℕ
down_part (pos n) = 0
down_part (negsuc n) = suc n

infix 50 ◌≤ℤ◌
abbrev pub ◌≤ℤ◌ : ℤ → ℤ → Type 0
a ≤ℤ b = up_part a + down_part b ≤ up_part b + down_part a

-- `a < b`
abbrev pub less_than : ℤ → ℤ → Bool
less_than (pos a) (pos b) = ltb a b
less_than (pos a) (negsuc b) = false
less_than (negsuc a) (pos b) = true
less_than (negsuc a) (negsuc b) = ltb b a

pub le-of_not_less : (a b : ℤ) → less_than a b ≡ false → b ≤ℤ a
le-of_not_less (pos a) (pos b) h = ground arith
le-of_not_less (pos a) (negsuc b) h = omega arith
le-of_not_less (negsuc a) (pos b) h = ground arith
le-of_not_less (negsuc a) (negsuc b) h = ground arith

-- `Math.max(a, b)` and `Math.min(a, b)`
abbrev pub larger : ℤ → ℤ → ℤ
larger a b = elim (less_than a b) [ true ↦ b | false ↦ a ]

abbrev pub smaller : ℤ → ℤ → ℤ
smaller a b = elim (less_than b a) [ true ↦ b | false ↦ a ]

le-of_less : (a b : ℤ) → less_than a b ≡ true → a ≤ℤ b
le-of_less (pos a) (pos b) h = ground arith
le-of_less (pos a) (negsuc b) h = absurd (cc)
le-of_less (negsuc a) (pos b) h = omega arith
le-of_less (negsuc a) (negsuc b) h = ground arith

-- Whatever reaches the larger of two reaches both, and likewise below.
pub larger-bounds : (a b n : ℤ) → larger a b ≤ℤ n → (a ≤ℤ n) × (b ≤ℤ n)
larger-bounds a b n h = elim (Bool-cases (less_than a b)) [
  | inl lt ↦
      (let h' : b ≤ℤ n = subst (λ c. (elim c as (λ _. ℤ) [ true ↦ b | false ↦ a ]) ≤ℤ n) lt h in
        (omega (arith, le-of_less a b lt), omega arith))
  | inr ge ↦
      (let h' : a ≤ℤ n = subst (λ c. (elim c as (λ _. ℤ) [ true ↦ b | false ↦ a ]) ≤ℤ n) ge h in
        (omega arith, omega (arith, le-of_not_less a b ge)))
]

pub smaller-bounds : (a b n : ℤ) → n ≤ℤ smaller a b → (n ≤ℤ a) × (n ≤ℤ b)
smaller-bounds a b n h = elim (Bool-cases (less_than b a)) [
  | inl lt ↦
      (let h' : n ≤ℤ b = subst (λ c. n ≤ℤ (elim c as (λ _. ℤ) [ true ↦ b | false ↦ a ])) lt h in
        (omega (arith, le-of_less b a lt), omega arith))
  | inr ge ↦
      (let h' : n ≤ℤ a = subst (λ c. n ≤ℤ (elim c as (λ _. ℤ) [ true ↦ b | false ↦ a ])) ge h in
        (omega arith, omega (arith, le-of_not_less b a ge)))
]
