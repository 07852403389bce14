-- ===== src/Versions/Order.antt =====
-- Comparisons turned round, and chains of comparisons.
use Prim.Native.String.{String}
use mathlib.Core.List.{List, [], ◌∷◌}
use hola.Prelude.{ℕ, ◌≡◌, ◌≢◌, refl, ap, ◌∙◌, arith, eq_iff}
use hola.Versions.{
  Sign, less, same, greater, flip, or_then, sign_of, compare_nums, compare_units, Identifier,
  numeric, word, compare_identifiers, compare_lists, compare_pre, compare_versions, parse,
  identifiers,
}

flip-or_then : (a b : Sign) → flip (or_then a b) ≡ or_then (flip a) (flip b)
flip-or_then less b = refl
flip-or_then same b = refl
flip-or_then greater b = refl

flip-sign_of : (a b : ℕ) → flip (sign_of a b) ≡ sign_of b a
flip-sign_of a b = ground arith

flip-compare_nums : (xs ys : List ℕ) → flip (compare_nums xs ys) ≡ compare_nums ys xs
unfolding compare_nums
flip-compare_nums [] [] = refl
flip-compare_nums (x ∷ xs) [] = ground (arith, flip-compare_nums xs [])
flip-compare_nums [] (y ∷ ys) = ground (arith, flip-compare_nums [] ys)
flip-compare_nums (x ∷ xs) (y ∷ ys) = ground (arith, flip-compare_nums xs ys)

pub flip-compare_units : (xs ys : List ℕ) → flip (compare_units xs ys) ≡ compare_units ys xs
unfolding compare_units
flip-compare_units [] [] = refl
flip-compare_units (x ∷ xs) [] = refl
flip-compare_units [] (y ∷ ys) = refl
flip-compare_units (x ∷ xs) (y ∷ ys) = ground (arith, flip-compare_units xs ys)

flip-compare_identifiers :
    (a b : Identifier) → flip (compare_identifiers a b) ≡ compare_identifiers b a
flip-compare_identifiers (numeric a) (numeric b) = flip-sign_of a b
flip-compare_identifiers (numeric a) (word b) = refl
flip-compare_identifiers (word a) (numeric b) = refl
flip-compare_identifiers (word a) (word b) = flip-compare_units a b

flip-compare_lists : (xs ys : List Identifier) → flip (compare_lists xs ys) ≡ compare_lists ys xs
unfolding compare_lists
flip-compare_lists [] [] = refl
flip-compare_lists (x ∷ xs) [] = refl
flip-compare_lists [] (y ∷ ys) = refl
flip-compare_lists (x ∷ xs) (y ∷ ys) =
    flip-or_then (compare_identifiers x y) (compare_lists xs ys)
    ∙ ap (λ s. or_then s (flip (compare_lists xs ys))) (flip-compare_identifiers x y)
    ∙ ap (or_then (compare_identifiers y x)) (flip-compare_lists xs ys)

flip-compare_pre : (a b : String) → flip (compare_pre a b) ≡ compare_pre b a
unfolding compare_pre
flip-compare_pre a b =
    ground (arith, eq_iff a b, eq_iff b a, flip-compare_lists (identifiers a) (identifiers b))

-- Comparing two versions the other way round turns the result round.
pub flip-compare_versions : (a b : String) → flip (compare_versions a b) ≡ compare_versions b a
unfolding compare_versions
flip-compare_versions a b =
    flip-or_then (compare_nums (parse a).nums (parse b).nums)
      (compare_pre (parse a).pre (parse b).pre)
    ∙ ap (λ s. or_then s (flip (compare_pre (parse a).pre (parse b).pre)))
        (flip-compare_nums (parse a).nums (parse b).nums)
    ∙ ap (or_then (compare_nums (parse b).nums (parse a).nums))
        (flip-compare_pre (parse a).pre (parse b).pre)

-- How two comparisons combine: the sign from the first to the third, given the two others.
abbrev Chains : Sign → Sign → Sign → Type 0
Chains same b c = c ≡ b
Chains a same c = c ≡ a
Chains less less c = c ≡ less
Chains greater greater c = c ≡ greater
Chains _ _ c = Unit

Chains-or_then :
    (a b c a' b' c' : Sign)
    → Chains a b c
    → Chains a' b' c'
    → Chains (or_then a a') (or_then b b') (or_then c c')
Chains-or_then a b c a' b' c' h k = ground arith

Chains-sign_of : (a b c : ℕ) → Chains (sign_of a b) (sign_of b c) (sign_of a c)
Chains-sign_of a b c = ground arith

Chains-compare_nums :
    (xs ys zs : List ℕ) → Chains (compare_nums xs ys) (compare_nums ys zs) (compare_nums xs zs)
unfolding compare_nums
Chains-compare_nums [] [] [] = refl
Chains-compare_nums [] [] (z ∷ zs) =
    Chains-or_then same (sign_of 0 z) (sign_of 0 z) same _ _ refl (Chains-compare_nums [] [] zs)
Chains-compare_nums [] (y ∷ ys) [] =
    Chains-or_then (sign_of 0 y) (sign_of y 0) same _ _ same (Chains-sign_of 0 y 0)
      (Chains-compare_nums [] ys [])
Chains-compare_nums [] (y ∷ ys) (z ∷ zs) =
    Chains-or_then (sign_of 0 y) (sign_of y z) (sign_of 0 z) _ _ _ (Chains-sign_of 0 y z)
      (Chains-compare_nums [] ys zs)
Chains-compare_nums (x ∷ xs) [] [] =
    Chains-or_then (sign_of x 0) same (sign_of x 0) _ same _ (Chains-sign_of x 0 0)
      (Chains-compare_nums xs [] [])
Chains-compare_nums (x ∷ xs) [] (z ∷ zs) =
    Chains-or_then (sign_of x 0) (sign_of 0 z) (sign_of x z) _ _ _ (Chains-sign_of x 0 z)
      (Chains-compare_nums xs [] zs)
Chains-compare_nums (x ∷ xs) (y ∷ ys) [] =
    Chains-or_then (sign_of x y) (sign_of y 0) (sign_of x 0) _ _ _ (Chains-sign_of x y 0)
      (Chains-compare_nums xs ys [])
Chains-compare_nums (x ∷ xs) (y ∷ ys) (z ∷ zs) =
    Chains-or_then (sign_of x y) (sign_of y z) (sign_of x z) _ _ _ (Chains-sign_of x y z)
      (Chains-compare_nums xs ys zs)

Chains-less : (s : Sign) → Chains less s less
Chains-less s = ground arith

Chains-greater : (s : Sign) → Chains s greater greater
Chains-greater s = ground arith

pub Chains-compare_units :
    (xs ys zs : List ℕ) → Chains (compare_units xs ys) (compare_units ys zs) (compare_units xs zs)
unfolding compare_units
Chains-compare_units [] [] [] = refl
Chains-compare_units [] [] (z ∷ zs) = refl
Chains-compare_units [] (y ∷ ys) [] = tt
Chains-compare_units [] (y ∷ ys) (z ∷ zs) =
    Chains-less (or_then (sign_of y z) (compare_units ys zs))
Chains-compare_units (x ∷ xs) [] [] = refl
Chains-compare_units (x ∷ xs) [] (z ∷ zs) = tt
Chains-compare_units (x ∷ xs) (y ∷ ys) [] =
    Chains-greater (or_then (sign_of x y) (compare_units xs ys))
Chains-compare_units (x ∷ xs) (y ∷ ys) (z ∷ zs) =
    Chains-or_then (sign_of x y) (sign_of y z) (sign_of x z) _ _ _ (Chains-sign_of x y z)
      (Chains-compare_units xs ys zs)

Chains-compare_identifiers :
    (a b c : Identifier)
    → Chains (compare_identifiers a b) (compare_identifiers b c) (compare_identifiers a c)
Chains-compare_identifiers (numeric a) (numeric b) (numeric c) = Chains-sign_of a b c
Chains-compare_identifiers (numeric a) (numeric b) (word c) = ground arith
Chains-compare_identifiers (numeric a) (word b) (numeric c) = tt
Chains-compare_identifiers (numeric a) (word b) (word c) = Chains-less (compare_units b c)
Chains-compare_identifiers (word a) (numeric b) (numeric c) = ground arith
Chains-compare_identifiers (word a) (numeric b) (word c) = tt
Chains-compare_identifiers (word a) (word b) (numeric c) = Chains-greater (compare_units a b)
Chains-compare_identifiers (word a) (word b) (word c) = Chains-compare_units a b c

Chains-compare_lists :
    (xs ys zs : List Identifier)
    → Chains (compare_lists xs ys) (compare_lists ys zs) (compare_lists xs zs)
unfolding compare_lists
Chains-compare_lists [] [] [] = refl
Chains-compare_lists [] [] (z ∷ zs) = refl
Chains-compare_lists [] (y ∷ ys) [] = tt
Chains-compare_lists [] (y ∷ ys) (z ∷ zs) =
    Chains-less (or_then (compare_identifiers y z) (compare_lists ys zs))
Chains-compare_lists (x ∷ xs) [] [] = refl
Chains-compare_lists (x ∷ xs) [] (z ∷ zs) = tt
Chains-compare_lists (x ∷ xs) (y ∷ ys) [] =
    Chains-greater (or_then (compare_identifiers x y) (compare_lists xs ys))
Chains-compare_lists (x ∷ xs) (y ∷ ys) (z ∷ zs) =
    Chains-or_then (compare_identifiers x y) (compare_identifiers y z) (compare_identifiers x z) _ _
      _ (Chains-compare_identifiers x y z) (Chains-compare_lists xs ys zs)

Chains-compare_pre : (a b c : String) → Chains (compare_pre a b) (compare_pre b c) (compare_pre a c)
unfolding compare_pre
Chains-compare_pre a b c = ground (
  arith,
  eq_iff a b,
  eq_iff b c,
  eq_iff a c,
  flip-compare_lists (identifiers a) (identifiers b),
  Chains-compare_lists (identifiers a) (identifiers b) (identifiers c),
)

pub Chains-compare_versions :
    (a b c : String) → Chains (compare_versions a b) (compare_versions b c) (compare_versions a c)
unfolding compare_versions
Chains-compare_versions a b c =
    Chains-or_then (compare_nums (parse a).nums (parse b).nums)
      (compare_nums (parse b).nums (parse c).nums) (compare_nums (parse a).nums (parse c).nums) _ _
      _ (Chains-compare_nums (parse a).nums (parse b).nums (parse c).nums)
      (Chains-compare_pre (parse a).pre (parse b).pre (parse c).pre)

-- Versions are ordered: if the second is not older than the first, nor the third than the second,
-- then the third is not older than the first.
compare_versions_trans :
    (a b c : String)
    → compare_versions a b ≢ greater
    → compare_versions b c ≢ greater
    → compare_versions a c ≢ greater
compare_versions_trans a b c h k = λ g. ground (arith, Chains-compare_versions a b c)
