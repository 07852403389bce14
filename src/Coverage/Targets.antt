-- ===== src/Coverage/Targets.antt =====
-- Sets of targets: distinct databases, each of which some test tells of.
use hola.Prelude.{
  ◌+◌, ◌≤◌, String, ◌≡◌, refl, inl, inr, Bool, true, false, ◌||◌, Option, none, some, List, [], ◌∷◌,
  ◌++◌, length, arith, if◌then◌else◌, Bool-cases, str_eq, eq_iff, includes, All,
}
use hola.Coverage.{set_add, recognised_service, add_target}

-- Every entry of the list is one of `ys`.
abbrev Within : List String → List String → Type 0
Within xs ys = All (λ x. includes ys x ≡ true) xs

abbrev IsDistinct : List String → Type 0
IsDistinct [] = Unit
IsDistinct (x ∷ xs) = (includes xs x ≡ false) × IsDistinct xs

-- `ys` without the first `x`
abbrev drop_one : String → List String → List String
drop_one x [] = []
drop_one x (y ∷ ys) = if str_eq y x then ys else y ∷ drop_one x ys

length-drop_one :
    (x : String) (ys : List String) → includes ys x ≡ true → length (drop_one x ys) + 1 ≡ length ys
length-drop_one x [] h = cc
length-drop_one x (y ∷ ys) h = ground (arith, length-drop_one x ys)

includes-drop_one :
    (x z : String) (ys : List String)
    → str_eq z x ≡ false
    → includes (drop_one x ys) z ≡ includes ys z
includes-drop_one x z [] h = refl
includes-drop_one x z (y ∷ ys) h =
    ground (arith, includes-drop_one x z ys h, eq_iff y x, eq_iff y z, eq_iff z x)

Within-drop_one :
    (x : String) (xs ys : List String)
    → includes xs x ≡ false
    → Within xs ys
    → Within xs (drop_one x ys)
Within-drop_one x [] ys n w = tt
Within-drop_one x (z ∷ xs) ys n w =
    (ground (arith, includes-drop_one x z ys), Within-drop_one x xs ys (ground arith) w.1)

-- Distinct entries of a list are at most as many as it has, and fewer if one of it is missing.
length-le_of_Within : (xs ys : List String) → IsDistinct xs → Within xs ys → length xs ≤ length ys
length-le_of_Within [] ys d w = omega arith
length-le_of_Within (x ∷ xs) ys d w = omega (
  arith,
  length-le_of_Within xs (drop_one x ys) d.1 (Within-drop_one x xs ys d.0 w.1),
  length-drop_one x ys w.0,
)

includes-of_length_eq :
    (xs ys : List String) (y : String)
    → IsDistinct xs
    → Within xs ys
    → length xs ≡ length ys
    → includes ys y ≡ true
    → includes xs y ≡ true
includes-of_length_eq xs ys y d w e h = elim (Bool-cases (includes xs y)) [
  | inl p ↦ p
  | inr n ↦ absurd (
      omega (
        arith,
        length-le_of_Within xs (drop_one y ys) d (Within-drop_one y xs ys n w),
        length-drop_one y ys h,
      ))
]

includes-append_one :
    (s z : String) (xs : List String) → includes (xs ++ s ∷ []) z ≡ (includes xs z || str_eq s z)
includes-append_one s z [] = ground arith
includes-append_one s z (x ∷ xs) = ground (arith, includes-append_one s z xs)

includes-set_add :
    (s z : String) (xs : List String) → includes (set_add s xs) z ≡ (includes xs z || str_eq s z)
includes-set_add s z xs = elim (Bool-cases (includes xs s)) [
  | inl old ↦ rw old (ground (arith, eq_iff s z))
  | inr new ↦ rw new (includes-append_one s z xs)
]

IsDistinct-append_one :
    (s : String) (xs : List String)
    → includes xs s ≡ false
    → IsDistinct xs
    → IsDistinct (xs ++ s ∷ [])
IsDistinct-append_one s [] n d = (refl, tt)
IsDistinct-append_one s (x ∷ xs) n d = (
  ground (arith, includes-append_one s x xs, eq_iff s x, eq_iff x s),
  IsDistinct-append_one s xs (ground arith) d.1,
)

Within-append_one :
    (s : String) (xs ys : List String)
    → Within xs ys
    → includes ys s ≡ true
    → Within (xs ++ s ∷ []) ys
Within-append_one s [] ys w h = (h, tt)
Within-append_one s (x ∷ xs) ys w h = (w.0, Within-append_one s xs ys w.1 h)

-- The set of targets along the loops: distinct databases, each of which `named` tells of.
pub record IsTargets (databases : List String) (named : String → Bool) (xs : List String)
    : Type 0 where
  pub distinct : IsDistinct xs
  pub within : Within xs databases
  pub told : (z : String) → includes xs z ≡ true → named z ≡ true

IsTargets-set_add :
    (databases : List String) (named : String → Bool) (s : String) (xs : List String)
    → includes databases s ≡ true
    → named s ≡ true
    → IsTargets databases named xs
    → IsTargets databases named (set_add s xs)
IsTargets-set_add databases named s xs h n t = elim (Bool-cases (includes xs s)) [
  | inl old ↦ rw old t
  | inr new ↦ rw new (record {
    distinct = IsDistinct-append_one s xs new t.distinct;
    within = Within-append_one s xs databases t.within h;
    told = λ z p. ground (arith, includes-append_one s z xs, eq_iff s z, t.told z);
  })
]

-- With as many targets as databases, `named` tells of each database.
pub IsTargets-all :
    (databases : List String) (named : String → Bool) (xs : List String) (y : String)
    → IsTargets databases named xs
    → length xs ≡ length databases
    → includes databases y ≡ true
    → named y ≡ true
IsTargets-all databases named xs y t e h =
    t.told y (includes-of_length_eq xs databases y t.distinct t.within e h)

pub IsTargets-add_target :
    (databases : List String) (named : String → Bool) (counted : Bool) (o : Option String)
    (xs : List String)
    → (counted ≡ true → recognised_service databases o ≡ true)
    → ((y : String) → counted ≡ true → o ≡ some y → named y ≡ true)
    → IsTargets databases named xs
    → IsTargets databases named (add_target counted o xs)
unfolding add_target
IsTargets-add_target databases named counted none xs h n t = t
IsTargets-add_target databases named true (some s) xs h n t =
    IsTargets-set_add databases named s xs (h refl) (n s refl refl) t
IsTargets-add_target databases named false (some s) xs h n t = t
