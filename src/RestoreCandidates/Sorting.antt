-- ===== src/RestoreCandidates/Sorting.antt =====
-- The order of the candidates: newest first, and those without a date at the end.
use mathlib.Core.List.{List, [], ◌∷◌, Perm}
use mathlib.Core.List.Perm
use mathlib.Core.Path.{subst}
use hola.Prelude.{
  String, ◌≡◌, refl, inl, inr, true, false, Option, none, some, arith, Bool-cases, All, Among,
}
use hola.Versions.{is_greater, units}
use hola.Versions.Order.{flip-compare_units, Chains-compare_units}
use hola.RestoreCandidates.Lineages.{compare_captured_at, place_captured, sort_captured}

-- The first does not come after the second.
abbrev pub NotAfter : Option String → Option String → Type 0
NotAfter a b = is_greater (compare_captured_at a b) ≡ false

NotAfter-trans : (a b c : Option String) → NotAfter a b → NotAfter b c → NotAfter a c
unfolding compare_captured_at
NotAfter-trans none none c h k = k
NotAfter-trans none (some b) c h k = absurd (cc)
NotAfter-trans (some a) none none h k = refl
NotAfter-trans (some a) none (some c) h k = absurd (cc)
NotAfter-trans (some a) (some b) none h k = refl
NotAfter-trans (some a) (some b) (some c) h k =
    ground (arith, Chains-compare_units (units c) (units b) (units a))

pub NotAfter-refl : (a : Option String) → NotAfter a a
unfolding compare_captured_at
NotAfter-refl none = refl
NotAfter-refl (some a) = ground (arith, flip-compare_units (units a) (units a))

NotAfter-of_after :
    (a b : Option String) → is_greater (compare_captured_at a b) ≡ true → NotAfter b a
unfolding compare_captured_at
NotAfter-of_after none none h = absurd (cc)
NotAfter-of_after none (some b) h = refl
NotAfter-of_after (some a) none h = absurd (cc)
NotAfter-of_after (some a) (some b) h = ground (arith, flip-compare_units (units b) (units a))

module _ {A : Type 0} (captured : A → Option String) where
  -- Nothing stands before what is newer.
  abbrev pub IsNewestFirst : List A → Type 0
  IsNewestFirst [] = Unit
  IsNewestFirst (a ∷ rest) = All (λ b. NotAfter (captured a) (captured b)) rest × IsNewestFirst rest

  pub All-place_captured :
      (P : A → Type 0) (a : A) (bs : List A) → P a → All P bs → All P (place_captured captured a bs)
  unfolding place_captured
  All-place_captured P a [] p h = (p, tt)
  All-place_captured P a (b ∷ bs) p (q, h) =
      elim (Bool-cases (is_greater (compare_captured_at (captured a) (captured b)))) [
        | inl after ↦ rw after (q, All-place_captured P a bs p h)
        | inr before ↦ rw before (p, (q, h))
      ]

  pub All-sort_captured :
      (P : A → Type 0) (bs : List A) → All P bs → All P (sort_captured captured bs)
  unfolding sort_captured
  All-sort_captured P [] h = tt
  All-sort_captured P (b ∷ bs) (q, h) =
      All-place_captured P b (sort_captured captured bs) q (All-sort_captured P bs h)

  further :
      (a b : A) (bs : List A)
      → NotAfter (captured a) (captured b)
      → All (λ c. NotAfter (captured b) (captured c)) bs
      → All (λ c. NotAfter (captured a) (captured c)) bs
  further a b [] h k = tt
  further a b (c ∷ bs) h (l, k) =
      (NotAfter-trans (captured a) (captured b) (captured c) h l, further a b bs h k)

  place_captured-IsNewestFirst :
      (a : A) (bs : List A) → IsNewestFirst bs → IsNewestFirst (place_captured captured a bs)
  unfolding place_captured
  place_captured-IsNewestFirst a [] h = (tt, tt)
  place_captured-IsNewestFirst a (b ∷ bs) (k, h) =
      elim (Bool-cases (is_greater (compare_captured_at (captured a) (captured b)))) [
        | inl after ↦ rw after (
          All-place_captured (λ c. NotAfter (captured b) (captured c)) a bs
              (NotAfter-of_after (captured a) (captured b) after) k,
          place_captured-IsNewestFirst a bs h,
        )
        | inr before ↦ rw before ((before, further a b bs before k), (k, h))
      ]

  pub sort_captured-IsNewestFirst : (bs : List A) → IsNewestFirst (sort_captured captured bs)
  unfolding sort_captured
  sort_captured-IsNewestFirst [] = tt
  sort_captured-IsNewestFirst (b ∷ bs) =
      place_captured-IsNewestFirst b (sort_captured captured bs) (sort_captured-IsNewestFirst bs)

  place_captured-perm : (a : A) (bs : List A) → Perm (place_captured captured a bs) (a ∷ bs)
  unfolding place_captured
  place_captured-perm a [] = Perm.refl (a ∷ [])
  place_captured-perm a (b ∷ bs) =
      elim (Bool-cases (is_greater (compare_captured_at (captured a) (captured b)))) [
        | inl after ↦
            rw after (Perm.trans (Perm.cons b (place_captured-perm a bs)) (Perm.swap a b bs))
        | inr before ↦ rw before (Perm.refl (a ∷ b ∷ bs))
      ]

  pub sort_captured-perm : (bs : List A) → Perm (sort_captured captured bs) bs
  unfolding sort_captured
  sort_captured-perm [] = Perm.refl []
  sort_captured-perm (b ∷ bs) =
      Perm.trans (place_captured-perm b (sort_captured captured bs))
        (Perm.cons b (sort_captured-perm bs))

  Among-place_here : (a : A) (bs : List A) → Among a (place_captured captured a bs)
  unfolding place_captured
  Among-place_here a [] = inl refl
  Among-place_here a (b ∷ bs) =
      elim (Bool-cases (is_greater (compare_captured_at (captured a) (captured b)))) [
        | inl after ↦ rw after (inr (Among-place_here a bs))
        | inr before ↦ rw before (inl refl)
      ]

  Among-place_later : (x a : A) (bs : List A) → Among x bs → Among x (place_captured captured a bs)
  unfolding place_captured
  Among-place_later x a (b ∷ bs) h =
      elim (Bool-cases (is_greater (compare_captured_at (captured a) (captured b)))) [
        | inl after ↦ rw after (elim h [ inl e ↦ inl e | inr l ↦ inr (Among-place_later x a bs l) ])
        | inr before ↦ rw before (inr h)
      ]
  Among-place_later x a [] h = absurd h

  pub Among-sort_captured : (x : A) (bs : List A) → Among x bs → Among x (sort_captured captured bs)
  unfolding sort_captured
  Among-sort_captured x [] h = h
  Among-sort_captured x (b ∷ bs) (inr h) =
      Among-place_later x b (sort_captured captured bs) (Among-sort_captured x bs h)
  Among-sort_captured x (b ∷ bs) (inl e) =
      subst (λ y. Among y (place_captured captured b (sort_captured captured bs))) e
        (Among-place_here b (sort_captured captured bs))

  pub All_Among : (P : A → Type 0) (x : A) (xs : List A) → All P xs → Among x xs → P x
  All_Among P x [] h m = absurd m
  All_Among P x (y ∷ xs) (p, h) (inl e) = subst P e p
  All_Among P x (y ∷ xs) (p, h) (inr m) = All_Among P x xs h m

  each_Among : (xs ys : List A) → ((x : A) → Among x xs → Among x ys) → All (λ x. Among x ys) xs
  each_Among [] ys h = tt
  each_Among (x ∷ xs) ys h = (h x (inl refl), each_Among xs ys (λ y m. h y (inr m)))

  pub Among-of_sorted : (x : A) (bs : List A) → Among x (sort_captured captured bs) → Among x bs
  Among-of_sorted x bs h =
      All_Among (λ y. Among y bs) x (sort_captured captured bs)
        (All-sort_captured (λ y. Among y bs) bs (each_Among bs bs (λ y m. m))) h
