-- ===== src/RestoreCandidates/Grouping.antt =====
-- The lineages that the candidates fall into.
use mathlib.Core.List.{List, [], ◌∷◌, ◌++◌, append_assoc, append-nil}
use mathlib.Core.Path.{subst}
use hola.Prelude.{
  String, ◌≡◌, refl, sym, ap, ◌∙◌, inl, inr, ◌⊎◌, Bool, true, false, arith, if◌then◌else◌,
  Bool-cases, str_eq, eq_iff, eq_refl, All, Among, select, is_empty,
}
use hola.RestoreCandidates.Listing.{RestoreCandidate}
use hola.RestoreCandidates.Lineages.{RestoreCandidateLineage, add_to_lineage, by_lineage}

abbrev pub lineage_of : RestoreCandidate → String
lineage_of c = c.described.lineage_id

-- The candidates of a lineage.
abbrev pub members : String → List RestoreCandidate → List RestoreCandidate
members id = select (λ c. str_eq id (lineage_of c))

-- No lineage has the id.
abbrev pub IsFresh : String → List RestoreCandidateLineage → Type 0
IsFresh id = All (λ l. str_eq l.lineage_id id ≡ false)

abbrev pub AreDistinct : List RestoreCandidateLineage → Type 0
AreDistinct [] = Unit
AreDistinct (l ∷ ls) = IsFresh l.lineage_id ls × AreDistinct ls

abbrev IsFilled : List RestoreCandidate → RestoreCandidateLineage → Type 0
IsFilled cs l = (l.candidates ≡ members l.lineage_id cs) × (is_empty l.candidates ≡ false)

-- The entries so far hold the candidates so far.
pub record IsPartition (cs : List RestoreCandidate) (ls : List RestoreCandidateLineage)
    : Type 0 where
  pub filled : All (IsFilled cs) ls
  pub absent : (id : String) → IsFresh id ls → members id cs ≡ []
  pub distinct : AreDistinct ls

select-append :
    {A : Type 0} (p : A → Bool) (xs ys : List A) → select p (xs ++ ys) ≡ select p xs ++ select p ys
select-append p [] ys = refl
select-append p (x ∷ xs) ys = elim (Bool-cases (p x)) [
  | inl kept ↦ rw kept (ap (λ l. x ∷ l) (select-append p xs ys))
  | inr dropped ↦ rw dropped (select-append p xs ys)
]

-- One more candidate, of the lineage or of another.
members_more :
    (id : String) (c : RestoreCandidate) (cs : List RestoreCandidate)
    → str_eq id (lineage_of c) ≡ true
    → members id (cs ++ c ∷ []) ≡ members id cs ++ c ∷ []
members_more id c cs h =
    select-append (λ d. str_eq id (lineage_of d)) cs (c ∷ [])
    ∙ ap (λ b. members id cs ++ (if b then c ∷ [] else [])) h

members_same :
    (id : String) (c : RestoreCandidate) (cs : List RestoreCandidate)
    → str_eq id (lineage_of c) ≡ false
    → members id (cs ++ c ∷ []) ≡ members id cs
members_same id c cs h =
    select-append (λ d. str_eq id (lineage_of d)) cs (c ∷ [])
    ∙ ap (λ b. members id cs ++ (if b then c ∷ [] else [])) h
    ∙ append-nil (members id cs)

apart : (a b c : String) → str_eq a b ≡ false → str_eq b c ≡ true → str_eq a c ≡ false
apart a b c h k = ground (arith, eq_iff a b, eq_iff b c, eq_iff a c)

apart_back : (a b c : String) → str_eq a b ≡ false → str_eq a c ≡ true → str_eq c b ≡ false
apart_back a b c h k = ground (arith, eq_iff a b, eq_iff a c, eq_iff c b)

swapped : (a b : String) → str_eq a b ≡ false → str_eq b a ≡ false
swapped a b h = ground (arith, eq_iff a b, eq_iff b a)

not_empty : {A : Type 0} (xs : List A) (x : A) → is_empty (xs ++ x ∷ []) ≡ false
not_empty [] x = refl
not_empty (y ∷ xs) x = refl

module _ (c : RestoreCandidate) (cs : List RestoreCandidate) where
  -- The lineages after the candidate's own, or all if it is new.
  others-IsFilled :
      (id : String) (ls : List RestoreCandidateLineage)
      → str_eq id (lineage_of c) ≡ true
      → IsFresh id ls
      → All (IsFilled cs) ls
      → All (IsFilled (cs ++ c ∷ [])) ls
  others-IsFilled id [] same fresh h = tt
  others-IsFilled id (l ∷ ls) same (other, fresh) ((q, n), h) = (
    (q ∙ sym (members_same l.lineage_id c cs (apart l.lineage_id id (lineage_of c) other same)), n),
    others-IsFilled id ls same fresh h,
  )

  add_to_lineage-IsFilled :
      (ls : List RestoreCandidateLineage)
      → All (IsFilled cs) ls
      → AreDistinct ls
      → (IsFresh (lineage_of c) ls → members (lineage_of c) cs ≡ [])
      → All (IsFilled (cs ++ c ∷ [])) (add_to_lineage c ls)
  unfolding add_to_lineage
  add_to_lineage-IsFilled [] h d absent =
      let own = members_more (lineage_of c) c cs (eq_refl (lineage_of c)) in
      ((sym (own ∙ ap (λ l. l ++ c ∷ []) (absent tt)), refl), tt)
  add_to_lineage-IsFilled (l ∷ ls) ((q, n), h) (fresh, d) absent =
      elim (Bool-cases (str_eq l.lineage_id (lineage_of c))) [
        | inl same ↦ rw same (
          (
            ap (λ x. x ++ c ∷ []) q ∙ sym (members_more l.lineage_id c cs same),
            not_empty l.candidates c,
          ),
          others-IsFilled l.lineage_id ls same fresh h,
        )
        | inr other ↦ rw other (
          (q ∙ sym (members_same l.lineage_id c cs other), n),
          add_to_lineage-IsFilled ls h d (λ f. absent (other, f)),
        )
      ]

  IsFresh-add_to_lineage :
      (id : String) (ls : List RestoreCandidateLineage)
      → IsFresh id ls
      → str_eq (lineage_of c) id ≡ false
      → IsFresh id (add_to_lineage c ls)
  unfolding add_to_lineage
  IsFresh-add_to_lineage id [] h e = (e, tt)
  IsFresh-add_to_lineage id (l ∷ ls) (f, h) e =
      elim (Bool-cases (str_eq l.lineage_id (lineage_of c))) [
        | inl same ↦ rw same (f, h)
        | inr other ↦ rw other (f, IsFresh-add_to_lineage id ls h e)
      ]

  IsFresh-before :
      (id : String) (ls : List RestoreCandidateLineage)
      → IsFresh id (add_to_lineage c ls)
      → IsFresh id ls × (str_eq (lineage_of c) id ≡ false)
  unfolding add_to_lineage
  IsFresh-before id [] (e, h) = (tt, e)
  IsFresh-before id (l ∷ ls) h =
      by_test (str_eq l.lineage_id (lineage_of c)) refl (IsFresh-before id ls) h
    where
      by_test :
          (b : Bool)
          → str_eq l.lineage_id (lineage_of c) ≡ b
          → (IsFresh id (add_to_lineage c ls) → IsFresh id ls × (str_eq (lineage_of c) id ≡ false))
          → IsFresh id (
              if b
              then record l { candidates = l.candidates ++ c ∷ [] } ∷ ls
              else l ∷ add_to_lineage c ls)
          → IsFresh id (l ∷ ls) × (str_eq (lineage_of c) id ≡ false)
      by_test true same ih (f, h) = ((f, h), apart_back l.lineage_id id (lineage_of c) f same)
      by_test false other ih (f, h) = let (k, e) = ih h in ((f, k), e)

  add_to_lineage-AreDistinct :
      (ls : List RestoreCandidateLineage) → AreDistinct ls → AreDistinct (add_to_lineage c ls)
  unfolding add_to_lineage
  add_to_lineage-AreDistinct [] h = (tt, tt)
  add_to_lineage-AreDistinct (l ∷ ls) (f, h) =
      elim (Bool-cases (str_eq l.lineage_id (lineage_of c))) [
        | inl same ↦ rw same (f, h)
        | inr other ↦ rw other (
          IsFresh-add_to_lineage l.lineage_id ls f (swapped l.lineage_id (lineage_of c) other),
          add_to_lineage-AreDistinct ls h,
        )
      ]

  add_to_lineage-IsPartition :
      (ls : List RestoreCandidateLineage)
      → IsPartition cs ls
      → IsPartition (cs ++ c ∷ []) (add_to_lineage c ls)
  add_to_lineage-IsPartition ls p = record {
    filled = add_to_lineage-IsFilled ls p.filled p.distinct (p.absent (lineage_of c));
    absent = λ id fresh.
        let (before, other) = IsFresh-before id ls fresh in
        members_same id c cs (swapped (lineage_of c) id other) ∙ p.absent id before;
    distinct = add_to_lineage-AreDistinct ls p.distinct;
  }

by_lineage-IsPartition :
    (before cs : List RestoreCandidate) (ls : List RestoreCandidateLineage)
    → IsPartition before ls
    → IsPartition (before ++ cs) (by_lineage cs ls)
unfolding by_lineage
by_lineage-IsPartition before [] ls p = subst (λ x. IsPartition x ls) (sym (append-nil before)) p
by_lineage-IsPartition before (c ∷ cs) ls p =
    subst (λ x. IsPartition x (by_lineage cs (add_to_lineage c ls)))
      (append_assoc before (c ∷ []) cs)
      (by_lineage-IsPartition (before ++ c ∷ []) cs (add_to_lineage c ls)
        (add_to_lineage-IsPartition c before ls p))

pub grouped-IsPartition : (cs : List RestoreCandidate) → IsPartition cs (by_lineage cs [])
grouped-IsPartition cs =
    by_lineage-IsPartition [] cs [] (record { filled = tt; absent = λ id h. refl; distinct = tt })

find_lineage :
    (id : String) (ls : List RestoreCandidateLineage)
    → IsFresh id ls ⊎ ((l : RestoreCandidateLineage) × Among l ls × (l.lineage_id ≡ id))
find_lineage id [] = inl tt
find_lineage id (l ∷ ls) = elim (Bool-cases (str_eq l.lineage_id id)) [
  | inl here ↦ inr (l, inl refl, (eq_iff l.lineage_id id).0 here)
  | inr other ↦ elim (find_lineage id ls) [
    | inl fresh ↦ inl (other, fresh)
    | inr (m, among, e) ↦ inr (m, inr among, e)
  ]
]

pub Among-members :
    (c : RestoreCandidate) (cs : List RestoreCandidate)
    → Among c cs
    → Among c (members (lineage_of c) cs)
Among-members c [] h = h
Among-members c (d ∷ cs) (inl e) =
    rw (ap (λ x. str_eq (lineage_of c) (lineage_of x)) e ∙ eq_refl (lineage_of c)) (inl e)
Among-members c (d ∷ cs) (inr h) = elim (Bool-cases (str_eq (lineage_of c) (lineage_of d))) [
  | inl same ↦ rw same (inr (Among-members c cs h))
  | inr other ↦ rw other (Among-members c cs h)
]

-- Each candidate's lineage is there.
pub covered :
    (cs : List RestoreCandidate) (ls : List RestoreCandidateLineage) (c : RestoreCandidate)
    → IsPartition cs ls
    → Among c cs
    → (l : RestoreCandidateLineage) × Among l ls × (l.lineage_id ≡ lineage_of c)
covered cs ls c p h = elim (find_lineage (lineage_of c) ls) [
  | inl fresh ↦
      absurd (subst (λ x. Among c x) (p.absent (lineage_of c) fresh) (Among-members c cs h))
  | inr found ↦ found
]
