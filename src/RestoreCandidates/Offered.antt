-- ===== src/RestoreCandidates/Offered.antt =====
-- The listing of candidates, and the one that is selected by default.
use mathlib.Core.List.{List, [], ◌∷◌, map, Perm}
use mathlib.Core.Path.{subst}
use hola.Prelude.{
  String, ◌≡◌, refl, sym, ap, ◌∙◌, inl, inr, false, Option, arith, Bool-cases, str_eq, eq_iff, All,
  Among, Among-of_select, is_empty,
}
use hola.Versions.{is_greater}
use hola.RestoreCandidates.Listing.{RestoreCandidate}
use hola.RestoreCandidates.Lineages.{
  RestoreCandidateLineage, by_lineage, sort_within, sort_captured, place_captured,
  compare_captured_at, captured_at, first_captured_at, group_into_lineages,
}
use hola.RestoreCandidates.Sorting.{
  IsNewestFirst, All-place_captured, All-sort_captured, sort_captured-IsNewestFirst,
  sort_captured-perm, Among-sort_captured, Among-of_sorted,
}
use hola.RestoreCandidates.Grouping.{
  lineage_of, members, IsFresh, AreDistinct, grouped-IsPartition, covered, Among-members,
}

-- A lineage has the candidates with its id, each as often, newest first.
pub record IsLineage (cs : List RestoreCandidate) (l : RestoreCandidateLineage) : Type 0 where
  pub same_members : Perm l.candidates (members l.lineage_id cs)
  pub newest_first : IsNewestFirst captured_at l.candidates
  pub filled : is_empty l.candidates ≡ false
  pub drawn : (c : RestoreCandidate) → Among c l.candidates → Among c cs
  pub holds :
      (c : RestoreCandidate) → Among c cs → l.lineage_id ≡ lineage_of c → Among c l.candidates

pub record IsGrouping (cs : List RestoreCandidate) (lineages : List RestoreCandidateLineage)
    : Type 0 where
  pub within : All (IsLineage cs) lineages
  pub covers :
      (c : RestoreCandidate)
      → Among c cs
      → (l : RestoreCandidateLineage) × Among l lineages × (l.lineage_id ≡ lineage_of c)
  pub distinct : AreDistinct lineages
  pub ordered : IsNewestFirst first_captured_at lineages

place_filled :
    {A : Type 0} (captured : A → Option String) (a : A) (bs : List A)
    → is_empty (place_captured captured a bs) ≡ false
unfolding place_captured
place_filled captured a [] = refl
place_filled captured a (b ∷ bs) =
    elim (Bool-cases (is_greater (compare_captured_at (captured a) (captured b)))) [
      | inl after ↦ rw after refl
      | inr before ↦ rw before refl
    ]

sorted_filled :
    {A : Type 0} (captured : A → Option String) (bs : List A)
    → is_empty bs ≡ false
    → is_empty (sort_captured captured bs) ≡ false
unfolding sort_captured
sorted_filled captured [] h = h
sorted_filled captured (b ∷ bs) h = place_filled captured b (sort_captured captured bs)

module _ (cs : List RestoreCandidate) where
  sorted_within :
      (ls : List RestoreCandidateLineage)
      → All (λ l. (l.candidates ≡ members l.lineage_id cs) × (is_empty l.candidates ≡ false)) ls
      → All (IsLineage cs) (map sort_within ls)
  sorted_within [] h = tt
  sorted_within (l ∷ ls) ((q, n), h) = (
    record {
      same_members =
          subst (λ m. Perm (sort_captured captured_at l.candidates) m) q
            (sort_captured-perm captured_at l.candidates);
      newest_first = sort_captured-IsNewestFirst captured_at l.candidates;
      filled = sorted_filled captured_at l.candidates n;
      drawn = λ c here.
          Among-of_select (λ d. str_eq l.lineage_id (lineage_of d)) c cs
            (subst (λ m. Among c m) q (Among-of_sorted captured_at c l.candidates here));
      holds = λ c here e. Among-sort_captured captured_at c l.candidates (
          subst (λ m. Among c m) (ap (λ id. members id cs) (sym e) ∙ sym q)
            (Among-members c cs here));
    },
    sorted_within ls h,
  )

  IsFresh-map :
      (id : String) (ls : List RestoreCandidateLineage)
      → IsFresh id ls
      → IsFresh id (map sort_within ls)
  IsFresh-map id [] h = tt
  IsFresh-map id (l ∷ ls) (e, h) = (e, IsFresh-map id ls h)

  AreDistinct-map :
      (ls : List RestoreCandidateLineage) → AreDistinct ls → AreDistinct (map sort_within ls)
  AreDistinct-map [] h = tt
  AreDistinct-map (l ∷ ls) (f, h) = (IsFresh-map l.lineage_id ls f, AreDistinct-map ls h)

  Among-map :
      (l : RestoreCandidateLineage) (ls : List RestoreCandidateLineage)
      → Among l ls
      → Among (sort_within l) (map sort_within ls)
  Among-map l [] h = h
  Among-map l (m ∷ ls) (inl e) = inl (ap sort_within e)
  Among-map l (m ∷ ls) (inr h) = inr (Among-map l ls h)

  AreDistinct-place_captured :
      (l : RestoreCandidateLineage) (ls : List RestoreCandidateLineage)
      → IsFresh l.lineage_id ls
      → AreDistinct ls
      → AreDistinct (place_captured first_captured_at l ls)
  unfolding place_captured
  AreDistinct-place_captured l [] f h = (tt, tt)
  AreDistinct-place_captured l (m ∷ ls) (e, f) (k, h) =
      elim (Bool-cases
        (is_greater (compare_captured_at (first_captured_at l) (first_captured_at m)))) [
          | inl after ↦ rw after (
            All-place_captured first_captured_at (λ n. str_eq n.lineage_id m.lineage_id ≡ false) l
                ls (swap l.lineage_id m.lineage_id e) k,
            AreDistinct-place_captured l ls f h,
          )
          | inr before ↦ rw before ((e, f), (k, h))
        ]
    where
      swap : (a b : String) → str_eq b a ≡ false → str_eq a b ≡ false
      swap a b q = ground (arith, eq_iff a b, eq_iff b a)

  AreDistinct-sort_captured :
      (ls : List RestoreCandidateLineage)
      → AreDistinct ls
      → AreDistinct (sort_captured first_captured_at ls)
  unfolding sort_captured
  AreDistinct-sort_captured [] h = tt
  AreDistinct-sort_captured (l ∷ ls) (f, h) =
      AreDistinct-place_captured l (sort_captured first_captured_at ls)
        (All-sort_captured first_captured_at (λ n. str_eq n.lineage_id l.lineage_id ≡ false) ls f)
        (AreDistinct-sort_captured ls h)

  -- The lineages of a listing: each candidate stands in one lineage, that with its own id, as often as
  -- it is given; the lineages have different ids and none is empty; in each the candidates stand newest
  -- first, those without a date last, and the lineages themselves so by their newest.
  pub group_into_lineages-IsGrouping : IsGrouping cs (group_into_lineages cs).lineages
  unfolding group_into_lineages
  group_into_lineages-IsGrouping =
      let p = grouped-IsPartition cs in
      let ls = by_lineage cs [] in
      record {
        within =
            All-sort_captured first_captured_at (IsLineage cs) (map sort_within ls)
              (sorted_within ls p.filled);
        covers = λ c among.
            let (l, here, e) = covered cs ls c p among in
            (
              sort_within l,
              Among-sort_captured first_captured_at (sort_within l) (map sort_within ls)
                  (Among-map l ls here),
              e,
            );
        distinct = AreDistinct-sort_captured (map sort_within ls) (AreDistinct-map ls p.distinct);
        ordered = sort_captured-IsNewestFirst first_captured_at (map sort_within ls);
      }
