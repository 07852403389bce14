-- ===== src/RestoreCandidates/Default.antt =====
-- The candidate that is selected by default.
use mathlib.Core.List.{List, [], ◌∷◌, ◌++◌, map}
use mathlib.Core.Path.{subst}
use hola.Prelude.{
  String, ◌≡◌, refl, sym, ap, ◌∙◌, inl, inr, Bool, true, false, not, ◌&&◌, Option, none, some,
  arith, if◌then◌else◌, str_eq, eq_iff, Among, is_empty_text, some-injective, none-ne-some,
}
use hola.Versions.{AppUpgradeMeta}
use hola.RestoreCandidates.{marker, CandidateSource}
use hola.RestoreCandidates.Listing.{
  RestoreCandidate, DeclaredEnv, resolve_listed_candidate, is_inferred,
}
use hola.RestoreCandidates.Lineages.{
  RestoreCandidateLineage, Grouped, captured_at, default_of, group_into_lineages, suppressed,
  defaults_to_inferred, suppress_inferred_default, list_restore_candidates, first_id,
}
use hola.RestoreCandidates.Sorting.{NotAfter, NotAfter-refl, IsNewestFirst, All_Among}
use hola.RestoreCandidates.Grouping.{lineage_of}
use hola.RestoreCandidates.Offered.{IsGrouping, group_into_lineages-IsGrouping}
use hola.RestoreCandidates.Gates.{marker_of}

-- The candidate is the newest of all, these are of one lineage, and its identity was read, not inferred.
pub record IsDefault (cs : List RestoreCandidate) (id : String) : Type 0 where
  pub chosen : RestoreCandidate
  pub listed : Among chosen cs
  pub named : chosen.described.candidate_id ≡ id
  pub read : chosen.described.confidence ≡ marker
  pub only : (c : RestoreCandidate) → Among c cs → lineage_of c ≡ lineage_of chosen
  pub newest : (c : RestoreCandidate) → Among c cs → NotAfter (captured_at chosen) (captured_at c)

-- A default that is left has not been suppressed.
kept :
    (g : Grouped) (o : Option String) (id : String)
    → g.default_candidate_id ≡ o
    → (suppressed g o).default_candidate_id ≡ some id
    → is_empty_text id ≡ false
    → (g.default_candidate_id ≡ some id) × (defaults_to_inferred g.lineages id ≡ false)
kept g none id e h n = absurd (none-ne-some id (sym e ∙ h))
kept g (some x) id e h n =
    by_test (not (is_empty_text x) && defaults_to_inferred g.lineages x) refl h
  where
    by_test :
        (b : Bool)
        → (not (is_empty_text x) && defaults_to_inferred g.lineages x) ≡ b
        → (if b
            then record g { default_candidate_id = none; requires_explicit_choice = true }
            else g).default_candidate_id
          ≡ some id
        → (g.default_candidate_id ≡ some id) × (defaults_to_inferred g.lineages id ≡ false)
    by_test true t q = absurd (cc)
    by_test false t q =
        let same : x ≡ id = some-injective x id (sym e ∙ q) in
        (
          q,
          not_inferred (is_empty_text id) (defaults_to_inferred g.lineages id) n (
              subst (λ y. (not (is_empty_text y) && defaults_to_inferred g.lineages y) ≡ false) same
                t),
        )
      where
        not_inferred : (a b : Bool) → a ≡ false → (not a && b) ≡ false → b ≡ false
        not_inferred true b r s = absurd (cc)
        not_inferred false b r s = s

-- The first of the only lineage.
only_lineage :
    (cs : List RestoreCandidate) (lineages : List RestoreCandidateLineage) (id : String)
    → IsGrouping cs lineages
    → default_of lineages ≡ some id
    → defaults_to_inferred lineages id ≡ false
    → IsDefault cs id
only_lineage cs [] id g e h = absurd (cc)
only_lineage cs (l ∷ m ∷ ms) id g e h = absurd (cc)
only_lineage cs (l ∷ []) id g e h = by_first l.candidates refl e h
  where
    in_lineage : (c : RestoreCandidate) → Among c cs → l.lineage_id ≡ lineage_of c
    in_lineage c m =
        let (k, among, q) = g.covers c m in
        (elim among [ inl same ↦ ap (λ x. x.lineage_id) same ∙ q | inr never ↦ absurd never ])

    by_first :
        (candidates : List RestoreCandidate)
        → l.candidates ≡ candidates
        → first_id candidates ≡ some id
        → (elim candidates as (λ _. Bool) [
          | [] ↦ false
          | c ∷ rest ↦ str_eq c.described.candidate_id id && is_inferred c.described.confidence
        ])
          ≡ false
        → IsDefault cs id
    by_first [] q e h = absurd (cc)
    by_first (c ∷ rest) q e h =
        let lineage = g.within.0 in
        let listed = lineage.drawn c (subst (λ x. Among c x) (sym q) (inl refl)) in
        let named = some-injective c.described.candidate_id id e in
        let sorted = subst (IsNewestFirst captured_at) q lineage.newest_first in
        record {
          chosen = c;
          listed = listed;
          named = named;
          read =
              marker_of c.described.confidence (ground (arith, eq_iff c.described.candidate_id id));
          only = λ d m. sym (in_lineage d m) ∙ in_lineage c listed;
          newest = λ d m.
              All_Among captured_at (λ x. NotAfter (captured_at c) (captured_at x)) d (c ∷ rest)
                (NotAfter-refl (captured_at c), sorted.0)
                (subst (λ x. Among d x) q (lineage.holds d m (in_lineage d m)));
        }

-- If the route's listing selects a candidate, then it is one of those listed, all of them are of one
-- lineage, none was captured later, and its identity was read from a record, not inferred from where
-- a capture sits.
pub list_restore_candidates-IsDefault :
    (sources : List CandidateSource) (provided : List RestoreCandidate) (target : Option String)
    (meta : Option AppUpgradeMeta) (app_env : List DeclaredEnv) (id : String)
    → (list_restore_candidates sources provided target meta app_env).default_candidate_id ≡ some id
    → is_empty_text id ≡ false
    → IsDefault (map (λ s. resolve_listed_candidate s target meta app_env) sources ++ provided) id
unfolding list_restore_candidates suppress_inferred_default group_into_lineages
list_restore_candidates-IsDefault sources provided target meta app_env id h named =
    let cs = map (λ s. resolve_listed_candidate s target meta app_env) sources ++ provided in
    let g = group_into_lineages cs in
    let (default, read) = kept g g.default_candidate_id id refl h named in
    only_lineage cs g.lineages id (group_into_lineages-IsGrouping cs) default read
