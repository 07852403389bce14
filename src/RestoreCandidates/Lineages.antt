-- ===== src/RestoreCandidates/Lineages.antt =====
-- packages/server/src/services/core/restore-candidates.ts: the candidates by lineage, the default among
-- them, and the listing of the route (packages/server/src/server.ts).
use mathlib.Core.List.{List, [], ◌∷◌, ◌++◌, map}
use hola.Prelude.{
  String, Bool, true, false, not, ◌&&◌, Option, none, some, if◌then◌else◌, str_eq, is_empty_text,
}
use hola.Versions.{Sign, less, same, greater, is_greater, units, compare_units, AppUpgradeMeta}
use hola.RestoreCandidates.{CandidateSource}
use hola.RestoreCandidates.Listing.{
  RestoreCandidate, DeclaredEnv, resolve_listed_candidate, is_inferred,
}

-- 1, 0 and -1 are `greater`, `same` and `less`.
unfoldable pub compare_captured_at : Option String → Option String → Sign
compare_captured_at none none = same
compare_captured_at none (some b) = greater
compare_captured_at (some a) none = less
compare_captured_at (some a) (some b) = compare_units (units b) (units a)

-- `sort(compareCapturedAtDesc)`, which is stable, on what `captured` reads.
module _ {A : Type 0} (captured : A → Option String) where
  unfoldable pub place_captured : A → List A → List A
  place_captured a [] = a ∷ []
  place_captured a (b ∷ bs) =
      let rest = place_captured a bs in
      if is_greater (compare_captured_at (captured a) (captured b)) then b ∷ rest else a ∷ b ∷ bs

  unfoldable pub sort_captured : List A → List A
  sort_captured [] = []
  sort_captured (a ∷ rest) = place_captured a (sort_captured rest)

abbrev pub captured_at : RestoreCandidate → Option String
captured_at c = c.described.captured_at

pub record RestoreCandidateLineage : Type 0 where
  pub lineage_id : String
  pub candidates : List RestoreCandidate

-- The entries of `byLineage`, in the order of their insertion.
unfoldable pub add_to_lineage :
    RestoreCandidate → List RestoreCandidateLineage → List RestoreCandidateLineage
add_to_lineage c [] = record { lineage_id = c.described.lineage_id; candidates = c ∷ [] } ∷ []
add_to_lineage c (l ∷ ls) =
    let rest = add_to_lineage c ls in
    if str_eq l.lineage_id c.described.lineage_id
    then record l { candidates = l.candidates ++ c ∷ [] } ∷ ls
    else l ∷ rest

unfoldable pub by_lineage :
    List RestoreCandidate → List RestoreCandidateLineage → List RestoreCandidateLineage
by_lineage [] ls = ls
by_lineage (c ∷ cs) ls = by_lineage cs (add_to_lineage c ls)

abbrev pub sort_within : RestoreCandidateLineage → RestoreCandidateLineage
sort_within l = record l { candidates = sort_captured captured_at l.candidates }

-- The lineages compare by their first candidates, and none is empty.
abbrev pub first_captured_at : RestoreCandidateLineage → Option String
first_captured_at l = elim l.candidates [ [] ↦ none | c ∷ cs ↦ c.described.captured_at ]

pub record Grouped : Type 0 where
  pub lineages : List RestoreCandidateLineage
  pub default_candidate_id : Option String
  pub requires_explicit_choice : Bool

abbrev pub first_id : List RestoreCandidate → Option String
first_id [] = none
first_id (c ∷ cs) = some c.described.candidate_id

abbrev pub default_of : List RestoreCandidateLineage → Option String
default_of [] = none
default_of (l ∷ []) = first_id l.candidates
default_of (l ∷ m ∷ ms) = none

abbrev has_several : List RestoreCandidateLineage → Bool
has_several [] = false
has_several (l ∷ []) = false
has_several (l ∷ m ∷ ms) = true

unfoldable pub group_into_lineages : List RestoreCandidate → Grouped
group_into_lineages candidates =
    let lineages = sort_captured first_captured_at (map sort_within (by_lineage candidates [])) in
    record {
      lineages = lineages;
      default_candidate_id = default_of lineages;
      requires_explicit_choice = has_several lineages;
    }

-- Whether the first candidate is the default and its identity is inferred.
abbrev pub defaults_to_inferred : List RestoreCandidateLineage → String → Bool
defaults_to_inferred [] id = false
defaults_to_inferred (l ∷ ls) id = elim l.candidates [
  | [] ↦ false
  | c ∷ cs ↦ str_eq c.described.candidate_id id && is_inferred c.described.confidence
]

abbrev pub suppressed : Grouped → Option String → Grouped
suppressed g none = g
suppressed g (some id) =
    if not (is_empty_text id) && defaults_to_inferred g.lineages id
    then record g { default_candidate_id = none; requires_explicit_choice = true }
    else g

unfoldable pub suppress_inferred_default : Grouped → Grouped
suppress_inferred_default g = suppressed g g.default_candidate_id

-- The route's answer; `provided` is what `listProviderRestoreSources` gives.
unfoldable pub list_restore_candidates :
    List CandidateSource
    → List RestoreCandidate
    → Option String
    → Option AppUpgradeMeta
    → List DeclaredEnv
    → Grouped
list_restore_candidates sources provided target meta app_env = suppress_inferred_default (
    group_into_lineages
      (map (λ s. resolve_listed_candidate s target meta app_env) sources ++ provided))
