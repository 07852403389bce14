-- ===== src/Tests/Candidates.antt =====
-- Restores of a wiki: from an install of this host, and from a provider's captures.
use mathlib.Core.List.{List, [], ◌∷◌, ◌++◌, map}
use hola.Prelude
use hola.Prelude.{
  ◌≡◌, ◌≢◌, ◌↔◌, refl, Bool, true, false, Option, none, some, String, split, after_prefix, trim,
  trim_start, trim_end, is_space,
}
use hola.Versions.{
  check_upgrade_path, is_newer_version, compare_versions, parse, parse_int, leading_digits,
  compare_nums, compare_pre, compare_lists, compare_units, identifier, check_path, sorted, place,
}
use hola.RestoreCandidates.{
  provider, Origin, path, CandidateSource, DeploymentDetail, RestoreIndexEntry, Described,
  parse_candidate_id, before_id, install_dir_from_location, infer_install_name_from_location,
  describe_candidate, describe_provider_candidate, is_eligible_candidate,
}
use hola.RestoreCandidates.Choice.{
  restore_source_newer, ack_required, Terms, validate_restore_choice,
  check_candidate_still_eligible, judge_restore_choice, judge_provider_restore_choice,
}
use hola.RestoreCandidates.Listing.{
  RestoreCandidate, compute_skew_verdict, derive_required_acknowledgements, derive_warnings,
  derive_env_not_carried_keys, resolve_listed_candidate, resolve_listed_provider_candidate,
}
use hola.RestoreCandidates.Names.{NameDefaults, resolve_restore_name_defaults}
use hola.RestoreCandidates.Lineages.{
  compare_captured_at, add_to_lineage, by_lineage, group_into_lineages, suppress_inferred_default,
  list_restore_candidates,
}
use hola.RestoreCandidates.Lineages
use hola.RestoreCandidates.Accepted.{IsAccepted, IsRestorable, judge_restore_choice_iff}
use hola.RestoreCandidates.Captures.{IsProviderRestorable, judge_provider_restore_choice_iff}
use hola.RestoreCandidates.Offered.{IsGrouping, group_into_lineages-IsGrouping}
use hola.RestoreCandidates.Default.{IsDefault, list_restore_candidates-IsDefault}
use hola.RestoreCandidates.Ids.{
  parse_candidate_id-describe_provider_candidate, resolve_restore_name_defaults_free,
}

unfoldable judging : Unit {0}
unfolding parse_candidate_id before_id install_dir_from_location infer_install_name_from_location
    describe_candidate describe_provider_candidate is_eligible_candidate compute_skew_verdict
    derive_required_acknowledgements derive_warnings derive_env_not_carried_keys
    resolve_listed_candidate resolve_listed_provider_candidate validate_restore_choice
    check_candidate_still_eligible judge_restore_choice judge_provider_restore_choice
    resolve_restore_name_defaults compare_captured_at add_to_lineage by_lineage group_into_lineages
    suppress_inferred_default list_restore_candidates Lineages.sort_captured Lineages.place_captured
    check_upgrade_path is_newer_version compare_versions parse parse_int leading_digits compare_nums
    compare_pre compare_lists compare_units identifier check_path sorted place split after_prefix
    trim trim_start trim_end is_space
judging = tt

abbrev wiki : DeploymentDetail
wiki = record {
  id = "wiki-1a2b3c4d";
  app = "wiki";
  name = "wiki";
  status = "stopped";
  lineage_id = none;
  subdomain = some "wiki";
  version = some "1.2";
  channel = none;
}

abbrev wiki_source : CandidateSource
wiki_source = record { deployment = wiki; identity = none; has_data = true; carries_env = true }

abbrev terms : String → List String → Terms
terms version acknowledged = record {
  choice = record {
    candidate_id = "wiki-1a2b3c4d";
    carry_env = true;
    acknowledge = some acknowledged;
  };
  target_version = some version;
  meta = some (record { min_from_version = none; waypoints = [] });
  requires_env = false;
  env_not_carried_keys = [];
}

accepted : IsAccepted (judge_restore_choice (some wiki_source) "wiki" "wiki-2" (terms "1.10" []))
unfolding judging
accepted = (_, refl)

refused_newer :
    judge_restore_choice (some wiki_source) "wiki" "wiki-2" (terms "1.1" [])
    ≡ Prelude.err (restore_source_newer (some "1.2") (some "1.1"))
unfolding judging
refused_newer = refl

judge_restore_choice_iff_example :
    IsAccepted (judge_restore_choice (some wiki_source) "wiki" "wiki-2" (terms "1.10" []))
    ↔ IsRestorable (some wiki_source) "wiki" "wiki-2" (terms "1.10" [])
judge_restore_choice_iff_example =
    judge_restore_choice_iff (some wiki_source) "wiki" "wiki-2" (terms "1.10" [])

-- A capture with no identity record.
abbrev capture : RestoreIndexEntry
capture = record {
  capture_id = "c:1";
  taken_at = "2024-05-01";
  location = "/apps/wiki-1a2b3c4d/";
  identity = none;
}

named_by_place : infer_install_name_from_location "/apps/wiki-1a2b3c4d/" ≡ some "wiki"
unfolding judging
named_by_place = refl

risks_named :
    judge_provider_restore_choice (some capture) "backrest-1" true "wiki" (terms "1.10" [])
    ≡ Prelude.err (
        ack_required (
          "restore-version-unknown" ∷ "restore-env-not-carried" ∷ "restore-inferred-identity" ∷ []))
unfolding judging
risks_named = refl

abbrev all_risks : List String
all_risks = "restore-inferred-identity" ∷ "restore-version-unknown" ∷ "restore-env-not-carried" ∷ []

capture-IsAccepted :
    IsAccepted (
      judge_provider_restore_choice
        (some capture)
        "backrest-1"
        true
        "wiki"
        (terms "1.10" all_risks))
unfolding judging
capture-IsAccepted = (_, refl)

judge_provider_restore_choice_iff_example :
    IsAccepted (
      judge_provider_restore_choice
        (some capture)
        "backrest-1"
        true
        "wiki"
        (terms "1.10" all_risks))
    ↔ IsProviderRestorable (some capture) true "wiki" (terms "1.10" all_risks)
judge_provider_restore_choice_iff_example =
    judge_provider_restore_choice_iff (some capture) "backrest-1" true "wiki"
      (terms "1.10" all_risks)

abbrev offered : List RestoreCandidate
offered = elim (resolve_listed_provider_candidate capture "backrest-1" "wiki" none none []) [
  | none ↦ []
  | some c ↦ c ∷ []
]

local_default :
    (list_restore_candidates (wiki_source ∷ []) [] none none []).default_candidate_id
    ≡ some "wiki-1a2b3c4d"
unfolding judging
local_default = refl

no_inferred_default : (list_restore_candidates [] offered none none []).default_candidate_id ≡ none
unfolding judging
no_inferred_default = refl

group_into_lineages-IsGrouping_example : IsGrouping offered (group_into_lineages offered).lineages
group_into_lineages-IsGrouping_example = group_into_lineages-IsGrouping offered

list_restore_candidates-IsDefault_example :
    IsDefault
      (map (λ s. resolve_listed_candidate s none none []) (wiki_source ∷ []) ++ [])
      "wiki-1a2b3c4d"
list_restore_candidates-IsDefault_example =
    list_restore_candidates-IsDefault (wiki_source ∷ []) [] none none [] "wiki-1a2b3c4d"
      local_default refl

abbrev described : Described
described = record {
  candidate_id = "backrest-1:c:1";
  deployment_id = none;
  source = Origin.provider;
  confidence = path;
  lineage_id = "wiki-1a2b3c4d";
  app = "wiki";
  name = "wiki";
  subdomain = none;
  host = none;
  app_version = none;
  channel = none;
  carries_env = false;
  captured_at = some "2024-05-01";
  has_identity_record = false;
}

capture_described : describe_provider_candidate capture "backrest-1" "wiki" ≡ some described
unfolding judging
capture_described = refl

capture_id_read_back : parse_candidate_id "backrest-1:c:1" ≡ provider "backrest-1" "c:1"
capture_id_read_back =
    parse_candidate_id-describe_provider_candidate capture "backrest-1" "wiki" described
      capture_described refl

abbrev by_name : Option String → String → String
by_name n app_id = "wiki-2"

abbrev moved : NameDefaults
moved = record { name = "wiki"; subdomain = "wiki-2"; warnings = [] }

renamed : resolve_restore_name_defaults by_name none "wiki" none (some "wiki") "wiki" ≡ some moved
unfolding judging
renamed = refl

taken_address :
    resolve_restore_name_defaults by_name none "wiki" (some "wiki") (some "wiki") "wiki" ≡ none
unfolding judging
taken_address = refl

moved_away : moved.subdomain ≢ "wiki"
moved_away =
    resolve_restore_name_defaults_free by_name none "wiki" none (some "wiki") "wiki" "wiki" moved
      refl refl renamed
