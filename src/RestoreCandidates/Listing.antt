-- ===== src/RestoreCandidates/Listing.antt =====
-- packages/server/src/services/core/restore-candidates.ts: a candidate as it is listed,
-- with what speaks against restoring it and what the operator has to acknowledge.
use mathlib.Core.List.{List, [], ◌∷◌, ◌++◌, map}
use hola.Prelude.{
  String, Bool, true, false, not, ◌&&◌, ◌||◌, Option, none, some, if◌then◌else◌, str_eq, select,
  is_empty,
}
use hola.Versions.{
  AppUpgradeMeta, UpgradePathResult, path_ok, min_from_version, waypoint_required, truthy,
  is_newer_version, check_upgrade_path,
}
use hola.RestoreCandidates.{
  Origin, Confidence, marker, path, Described, CandidateSource, RestoreIndexEntry,
  describe_candidate, describe_provider_candidate,
}

pub data RestoreSkewVerdict : Type 0 where
  unknown ok source_newer : RestoreSkewVerdict
  upgrade_path : String → RestoreSkewVerdict

abbrev pub verdict_of : UpgradePathResult → RestoreSkewVerdict
verdict_of path_ok = ok
verdict_of (min_from_version v) = upgrade_path v
verdict_of (waypoint_required v) = upgrade_path v

abbrev known_skew : String → String → AppUpgradeMeta → RestoreSkewVerdict
known_skew candidate target meta =
    if is_newer_version candidate target
    then source_newer
    else verdict_of (check_upgrade_path (some candidate) (some target) (some meta))

abbrev pub skew_with_target : String → Option String → Option AppUpgradeMeta → RestoreSkewVerdict
skew_with_target candidate none meta = unknown
skew_with_target candidate (some target) none = unknown
skew_with_target candidate (some target) (some meta) = known_skew candidate target meta

abbrev pub skew_with : Option String → Option String → Option AppUpgradeMeta → RestoreSkewVerdict
skew_with none target meta = unknown
skew_with (some candidate) target meta = skew_with_target candidate target meta

unfoldable pub compute_skew_verdict :
    Option String → Option String → Option AppUpgradeMeta → RestoreSkewVerdict
compute_skew_verdict candidate target meta = skew_with (truthy candidate) (truthy target) meta

-- A row of the app's environment: its key, whether it is secret, and whether the platform makes it.
pub record DeclaredEnv : Type 0 where
  pub key : String
  pub is_secret : Bool
  pub is_generated : Bool

unfoldable pub derive_env_not_carried_keys : List DeclaredEnv → List String
derive_env_not_carried_keys rows =
    map (λ e. e.key) (select (λ e. e.is_secret && e.is_generated) rows)

abbrev pub is_unknown_skew : RestoreSkewVerdict → Bool
is_unknown_skew unknown = true
is_unknown_skew _ = false

abbrev pub is_inferred : Confidence → Bool
is_inferred marker = false
is_inferred path = true

abbrev pub code_if : Bool → String → List String
code_if b code = if b then code ∷ [] else []

unfoldable pub derive_required_acknowledgements :
    RestoreSkewVerdict → Bool → Bool → Confidence → List String
derive_required_acknowledgements skew carry_env carries_env confidence =
    code_if (is_unknown_skew skew) "restore-version-unknown"
    ++ (code_if (not carry_env || not carries_env) "restore-env-not-carried"
        ++ code_if (is_inferred confidence) "restore-inferred-identity")

pub data RestoreWarning : Type 0 where
  env_not_carried : List String → RestoreWarning
  no_identity_record : Origin → RestoreWarning
  host_divergence : String → String → RestoreWarning

abbrev pub divergence : Option String → Option String → List RestoreWarning
divergence none chosen = []
divergence (some from) none = []
divergence (some from) (some to) = if str_eq from to then [] else host_divergence from to ∷ []

unfoldable pub derive_warnings :
    Bool → Bool → List String → Bool → Origin → Option String → Option String → List RestoreWarning
derive_warnings carry_env carries_env keys has_identity_record source candidate chosen =
    (if (not carry_env || not carries_env) && not (is_empty keys)
      then env_not_carried keys ∷ []
      else [])
    ++ ((if has_identity_record then [] else no_identity_record source ∷ [])
        ++ divergence candidate chosen)

pub record RestoreCandidate : Type 0 where
  pub described : Described
  pub skew : RestoreSkewVerdict
  pub required_acknowledgements : List String
  pub warnings : List RestoreWarning

unfoldable pub resolve_listed_candidate :
    CandidateSource → Option String → Option AppUpgradeMeta → List DeclaredEnv → RestoreCandidate
resolve_listed_candidate source target meta app_env =
    let d = describe_candidate source in
    let skew = compute_skew_verdict d.app_version target meta in
    record {
      described = d;
      skew = skew;
      required_acknowledgements =
          derive_required_acknowledgements skew d.carries_env d.carries_env marker;
      warnings =
          derive_warnings d.carries_env d.carries_env (derive_env_not_carried_keys app_env)
            d.has_identity_record Origin.deployment none none;
    }

abbrev list_described :
    Option Described
    → Option String
    → Option AppUpgradeMeta
    → List DeclaredEnv
    → Option RestoreCandidate
list_described none target meta app_env = none
list_described (some d) target meta app_env =
    let skew = compute_skew_verdict d.app_version target meta in
    some (record {
      described = d;
      skew = skew;
      required_acknowledgements =
          derive_required_acknowledgements skew false d.carries_env d.confidence;
      warnings =
          derive_warnings false d.carries_env (derive_env_not_carried_keys app_env)
            d.has_identity_record Origin.provider none none;
    })

unfoldable pub resolve_listed_provider_candidate :
    RestoreIndexEntry
    → String
    → String
    → Option String
    → Option AppUpgradeMeta
    → List DeclaredEnv
    → Option RestoreCandidate
resolve_listed_provider_candidate entry provider_id queried target meta app_env =
    list_described (describe_provider_candidate entry provider_id queried) target meta app_env
