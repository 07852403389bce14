-- ===== src/RestoreCandidates/Choice.antt =====
-- packages/server/src/services/core/restore-candidates.ts: from a candidate and the operator's choice
-- to "proceed" or a refusal. A refusal is its code with the details, without the message.
use mathlib.Core.List.{List, []}
use hola.Prelude.{
  String, Bool, true, false, not, ◌&&◌, ◌||◌, Option, none, some, if◌then◌else◌, str_eq, includes,
  select, is_empty, is_empty_text, value_or,
}
use hola.Prelude
use hola.Versions.{AppUpgradeMeta}
use hola.RestoreCandidates.{
  Described, CandidateSource, RestoreIndexEntry, describe_candidate, describe_provider_candidate,
  is_settled_status,
}
use hola.RestoreCandidates.Listing.{
  RestoreSkewVerdict, compute_skew_verdict, derive_required_acknowledgements, RestoreCandidate,
  unknown, ok, source_newer, upgrade_path,
}

pub record RestoreChoice : Type 0 where
  pub candidate_id : String
  pub carry_env : Bool
  pub acknowledge : Option (List String)

pub data Refusal : Type 0 where
  candidate_gone candidate_busy : String → Refusal
  restore_source_newer : Option String → Option String → Refusal
  restore_upgrade_path : String → Refusal
  env_required ack_required : List String → Refusal

abbrev pub refused_skew : RestoreSkewVerdict → Option String → Option String → Option Refusal
refused_skew unknown version target = none
refused_skew ok version target = none
refused_skew source_newer version target = some (restore_source_newer version target)
refused_skew (upgrade_path stop) version target = some (restore_upgrade_path stop)

abbrev pub acknowledgement_gate : List String → List String → Prelude.Result Refusal (List String)
acknowledgement_gate acknowledged required =
    let missing = select (λ code. not (includes acknowledged code)) required in
    if is_empty missing then Prelude.ok required else Prelude.err (ack_required missing)

unfoldable pub validate_restore_choice :
    RestoreCandidate
    → RestoreChoice
    → Bool
    → List String
    → Option String
    → Prelude.Result Refusal (List String)
validate_restore_choice c choice requires_env env_keys target =
    elim (refused_skew c.skew c.described.app_version target) [
      | some refusal ↦ Prelude.err refusal
      | none ↦
          if requires_env && not (choice.carry_env && c.described.carries_env)
          then Prelude.err (env_required env_keys)
          else acknowledgement_gate (value_or choice.acknowledge []) (
              derive_required_acknowledgements c.skew choice.carry_env c.described.carries_env
                c.described.confidence)
    ]

abbrev still_eligible :
    CandidateSource → String → String → String → Prelude.Result Refusal CandidateSource
still_eligible s target_app excluded chosen =
    if not (str_eq s.deployment.app target_app)
    then Prelude.err (candidate_gone chosen)
    else if str_eq s.deployment.id excluded
    then Prelude.err (candidate_gone chosen)
    else if not (is_settled_status s.deployment.status)
    then Prelude.err (candidate_busy chosen)
    else Prelude.ok s

-- With the id that the refusal names.
unfoldable pub check_candidate_still_eligible :
    Option CandidateSource → String → String → String → Prelude.Result Refusal CandidateSource
check_candidate_still_eligible none target_app excluded chosen = Prelude.err (candidate_gone chosen)
check_candidate_still_eligible (some s) target_app excluded chosen =
    still_eligible s target_app excluded chosen

abbrev pub candidate_from : Described → Option String → Option AppUpgradeMeta → RestoreCandidate
candidate_from d target meta = record {
  described = d;
  skew = compute_skew_verdict d.app_version target meta;
  required_acknowledgements = [];
  warnings = [];
}

-- What a judgement says of an accepted choice: the candidate and the acknowledgements it needed.
abbrev pub accept_with :
    RestoreCandidate
    → Prelude.Result Refusal (List String)
    → Prelude.Result Refusal (RestoreCandidate × List String)
accept_with c (Prelude.err refusal) = Prelude.err refusal
accept_with c (Prelude.ok required) = Prelude.ok (c, required)

-- What both judgements know of the install: the choice, the version and its upgrade data, whether the
-- app needs its environment, and the keys that a refusal names.
pub record Terms : Type 0 where
  pub choice : RestoreChoice
  pub target_version : Option String
  pub meta : Option AppUpgradeMeta
  pub requires_env : Bool
  pub env_not_carried_keys : List String

abbrev pub judge_described :
    Terms → Described → Prelude.Result Refusal (RestoreCandidate × List String)
judge_described t d =
    let c = candidate_from d t.target_version t.meta in
    accept_with c
      (validate_restore_choice c t.choice t.requires_env t.env_not_carried_keys t.target_version)

unfoldable pub judge_restore_choice :
    Option CandidateSource
    → String
    → String
    → Terms
    → Prelude.Result Refusal (RestoreCandidate × List String)
judge_restore_choice source app_id excluded t =
    elim (check_candidate_still_eligible source app_id excluded t.choice.candidate_id) [
      | Prelude.err refusal ↦ Prelude.err refusal
      | Prelude.ok s ↦ judge_described t (describe_candidate s)
    ]

abbrev pub judge_offered :
    Terms → Option Described → Prelude.Result Refusal (RestoreCandidate × List String)
judge_offered t none = Prelude.err (candidate_gone t.choice.candidate_id)
judge_offered t (some d) = judge_described t d

unfoldable pub judge_provider_restore_choice :
    Option RestoreIndexEntry
    → String
    → Bool
    → String
    → Terms
    → Prelude.Result Refusal (RestoreCandidate × List String)
judge_provider_restore_choice none provider_id consented queried t =
    Prelude.err (candidate_gone t.choice.candidate_id)
judge_provider_restore_choice (some entry) provider_id consented queried t =
    if not consented
    then Prelude.err (candidate_gone t.choice.candidate_id)
    else judge_offered t (describe_provider_candidate entry provider_id queried)
