-- ===== src/RestoreCandidates.antt =====
-- packages/server/src/services/core/restore-candidates.ts: what an install may be restored from. The
-- deployments, the identity records and the provider's index are read by the callers, and are data
-- here; `none` is an absent field as well as null, which the code takes for the same.
pub mod Listing
pub mod Choice
pub mod Names
pub mod Lineages
pub mod Verdicts
pub mod Gates
pub mod Justified
pub mod Accepted
pub mod Captures
pub mod Sorting
pub mod Grouping
pub mod Offered
pub mod Default
pub mod Ids
use Prim.Native.Char.{code}
use Prim.Native.String.{[], ◌∷◌}
use mathlib.Core.List
use mathlib.Core.List.{List}
use hola.Prelude.{
  ℕ, zero, suc, String, Bool, true, false, not, ◌&&◌, ◌||◌, Option, none, some, if◌then◌else◌, leb,
  ◌==◌, str_eq, cat, split, select, is_empty_text, is_some, or_else, value_or,
}

pub data Origin : Type 0 where
  deployment provider : Origin

-- Whether the identity is read from a record or inferred from where a capture sits.
pub data Confidence : Type 0 where
  marker path : Confidence

pub data CandidateId : Type 0 where
  deployment : String → CandidateId
  provider : String → String → CandidateId

abbrev pub after_colon : String → CandidateId → CandidateId
after_colon c (deployment id) = deployment (cat c id)
after_colon c (provider p capture) = provider (cat c p) capture

-- The split at the first colon.
unfoldable pub parse_candidate_id : String → CandidateId
parse_candidate_id [] = deployment []
parse_candidate_id (c ∷ s) =
    let rest = after_colon (c ∷ []) (parse_candidate_id s) in
    if code c == b':' then provider [] s else rest

abbrev is_hex_digit : ℕ → Bool
is_hex_digit c =
    (leb b'0' c && leb c b'9') || (leb b'a' c && leb c b'f') || (leb b'A' c && leb c b'F')

abbrev is_hex : ℕ → String → Bool
is_hex zero [] = true
is_hex zero (c ∷ s) = false
is_hex (suc n) [] = false
is_hex (suc n) (c ∷ s) = is_hex_digit (code c) && is_hex n s

abbrev is_id_suffix : String → Bool
is_id_suffix [] = false
is_id_suffix (c ∷ s) = code c == b'-' && is_hex 8 s

-- What stands before the last dash, if eight hexadecimal digits follow it.
unfoldable pub before_id : String → Option String
before_id [] = none
before_id (c ∷ s) =
    let rest = elim (before_id s) as (λ _. Option String) [ none ↦ none | some p ↦ some (c ∷ p) ] in
    if is_id_suffix (c ∷ s) then some [] else rest

-- The characters that `.` does not match.
abbrev has_line_end : String → Bool
has_line_end [] = false
has_line_end (c ∷ s) =
    (code c == 10 || code c == 13 || code c == 8232 || code c == 8233) || has_line_end s

abbrev last_of : List String → Option String
last_of List.[] = none
last_of (List.◌∷◌ s List.[]) = some s
last_of (List.◌∷◌ s (List.◌∷◌ t rest)) = last_of (List.◌∷◌ t rest)

unfoldable pub install_dir_from_location : String → Option String
install_dir_from_location location =
    last_of (select (λ s. not (is_empty_text s)) (split b'/' location))

abbrev matched_name : Option String → Option String
matched_name none = none
matched_name (some p) = if is_empty_text p || has_line_end p then none else some p

abbrev name_of_dir : Option String → Option String
name_of_dir none = none
name_of_dir (some dir) = matched_name (before_id dir)

unfoldable pub infer_install_name_from_location : String → Option String
infer_install_name_from_location location = name_of_dir (install_dir_from_location location)

pub record RestoreCaptureIdentity : Type 0 where
  pub app : Option String
  pub install_name : Option String
  pub lineage_id : Option String
  pub app_version : Option String
  pub channel : Option String
  pub subdomain : Option String
  pub host : Option String

pub record RestoreIndexEntry : Type 0 where
  pub capture_id : String
  pub taken_at : String
  pub location : String
  pub identity : Option RestoreCaptureIdentity

pub record RestoreIdentitySnapshot : Type 0 where
  pub lineage_id : Option String
  pub app : Option String
  pub app_version : Option String
  pub channel : Option String
  pub subdomain : Option String
  pub host : Option String
  pub written_at : Option String

-- The fields of `EnhancedDeploymentDetail` that these functions read.
pub record DeploymentDetail : Type 0 where
  pub id : String
  pub app : String
  pub name : String
  pub status : String
  pub lineage_id : Option String
  pub subdomain : Option String
  pub version : Option String
  pub channel : Option String

pub record CandidateSource : Type 0 where
  pub deployment : DeploymentDetail
  pub identity : Option RestoreIdentitySnapshot
  pub has_data : Bool
  pub carries_env : Bool

-- A candidate before its verdict on versions, acknowledgements and warnings.
pub record Described : Type 0 where
  pub candidate_id : String
  pub deployment_id : Option String
  pub source : Origin
  pub confidence : Confidence
  pub lineage_id : String
  pub app : String
  pub name : String
  pub subdomain : Option String
  pub host : Option String
  pub app_version : Option String
  pub channel : Option String
  pub carries_env : Bool
  pub captured_at : Option String
  pub has_identity_record : Bool

-- `identity?.field`
abbrev pub from_identity {ℓ} : {I : Type ℓ} → (I → Option String) → Option I → Option String
from_identity field none = none
from_identity field (some i) = field i

abbrev pub equals_text : Option String → String → Bool
equals_text none s = false
equals_text (some t) s = str_eq t s

-- `identity?.app && identity.app !== queriedAppId`
abbrev pub names_other_app : Option RestoreCaptureIdentity → String → Bool
names_other_app none queried = false
names_other_app (some i) queried = elim i.app [
  | none ↦ false
  | some app ↦ not (is_empty_text app) && not (str_eq app queried)
]

abbrev pub describe_entry : RestoreIndexEntry → String → String → Bool → Described
describe_entry entry provider_id queried known =
    let candidate_id = cat provider_id (cat ":" entry.capture_id) in
    let install_name =
      or_else (from_identity (λ i. i.install_name) entry.identity)
        (infer_install_name_from_location entry.location) in
    record {
      candidate_id = candidate_id;
      deployment_id = none;
      source = Origin.provider;
      confidence = if known then marker else path;
      lineage_id =
          if known
          then value_or (from_identity (λ i. i.lineage_id) entry.identity) candidate_id
          else value_or (or_else (install_dir_from_location entry.location) install_name)
              candidate_id;
      app = queried;
      name = value_or install_name entry.location;
      subdomain = from_identity (λ i. i.subdomain) entry.identity;
      host = from_identity (λ i. i.host) entry.identity;
      app_version = from_identity (λ i. i.app_version) entry.identity;
      channel = from_identity (λ i. i.channel) entry.identity;
      carries_env = false;
      captured_at = some entry.taken_at;
      has_identity_record = known;
    }

unfoldable pub describe_provider_candidate : RestoreIndexEntry → String → String → Option Described
describe_provider_candidate entry provider_id queried =
    if names_other_app entry.identity queried
    then none
    else some (
        describe_entry entry provider_id queried
          (equals_text (from_identity (λ i. i.app) entry.identity) queried))

unfoldable pub describe_candidate : CandidateSource → Described
describe_candidate s = record {
  candidate_id = s.deployment.id;
  deployment_id = some s.deployment.id;
  source = Origin.deployment;
  confidence = marker;
  lineage_id =
      value_or (or_else (from_identity (λ i. i.lineage_id) s.identity) s.deployment.lineage_id)
        s.deployment.id;
  app = value_or (from_identity (λ i. i.app) s.identity) s.deployment.app;
  name = s.deployment.name;
  subdomain = or_else (from_identity (λ i. i.subdomain) s.identity) s.deployment.subdomain;
  host = from_identity (λ i. i.host) s.identity;
  app_version = or_else (from_identity (λ i. i.app_version) s.identity) s.deployment.version;
  channel = or_else (from_identity (λ i. i.channel) s.identity) s.deployment.channel;
  carries_env = s.carries_env;
  captured_at = from_identity (λ i. i.written_at) s.identity;
  has_identity_record = is_some s.identity;
}

abbrev pub is_settled_status : String → Bool
is_settled_status status = str_eq status "running" || str_eq status "stopped"

-- `excludeDeploymentId && deployment.id === excludeDeploymentId`
abbrev is_excluded : Option String → String → Bool
is_excluded none id = false
is_excluded (some excluded) id = not (is_empty_text excluded) && str_eq id excluded

unfoldable pub is_eligible_candidate : CandidateSource → String → Option String → Bool
is_eligible_candidate s target_app excluded =
    str_eq s.deployment.app target_app
    && not (is_excluded excluded s.deployment.id)
    && is_settled_status s.deployment.status
    && s.has_data
