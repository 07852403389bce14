-- ===== src/ComposeValidate/Issues.antt =====
-- The issues that the validators report. The text of a message is left out.
use Prim.Native.String.{String}
use hola.Prelude.{
  ◌≡◌, refl, inl, inr, Bool-cases, ◌++◌, arith, ℕ, Bool, true, false, ◌||◌, List, [], ◌∷◌, cat,
  decimal,
}

pub data ComposeIssueCode : Type 0 where
  invalid_yaml no_services unsupported_key invalid_service invalid_service_name : ComposeIssueCode
  image_and_build_conflict missing_image_or_build invalid_image_ref : ComposeIssueCode
  image_missing_tag image_mutable_tag invalid_env_form duplicate_env_key : ComposeIssueCode
  undefined_volume undefined_network undefined_secret host_port_not_allowed : ComposeIssueCode
  host_network_mode_not_allowed foreign_network_mode_not_allowed : ComposeIssueCode
  named_volume_not_allowed volume_not_under_app_data volume_escapes_app_data : ComposeIssueCode
  volume_source_interpolated privileged_key_not_allowed security_opt_not_allowed : ComposeIssueCode
  privileged_service file_source_not_allowed unknown_platform_token : ComposeIssueCode
  reserved_service_name : ComposeIssueCode

pub data Severity : Type 0 where
  error warning : Severity

pub record ValidationIssue : Type 0 where
  pub code : ComposeIssueCode
  pub severity : Severity
  pub path : String

abbrev pub issue : ComposeIssueCode → Severity → String → ValidationIssue
issue code severity path = record { code = code; severity = severity; path = path }

abbrev is_error : ValidationIssue → Bool
is_error i = elim i.severity [ error ↦ true | warning ↦ false ]

-- A report with an error is rejected.
unfoldable pub has_errors : List ValidationIssue → Bool
has_errors [] = false
has_errors (i ∷ is) = is_error i || has_errors is

-- `${base}.${key}` and `${base}[${i}]`
abbrev pub dot : String → String → String
dot base key = cat base (cat "." key)

abbrev pub at : String → ℕ → String
at base i = cat base (cat "[" (cat (decimal i) "]"))

-- A report without errors has none in its parts.
pub has_errors-append :
    (is js : List ValidationIssue)
    → has_errors (is ++ js) ≡ false
    → (has_errors is ≡ false) × (has_errors js ≡ false)
unfolding has_errors
has_errors-append [] js h = (refl, h)
has_errors-append (i ∷ is) js h = elim (Bool-cases (is_error i)) [
  | inl bad ↦ absurd (ground arith)
  | inr fine ↦ (let rest = has_errors-append is js (ground arith) in (ground arith, rest.1))
]
