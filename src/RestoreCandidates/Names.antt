-- ===== src/RestoreCandidates/Names.antt =====
-- packages/server/src/services/core/restore-candidates.ts: the names that a restored app
-- is given, and the refusal where the install has data.
use mathlib.Core.List.{List}
use hola.Prelude.{
  String, Bool, true, false, ◌&&◌, Option, none, some, if◌then◌else◌, str_eq, value_or,
}
use hola.Versions.{truthy}
use hola.RestoreCandidates.Listing.{RestoreWarning, divergence}

pub record NameDefaults : Type 0 where
  pub name : String
  pub subdomain : String
  pub warnings : List RestoreWarning

abbrev pub names_nothing : Option String → Bool
names_nothing requested = elim (truthy requested) [ none ↦ true | some n ↦ false ]

abbrev pub default_subdomain :
    (Option String → String → String) → Option String → Option String → String → String → String
default_subdomain derive requested candidate name app_id = elim (truthy requested) [
  | some n ↦ derive (some name) app_id
  | none ↦ value_or (truthy candidate) (derive (some name) app_id)
]

abbrev pub is_live : Option String → String → Bool
is_live live subdomain = elim (truthy live) [ none ↦ false | some l ↦ str_eq subdomain l ]

-- `none` is the refusal RESTORE_ADDRESS_REQUIRED; `derive` is the caller's `deriveSubdomain`.
unfoldable pub resolve_restore_name_defaults :
    (Option String → String → String)
    → Option String
    → String
    → Option String
    → Option String
    → String
    → Option NameDefaults
resolve_restore_name_defaults derive requested candidate_name candidate live app_id =
    let name = value_or (truthy requested) candidate_name in
    let subdomain = default_subdomain derive requested candidate name app_id in
    if names_nothing requested && is_live live subdomain
    then none
    else some (record {
      name = name;
      subdomain = subdomain;
      warnings = divergence (truthy candidate) (some subdomain);
    })

data NonEmptyTarget : Type 0 where
  restore_incomplete : String → NonEmptyTarget
  target_not_empty : NonEmptyTarget

unfoldable classify_non_empty_target : Option String → NonEmptyTarget
classify_non_empty_target started = elim (truthy started) [
  | some at ↦ restore_incomplete at
  | none ↦ target_not_empty
]
