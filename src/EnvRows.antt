-- ===== src/EnvRows.antt =====
-- packages/shared/src/index.ts: an app's environment rows, whose secret values are withheld from
-- clients and put back when a client sends the rows again.
pub mod Secrets
use hola.Prelude.{
  ℕ, String, Bool, true, false, not, ◌&&◌, Option, none, some, List, [], ◌∷◌, map, if◌then◌else◌,
  str_eq, Dict, insert, lookup,
}

-- The fields of `AppEnvVar` that these functions read; an absent flag is false.
pub record AppEnvVar : Type 0 where
  pub key : String
  pub value : String
  pub is_secret : Bool
  pub value_redacted : Bool

abbrev pub redact_row : AppEnvVar → AppEnvVar
redact_row row = if row.is_secret then record row { value = ""; value_redacted = true } else row

pub redact_secret_env_values : List AppEnvVar → List AppEnvVar
redact_secret_env_values rows = map redact_row rows

pub without_redaction_marker : AppEnvVar → AppEnvVar
without_redaction_marker row = record row { value_redacted = false }

-- `new Map(storedEnv.map(e => [e.key, e]))`: of two rows with one key, the later counts.
unfoldable pub stored_row : List AppEnvVar → String → Option AppEnvVar
stored_row [] key = none
stored_row (e ∷ rows) key = elim (stored_row rows key) [
  | some later ↦ some later
  | none ↦ if str_eq e.key key then some e else none
]

abbrev pub stored_value : List AppEnvVar → String → String
stored_value stored key = elim (stored_row stored key) [ none ↦ "" | some e ↦ e.value ]

abbrev pub restore_row : List AppEnvVar → AppEnvVar → AppEnvVar
restore_row stored incoming =
    if not incoming.value_redacted
    then incoming
    else record (without_redaction_marker incoming) { value = stored_value stored incoming.key }

pub restore_withheld_env_values : List AppEnvVar → List AppEnvVar → List AppEnvVar
restore_withheld_env_values stored incoming = map (restore_row stored) incoming
