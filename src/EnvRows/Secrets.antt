-- ===== src/EnvRows/Secrets.antt =====
-- What a client sees, and what comes back.
use hola.Prelude.{
  ◌≡◌, refl, sym, ap, ◌⊎◌, ◌∙◌, inl, inr, true, false, not, none, some, List, [], ◌∷◌, arith,
  if◌then◌else◌, eq_refl, Bool-cases, All,
}
use mathlib.Core.Path.{subst}
use hola.EnvRows.{
  AppEnvVar, redact_row, redact_secret_env_values, without_redaction_marker, stored_row,
  stored_value, restore_row, restore_withheld_env_values,
}

-- A secret row shows no value, and says so.
abbrev IsWithheld : AppEnvVar → Type 0
IsWithheld row = (row.is_secret ≡ false) ⊎ ((row.value ≡ "") × (row.value_redacted ≡ true))

redact_row-secret :
    (row : AppEnvVar)
    → row.is_secret ≡ true
    → redact_row row ≡ record row { value = ""; value_redacted = true }
redact_row-secret row h =
    ap (λ b. if b then record row { value = ""; value_redacted = true } else row) h

redact_row-plain : (row : AppEnvVar) → row.is_secret ≡ false → redact_row row ≡ row
redact_row-plain row h =
    ap (λ b. if b then record row { value = ""; value_redacted = true } else row) h

redact_row-IsWithheld : (row : AppEnvVar) → IsWithheld (redact_row row)
redact_row-IsWithheld row = elim (Bool-cases row.is_secret) [
  | inl secret ↦ subst IsWithheld (sym (redact_row-secret row secret)) (inr (refl, refl))
  | inr plain ↦ subst IsWithheld (sym (redact_row-plain row plain)) (inl plain)
]

-- No value of a secret row is sent to a client.
redact_secret_env_values-IsWithheld :
    (rows : List AppEnvVar) → All IsWithheld (redact_secret_env_values rows)
unfolding redact_secret_env_values
redact_secret_env_values-IsWithheld [] = tt
redact_secret_env_values-IsWithheld (row ∷ rows) =
    (redact_row-IsWithheld row, redact_secret_env_values-IsWithheld rows)

-- The keys are distinct, and no stored row is marked as withheld.
abbrev pub IsStored : List AppEnvVar → Type 0
IsStored [] = Unit
IsStored (row ∷ rows) =
    (stored_row rows row.key ≡ none) × (row.value_redacted ≡ false) × IsStored rows

-- Each of the rows is the one that is stored under its key.
abbrev AllStored : List AppEnvVar → List AppEnvVar → Type 0
AllStored stored =
    All (λ row. (stored_row stored row.key ≡ some row) × (row.value_redacted ≡ false))

stored_value-some :
    (stored : List AppEnvVar) (row : AppEnvVar)
    → stored_row stored row.key ≡ some row
    → stored_value stored row.key ≡ row.value
stored_value-some stored row h = ground arith

restore_row-redact_row :
    (stored : List AppEnvVar) (row : AppEnvVar)
    → stored_row stored row.key ≡ some row
    → row.value_redacted ≡ false
    → restore_row stored (redact_row row) ≡ row
unfolding without_redaction_marker
restore_row-redact_row stored row h m = elim (Bool-cases row.is_secret) [
  | inl secret ↦
      ap (restore_row stored) (redact_row-secret row secret)
      ∙ ap (λ v. record row { value = v; value_redacted = false }) (stored_value-some stored row h)
      ∙ ap (λ b. record row { value_redacted = b }) (sym m)
  | inr plain ↦
      ap (restore_row stored) (redact_row-plain row plain)
      ∙ ap
          (λ b.
            if not b
            then row
            else record row { value = stored_value stored row.key; value_redacted = false })
          m
]

rows_back :
    (stored rows : List AppEnvVar)
    → AllStored stored rows
    → restore_withheld_env_values stored (redact_secret_env_values rows) ≡ rows
unfolding restore_withheld_env_values redact_secret_env_values
rows_back stored [] a = refl
rows_back stored (row ∷ rows) ((h, m), a) =
    ap (λ r. r ∷ restore_withheld_env_values stored (redact_secret_env_values rows))
      (restore_row-redact_row stored row h m)
    ∙ ap (λ rs. row ∷ rs) (rows_back stored rows a)

still_stored :
    (row e : AppEnvVar) (rows : List AppEnvVar)
    → stored_row rows row.key ≡ none
    → stored_row rows e.key ≡ some e
    → stored_row (row ∷ rows) e.key ≡ some e
unfolding stored_row
still_stored row e rows n h = rw h refl

AllStored-cons :
    (row : AppEnvVar) (rows es : List AppEnvVar)
    → stored_row rows row.key ≡ none
    → AllStored rows es
    → AllStored (row ∷ rows) es
AllStored-cons row rows [] n a = tt
AllStored-cons row rows (e ∷ es) n ((h, m), a) =
    ((still_stored row e rows n h, m), AllStored-cons row rows es n a)

AllStored-self : (rows : List AppEnvVar) → IsStored rows → AllStored rows rows
unfolding stored_row
AllStored-self [] v = tt
AllStored-self (row ∷ rows) (n, m, v) =
    ((rw n (rw (eq_refl row.key) refl), m), AllStored-cons row rows rows n (AllStored-self rows v))

-- If the stored rows have different keys and none is marked as withheld, then what a client was sent
-- and sends back unchanged restores them, secrets included.
pub restore_withheld-redact_secret :
    (rows : List AppEnvVar)
    → IsStored rows
    → restore_withheld_env_values rows (redact_secret_env_values rows) ≡ rows
restore_withheld-redact_secret rows v = rows_back rows rows (AllStored-self rows v)
