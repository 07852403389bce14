-- ===== src/Tests/Roles.antt =====
-- Roles in a manifest, participants, withheld rows and the run of a job.
use hola.Prelude.{
  ◌≡◌, refl, true, false, none, some, List, [], ◌∷◌, split_last, trim, trim_start, trim_end,
  is_space, decimal, decimal_from,
}
use hola.Prelude.Number.{number_of, literal, decimal_literal, after_whole, take_digits}
use hola.Contracts.{
  ContractDefinition, brokered, app, declared, parse_contract_ref, format_contract_ref,
}
use hola.ContractRoles.{
  Install, RawRefs, entries, provides, coerce_refs, coerce_loop, as_ref_list, texts, roll_up,
  is_implicit,
}
use hola.ContractRoles.Rollup.{described, roll_up-described}
use hola.EnvRows.{AppEnvVar, redact_secret_env_values, restore_withheld_env_values, stored_row}
use hola.EnvRows.Secrets.{IsStored, restore_withheld-redact_secret}
use hola.JobTable.{Status, JobEntity, Table}
use hola.JobTable.Running.{run_job, HasEnded, unhandled, run_job-HasEnded}

abbrev one_contract : ContractDefinition
one_contract = record {
  id = "backup";
  version = 1;
  shape = brokered;
  provider_kind = app;
  participation = declared;
  provider_grant = none;
  acceptor_block = some "backup";
  summary = "";
}

abbrev raw : RawRefs
raw = entries (some " backup@1 " ∷ none ∷ some "unknown@9" ∷ [])

taken : coerce_refs (one_contract ∷ []) provides raw ≡ some ("backup@1" ∷ [])
unfolding coerce_refs coerce_loop as_ref_list texts parse_contract_ref format_contract_ref
    split_last trim trim_start trim_end is_space decimal decimal_from number_of literal
    decimal_literal after_whole take_digits
taken = refl

abbrev installs : List Install
installs =
    record {
      deployment = "d1";
      provided = "backup@1" ∷ [];
      accepted = [];
      granted = [];
      hooks = [];
    }
    ∷ record {
      deployment = "d2";
      provided = [];
      accepted = "backup@1" ∷ [];
      granted = [];
      hooks = [];
    }
    ∷ record { deployment = "d3"; provided = []; accepted = []; granted = []; hooks = [] }
    ∷ []

roll_up-described_example :
    (roll_up installs one_contract).participants
    ≡ described
        (is_implicit one_contract.participation)
        (format_contract_ref one_contract)
        installs
        (record { providers = []; acceptors = []; unaffiliated = [] })
roll_up-described_example = roll_up-described installs one_contract

abbrev rows : List AppEnvVar
rows =
    record { key = "DB_PASS"; value = "hunter2"; is_secret = true; value_redacted = false }
    ∷ record { key = "MODE"; value = "prod"; is_secret = false; value_redacted = false }
    ∷ []

rows-IsStored : IsStored rows
unfolding stored_row
rows-IsStored = (refl, refl, (refl, refl, tt))

restore_withheld-redact_secret_example :
    restore_withheld_env_values rows (redact_secret_env_values rows) ≡ rows
restore_withheld-redact_secret_example = restore_withheld-redact_secret rows rows-IsStored

abbrev job : JobEntity
job = record {
  id = "j1";
  kind = "install";
  status = Status.pending;
  deployment_id = none;
  error = none;
  progress = 0;
  created_at = 1;
  started_at = none;
  completed_at = none;
  cancelled_at = none;
}

abbrev table : Table
table = job ∷ record job { id = "j2" } ∷ []

run_job-HasEnded_example : HasEnded "j1" (run_job false unhandled (λ i. false) 9 "j1" table)
run_job-HasEnded_example = run_job-HasEnded false unhandled (λ i. false) 9 "j1" table job refl
