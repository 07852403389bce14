-- ===== src/Tests/Grants.antt =====
-- The privileges of an app that provides backups and logs, under the table that is shipped.
use hola.Prelude.{◌≡◌, String, List, [], ◌∷◌, ◌&&◌}
use hola.Contracts.{
  apps_data, container_logs, has_kind, ProviderGrantKind, resolve_grant_kinds, grant_kinds_for,
}
use hola.Contracts.Table.{contracts}
use hola.Contracts.Grants.{resolve_grant_kinds_exact, resolve_grant_kinds-grant_kinds_for}

abbrev refs : List String
refs = "backup@1" ∷ "container-logs@1" ∷ "auth@1" ∷ []

abbrev consented_kinds : List ProviderGrantKind
consented_kinds = apps_data ∷ []

resolve_grant_kinds_exact_example :
    has_kind (resolve_grant_kinds contracts refs consented_kinds).kinds container_logs ≡ (
      has_kind consented_kinds container_logs
      && has_kind (grant_kinds_for contracts refs) container_logs)
resolve_grant_kinds_exact_example =
    resolve_grant_kinds_exact contracts refs consented_kinds container_logs

resolve_grant_kinds-grant_kinds_for_example :
    resolve_grant_kinds contracts refs (grant_kinds_for contracts refs)
    ≡ record { kinds = grant_kinds_for contracts refs; widened = [] }
resolve_grant_kinds-grant_kinds_for_example = resolve_grant_kinds-grant_kinds_for contracts refs
