-- ===== src/RestoreCalls.antt =====
-- packages/server/src/services/core/deployment.ts: the provider's calls of the `restore@1` broker,
-- each an HTTP handler that reads the store, checks and then changes it. What other callers do
-- to the store between the two steps is an argument, `between`.
pub mod Events
pub mod Claims
pub mod Handlers
pub mod Lasting
pub mod Held
pub mod Outcomes
use hola.Prelude.{
  Result, ok, err, guard, required, ◌>>=◌, ◌>>◌, ◌≡◌, refl, ◌⊎◌, inl, inr, ℕ, String, Bool, true,
  false, Option, none, some, List, [], ◌∷◌, ◌+◌, if◌then◌else◌, value_or, not, str_eq, includes,
  select, Dict, lookup, insert,
}
use Prim.Native.String
use hola.JsonRecordStore.{WriteResult}
use hola.RestoreBroker.{
  Stamp, iso, Status, claimed, is_pending, is_claimed, is_expired, RestoreRequestRecord, Broker,
  Transition, transition, update, get, pending_for,
}

-- An installed deployment: the `provides` of its active release's manifest, and the contracts that
-- the operator consented to.
pub record Deployment : Type 0 where
  pub provides : Option (List String)
  pub granted_contracts : Option (List String)

unfoldable pub resolve_granted_contracts : Option (List String) → Option (List String) → List String
resolve_granted_contracts none consented = []
resolve_granted_contracts (some provides) consented =
    select (includes (value_or consented [])) provides

unfoldable pub read_active_granted_contracts : Deployment → List String
read_active_granted_contracts d = resolve_granted_contracts d.provides d.granted_contracts

-- The deployment's id, if it is installed and holds the contract.
unfoldable pub find_consented_provider : Dict Deployment → String → String → Option String
find_consented_provider deployments id ref =
    elim (if str_eq id "" then none else lookup id deployments) [
      | none ↦ none
      | some d ↦ if includes (read_active_granted_contracts d) ref then some id else none
    ]

pub data BrokerError : Type 0 where
  not_contract_provider request_not_found request_expired already_claimed not_claimed : BrokerError

abbrev pub restore_contract_ref : String
restore_contract_ref = "restore@1"

unfoldable pub require_consented_provider :
    Dict Deployment → String → String → Result BrokerError String
require_consented_provider deployments caller ref =
    required (find_consented_provider deployments caller ref) not_contract_provider

-- The first step's answers: the request as `get` returned it, for this provider.
abbrev own_request : String → Option RestoreRequestRecord → Result BrokerError RestoreRequestRecord
own_request provider found = do
  r ← required found request_not_found
  guard (str_eq r.provider_deployment_id provider) request_not_found
  ok r

unfoldable pub claim_checks : String → Option RestoreRequestRecord → Result BrokerError (Unit {0})
claim_checks provider found = do
  r ← own_request provider found
  guard (not (is_expired r.status)) request_expired
  guard (is_pending r.status) already_claimed

unfoldable pub complete_checks :
    String → Option RestoreRequestRecord → Result BrokerError (Unit {0})
complete_checks provider found = do
  r ← own_request provider found
  guard (not (is_expired r.status)) request_expired
  guard (not (is_pending r.status)) not_claimed

-- What a claim writes, and its compare-and-set.
abbrev pub claim_record : ℕ → RestoreRequestRecord → RestoreRequestRecord
claim_record now r = record r { status = claimed; claimed_at = some (iso now) }

unfoldable pub claim_transition : ℕ → WriteResult → String → Broker → Transition × Broker
claim_transition now w id = transition w id (λ r. is_pending r.status) (claim_record now)

pub data Outcome : Type 0 where
  completed failed : Outcome

abbrev outcome_status : Outcome → Status
outcome_status Outcome.completed = Status.completed
outcome_status Outcome.failed = Status.failed

abbrev outcome_reason : Outcome → Option String → Option String → Option String
outcome_reason Outcome.completed reason old = old
outcome_reason Outcome.failed reason old = some (value_or reason "The provider reported failure.")

abbrev pub completion : ℕ → Outcome → Option String → RestoreRequestRecord → RestoreRequestRecord
completion now outcome reason r = record r {
  status = outcome_status outcome;
  completed_at = some (iso now);
  failure_reason = outcome_reason outcome reason r.failure_reason;
}

unfoldable pub complete_transition :
    ℕ → WriteResult → String → Outcome → Option String → Broker → Transition × Broker
complete_transition now w id outcome reason =
    transition w id (λ r. is_claimed r.status) (completion now outcome reason)

-- The times and the fates of the writes of a call's two steps.
pub record CallEnv : Type 0 where
  pub deployments : Dict Deployment
  pub caller : String
  pub now_get : ℕ
  pub write_get : WriteResult
  pub between : Broker → Broker
  pub now_set : ℕ
  pub write_set : WriteResult

abbrev pub get_step : CallEnv → String → Broker → Option RestoreRequestRecord × Broker
get_step env id b = get env.now_get env.write_get id b

unfoldable pub claim_restore_request :
    CallEnv → String → Broker → Result BrokerError (Unit {0}) × Broker
claim_restore_request env id b =
    elim (require_consented_provider env.deployments env.caller restore_contract_ref) [
      | err e ↦ (err e, b)
      | ok provider ↦
          let (found, b') = get_step env id b in
          elim (claim_checks provider found) [
            | err e ↦ (err e, b')
            | ok _ ↦
                let (t, b'') = claim_transition env.now_set env.write_set id (env.between b') in
                (guard t.0 already_claimed, b'')
          ]
    ]

unfoldable pub complete_restore_request :
    CallEnv → String → Outcome → Option String → Broker → Result BrokerError (Unit {0}) × Broker
complete_restore_request env id outcome reason b =
    elim (require_consented_provider env.deployments env.caller restore_contract_ref) [
      | err e ↦ (err e, b)
      | ok provider ↦
          let (found, b') = get_step env id b in
          elim (complete_checks provider found) [
            | err e ↦ (err e, b')
            | ok _ ↦
                let (t, b'') =
                  complete_transition env.now_set env.write_set id outcome reason
                    (env.between b') in
                (ok tt, b'')
          ]
    ]

-- The queue half of `pollRestoreRequests`: who asks, and the requests addressed to it. The flag
-- `reindex` comes from the restore index, which is another store.
unfoldable pub poll_restore_requests :
    CallEnv → Broker → Result BrokerError (List RestoreRequestRecord) × Broker
poll_restore_requests env b =
    elim (require_consented_provider env.deployments env.caller restore_contract_ref) [
      | err e ↦ (err e, b)
      | ok provider ↦
          let (out, b') = pending_for env.now_get env.write_get provider b in (ok out, b')
    ]

-- What a deploy job knows when it asks a provider for a capture; `root` is the staging root.
pub record RestoreAsk : Type 0 where
  pub request_id : String
  pub provider_deployment_id : String
  pub target_deployment_id : String
  pub target_app_id : String
  pub capture_id : String
  pub root : String
  pub created_at : ℕ
  pub timeout_ms : ℕ

unfoldable pub new_restore_request : RestoreAsk → RestoreRequestRecord
new_restore_request ask = record {
  id = ask.request_id;
  provider_deployment_id = ask.provider_deployment_id;
  target_deployment_id = ask.target_deployment_id;
  target_app_id = ask.target_app_id;
  capture_id = ask.capture_id;
  destination = String.◌++◌ ask.root (String.◌++◌ "/" ask.request_id);
  status = Status.pending;
  created_at = iso ask.created_at;
  deadline_at = iso (ask.created_at + ask.timeout_ms);
  claimed_at = none;
  completed_at = none;
  failure_reason = none;
}

unfoldable pub create_request : ℕ → WriteResult → RestoreAsk → Broker → Broker
create_request now w ask = update now w (insert ask.request_id (new_restore_request ask))
