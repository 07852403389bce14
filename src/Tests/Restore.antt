-- ===== src/Tests/Restore.antt =====
-- Runs of the restore queue and of the provider's calls.
use hola.Prelude.{
  ok, err, ◌+◌, ◌≤◌, ◌⊎◌, ◌≡◌, refl, true, false, none, some, List, [], ◌∷◌, All, Dict, insert,
  lookup, HasDistinctKeys,
}
use hola.JsonRecordStore.{holds, written, kept, read, write}
use hola.RestoreBroker.{
  iso, Status, transition, write_store, update, pending_for, poll_loop, poll_round, split_kept,
  keeps_record, newer_anchor, terminal_at_ms, expire, RestoreRequestRecord, RestoreRequestStore,
  Broker, read_store, prune_terminal_requests, is_restore_request_expired, get, find_anchor,
  is_pending,
}
use hola.RestoreBroker.Prune.{latest_finish-prune, latest_finish}
use hola.RestoreBroker.Retention.{lookup-prune_exact, MayDrop}
use hola.RestoreCalls.{
  Deployment, CallEnv, request_expired, create_request, claim_transition, complete_transition,
  resolve_granted_contracts, claim_checks, complete_checks, Outcome, not_contract_provider,
  claim_restore_request, complete_restore_request, poll_restore_requests, find_consented_provider,
  read_active_granted_contracts, claim_record, require_consented_provider, restore_contract_ref,
  get_step,
}
use hola.RestoreCalls.Events.{
  Event, after, claims_in, poll, claim, complete, run, applied_claims, creations,
}
use hola.RestoreCalls.Claims.{AllWritten, pending_count, claim_budget}
use hola.RestoreCalls.Handlers.{
  seen_by_claim, claim_takes_request, claim_succeeds, servable, pending_for-servable,
}
use hola.RestoreCalls.Lasting.{IsValid}
use hola.RestoreCalls.Held.{IsAwaited}
use hola.RestoreCalls.Outcomes.{LeavesAlone, run-IsAwaited}

abbrev waiting_request : RestoreRequestRecord
waiting_request = record {
  id = "r1";
  provider_deployment_id = "backup-app";
  target_deployment_id = "wiki";
  target_app_id = "app-wiki";
  capture_id = "c7";
  destination = "/staging/r1";
  status = Status.pending;
  created_at = iso 100;
  deadline_at = iso 900;
  claimed_at = none;
  completed_at = none;
  failure_reason = none;
}

abbrev done_request : RestoreRequestRecord
done_request = record waiting_request {
  id = "r0";
  status = Status.completed;
  completed_at = some (iso 50);
}

abbrev queue : RestoreRequestStore
queue = ("r0", done_request) ∷ ("r1", waiting_request) ∷ []

abbrev broker : Broker
broker = record { file = holds queue; waited_on = "r0" ∷ [] }

abbrev provider : Deployment
provider = record {
  provides = some ("restore@1" ∷ "backup@1" ∷ []);
  granted_contracts = some ("restore@1" ∷ []);
}

abbrev outsider : Deployment
outsider = record { provides = some ("restore@1" ∷ []); granted_contracts = none }

abbrev installed : Dict Deployment
installed = ("backup-app", provider) ∷ ("other-app", provider) ∷ ("wiki", outsider) ∷ []

abbrev env : CallEnv
env = record {
  deployments = installed;
  caller = "backup-app";
  now_get = 200;
  write_get = written;
  between = λ b. b;
  now_set = 201;
  write_set = written;
}

abbrev outsider_env : CallEnv
outsider_env = record env { caller = "wiki" }

abbrev events : List Event
events =
    claim 300 written "r1"
    ∷ claim 301 written "r1"
    ∷ complete 302 written "r1" Outcome.completed none
    ∷ poll 303 written "backup-app"
    ∷ []

-- Everything that a run of the calls computes with.
unfoldable steps : Unit {0}
unfolding run applied_claims after claims_in create_request claim_transition complete_transition
    transition read_store write_store update get pending_for poll_loop poll_round
    is_restore_request_expired prune_terminal_requests split_kept keeps_record find_anchor
    newer_anchor terminal_at_ms read write find_consented_provider read_active_granted_contracts
    resolve_granted_contracts require_consented_provider claim_checks complete_checks
    claim_restore_request complete_restore_request poll_restore_requests expire lookup insert
steps = tt

both_claims_one_applied : applied_claims "r1" events broker ≡ 1
unfolding steps
both_claims_one_applied = refl

claimed_and_completed :
    lookup "r1" (read_store (run events broker))
    ≡ some (record waiting_request {
      status = Status.completed;
      claimed_at = some (iso 300);
      completed_at = some (iso 302);
    })
unfolding steps
claimed_and_completed = refl

outsider_gets_nothing : (poll_restore_requests outsider_env broker).0 ≡ err not_contract_provider
unfolding steps
outsider_gets_nothing = refl

late_claim_expires :
    (claim_restore_request (record env { now_get = 900 }) "r1" broker).0 ≡ err request_expired
unfolding steps
late_claim_expires = refl

events_written : AllWritten events
events_written = (refl, (refl, (refl, (refl, tt))))

claim_budget_example :
    applied_claims "r1" events broker + pending_count "r1" (read_store (run events broker))
    ≤ pending_count "r1" (read_store broker) + creations "r1" events
claim_budget_example = claim_budget "r1" events broker events_written

claim_answered : (claim_restore_request env "r1" broker).0 ≡ ok tt
unfolding steps
claim_answered = refl

claim_takes_request_example :
    (found : RestoreRequestRecord) × ((get_step env "r1" broker).0 ≡ some found)
    × (require_consented_provider installed "backup-app" restore_contract_ref
        ≡ ok found.provider_deployment_id)
    × (r : RestoreRequestRecord) × (lookup "r1" (read_store (seen_by_claim env "r1" broker))
        ≡ some r)
    × (is_pending r.status ≡ true)
    × ((claim_restore_request env "r1" broker).1
        ≡ write_store written
            (insert "r1" (claim_record 201 r) (read_store (seen_by_claim env "r1" broker)))
            (seen_by_claim env "r1" broker))
claim_takes_request_example = claim_takes_request env "r1" broker claim_answered

consented : find_consented_provider installed "backup-app" restore_contract_ref ≡ some "backup-app"
unfolding steps
consented = refl

stored : lookup "r1" (read_store broker) ≡ some waiting_request
unfolding steps
stored = refl

fresh : is_restore_request_expired waiting_request 200 ≡ false
unfolding steps
fresh = refl

claim_succeeds_example : (claim_restore_request env "r1" broker).0 ≡ ok tt
claim_succeeds_example =
    claim_succeeds env "r1" broker waiting_request consented stored refl fresh refl

broker-IsValid : IsValid broker
unfolding steps
broker-IsValid = (refl, (refl, tt))

done-IsAwaited : IsAwaited "r0" done_request broker
unfolding steps
done-IsAwaited = record { valid = broker-IsValid; pinned = refl; held = refl }

events_leave_alone : All (LeavesAlone "r0") events
events_leave_alone = (
  record { not_released = refl; not_created = refl; not_torn = λ e. cc },
  (
    record { not_released = refl; not_created = refl; not_torn = λ e. cc },
    (
      record { not_released = refl; not_created = refl; not_torn = λ e. cc },
      (record { not_released = refl; not_created = refl; not_torn = λ e. cc }, tt),
    ),
  ),
)

run-IsAwaited_example : IsAwaited "r0" done_request (run events broker)
run-IsAwaited_example =
    run-IsAwaited "r0" done_request events broker refl events_leave_alone done-IsAwaited

queue_distinct : HasDistinctKeys queue
unfolding steps
queue_distinct = (refl, (refl, tt))

done_stored : lookup "r0" queue ≡ some done_request
unfolding steps
done_stored = refl

lookup-prune_exact_example :
    ((lookup "r0" (prune_terminal_requests queue 300 []).0 ≡ some done_request)
      × (¬ MayDrop 300 [] (find_anchor queue none) "r0" done_request))
    ⊎ ((lookup "r0" (prune_terminal_requests queue 300 []).0 ≡ none)
        × MayDrop 300 [] (find_anchor queue none) "r0" done_request)
lookup-prune_exact_example =
    lookup-prune_exact queue 300 [] "r0" done_request queue_distinct done_stored

latest_finish-prune_example :
    latest_finish (prune_terminal_requests queue 86400100 []).0 ≡ latest_finish queue
latest_finish-prune_example = latest_finish-prune queue 86400100 []

pending_for-servable_example :
    (pending_for 500 kept "backup-app" broker).0 ≡ servable 500 "backup-app" (read_store broker)
pending_for-servable_example = pending_for-servable 500 kept "backup-app" broker
