-- ===== src/BackupBroker/Server.antt =====
-- packages/server/src/services/core/deployment.ts: the server's side of the `backup@1` broker, with its
-- jobs, its timer and its handlers. An open prepare that nobody finalizes expires. Each function is
-- the body run as a whole; BackupBroker/Steps cuts it where the server awaits a hook.
use hola.Prelude.{
  Result, ok, err, ℕ, ◌+◌, String, Bool, true, false, not, Option, none, some, List, [], ◌∷◌, leb,
  if◌then◌else◌, includes, select, all, map, Dict,
}
use hola.JsonRecordStore.{File, WriteResult, read, write}
use hola.RestoreBroker.{iso}
use hola.RestoreCalls.{Deployment, BrokerError, require_consented_provider}
use hola.BackupBroker.{
  BackupBrokerState, empty_state, is_prepare_expired, BackupParticipant, Installed,
  backup_contract_ref, backup_participants, HookCall, Executor, PostHookResult, run_post_hooks,
  has_pre_hook, PrepareError, Round, prepare_round, prepare_loop, PrepareJob, go_on, stop,
}

-- The server's side of the broker: the record's file, the armed timer, the hook calls made so far,
-- and the prepare jobs under way.
pub record Host : Type 0 where
  pub file : File BackupBrokerState
  pub timer : Option ℕ
  pub log : List HookCall
  pub jobs : List PrepareJob

unfoldable pub read_state : Host → BackupBrokerState
read_state h = read empty_state h.file

unfoldable pub update_state : WriteResult → (BackupBrokerState → BackupBrokerState) → Host → Host
update_state w patch h = record h { file = write w (patch (read_state h)) h.file }

-- `openPrepare`: the record, and the timer that replaces an armed one.
abbrev opened : ℕ → String → BackupBrokerState → BackupBrokerState
opened now job_id s = record s {
  last_prepare_at = some (iso now);
  open_since = some (iso now);
  open_job_id = some job_id;
}

unfoldable pub open_prepare : ℕ → ℕ → WriteResult → String → Host → Host
open_prepare timeout_ms now w job_id h =
    let h' = update_state w (opened now job_id) h in record h' { timer = some (now + timeout_ms) }

abbrev pub closed : ℕ → Bool → BackupBrokerState → BackupBrokerState
closed now was_expiry s = record s {
  open_since = none;
  open_job_id = none;
  last_finalize_at = some (iso now);
  last_finalize_was_expiry = some was_expiry;
}

unfoldable pub expire_open_prepare_if_stale :
    Executor → List Installed → ℕ → ℕ → WriteResult → Host → Host
expire_open_prepare_if_stale exec deployments timeout_ms now w h =
    if not (is_prepare_expired (read_state h) timeout_ms now)
    then h
    else (let log' = (run_post_hooks exec (backup_participants deployments) h.log).1 in
        update_state w (closed now true) (record h { log = log' }))

-- The timer's callback, once its time has come.
unfoldable pub fire_at : Executor → List Installed → ℕ → ℕ → WriteResult → Host → Option ℕ → Host
fire_at exec deployments timeout_ms now w h none = h
fire_at exec deployments timeout_ms now w h (some due) =
    if leb due now
    then expire_open_prepare_if_stale exec deployments timeout_ms now w (record h { timer = none })
    else h

abbrev pub fire_timer : Executor → List Installed → ℕ → ℕ → WriteResult → Host → Host
fire_timer exec deployments timeout_ms now w h = fire_at exec deployments timeout_ms now w h h.timer

record PrepareResponse : Type 0 where
  pub job_id : Option String
  pub apps : List String
  pub participations : List (String × String)

-- `Array.from(new Set(ids))`
unfoldable pub distinct : List String → List String → List String
distinct seen [] = []
distinct seen (id ∷ ids) =
    let first = id ∷ distinct (id ∷ seen) ids in
    let again = distinct seen ids in if includes seen id then again else first

abbrev prepare_response : String → List BackupParticipant → PrepareResponse
prepare_response job_id [] = record { job_id = none; apps = []; participations = [] }
prepare_response job_id (p ∷ ps) = record {
  job_id = some job_id;
  apps = distinct [] (map (λ q. q.deployment_id) (p ∷ ps));
  participations = map (λ q. (q.deployment_id, q.participation_id)) (p ∷ ps);
}

-- `job_id` is the id that `createJob` gives; the job's body starts with the participants anew.
unfoldable prepare_contract_backup :
    Executor
    → Dict Deployment
    → List Installed
    → ℕ
    → ℕ
    → WriteResult
    → String
    → String
    → Host
    → Result BrokerError PrepareResponse × Host
prepare_contract_backup exec grants deployments timeout_ms now w caller job_id h =
    elim (require_consented_provider grants caller backup_contract_ref) [
      | err e ↦ (err e, h)
      | ok provider ↦
          let h' = expire_open_prepare_if_stale exec deployments timeout_ms now w h in
          let parts = select has_pre_hook (backup_participants deployments) in
          (ok (prepare_response job_id parts), h')
    ]

unfoldable pub start_job : List Installed → String → Host → Host
start_job deployments job_id h = record h {
  jobs =
      (record {
        id = job_id;
        remaining = select has_pre_hook (backup_participants deployments);
        started = [];
      })
      ∷ h.jobs;
}

-- The job after one round: it ends, or goes on with the participations left.
unfoldable pub after_round : String → List BackupParticipant → Host → Round → Host
after_round id ps h (stop error log') = record h { log = log' }
after_round id ps h (go_on started' log') = record h {
  log = log';
  jobs = (record { id = id; remaining = ps; started = started' }) ∷ h.jobs;
}

-- The next part of a job that is not among `h.jobs` any more: a round, or the end of the loop.
unfoldable pub continue_job :
    Executor
    → ℕ
    → Bool
    → ℕ
    → WriteResult
    → String
    → List BackupParticipant
    → List BackupParticipant
    → Host
    → Host
continue_job exec timeout_ms is_cancelled now w id [] started h = open_prepare timeout_ms now w id h
continue_job exec timeout_ms is_cancelled now w id (p ∷ ps) started h =
    after_round id ps h (prepare_round exec is_cancelled p started h.log)

-- What follows the loop.
unfoldable pub end_job :
    ℕ → ℕ → WriteResult → String → Host → Round → Result PrepareError (Unit {0}) × Host
end_job timeout_ms now w id h (stop error log') = (err error, record h { log = log' })
end_job timeout_ms now w id h (go_on started log') =
    (ok tt, open_prepare timeout_ms now w id (record h { log = log' }))

unfoldable pub run_contract_backup_prepare :
    Executor
    → (List HookCall → Bool)
    → List Installed
    → ℕ
    → ℕ
    → WriteResult
    → String
    → Host
    → Result PrepareError (Unit {0}) × Host
run_contract_backup_prepare exec cancelled deployments timeout_ms now w id h =
    let parts = select has_pre_hook (backup_participants deployments) in
    end_job timeout_ms now w id h (prepare_loop exec cancelled parts [] h.log)

pub record FinalizeResponse : Type 0 where
  pub ok : Bool
  pub results : List PostHookResult

unfoldable pub finalize_run :
    Executor → List Installed → ℕ → WriteResult → Host → FinalizeResponse × Host
finalize_run exec deployments now w h =
    let (results, log') = run_post_hooks exec (backup_participants deployments) h.log in
    let h' = update_state w (closed now false) (record h { log = log'; timer = none }) in
    (record { ok = all (λ r. r.ok) results; results = results }, h')

unfoldable finalize_contract_backup :
    Executor
    → Dict Deployment
    → List Installed
    → ℕ
    → WriteResult
    → String
    → Host
    → Result BrokerError FinalizeResponse × Host
finalize_contract_backup exec grants deployments now w caller h =
    elim (require_consented_provider grants caller backup_contract_ref) [
      | err e ↦ (err e, h)
      | ok provider ↦
          let (response, h') = finalize_run exec deployments now w h in (ok response, h')
    ]
