-- ===== src/BackupBroker/Steps.antt =====
-- packages/server/src/services/core/deployment.ts: the `backup@1` broker between its awaits. The hooks
-- of a finalize, of an expiry and of a prepare that stops run one after another, and others may act
-- between any two of them. A step is one hook with its answer, or one update of the record.
use hola.Prelude.{
  ℕ, zero, suc, String, Bool, true, false, not, Option, none, some, List, [], ◌∷◌, ◌++◌, leb,
  if◌then◌else◌,
}
use hola.JsonRecordStore.{WriteResult}
use hola.BackupBroker.{
  BackupBrokerState, is_prepare_expired, BackupParticipant, Installed, backup_participants, pre,
  Executor, run_post_hooks, PrepareJob,
}
use hola.BackupBroker.Server.{Host, read_state, update_state, open_prepare, closed, start_job}

-- Who runs post-hooks: a finalize, an expiry with the record and the time of its check, or a prepare
-- that stops.
pub data Purpose : Type 0 where
  finalizing undoing : Purpose
  expiring : BackupBrokerState → ℕ → Purpose

-- The participations whose post-hooks it has yet to run.
pub record Cleanup : Type 0 where
  pub purpose : Purpose
  pub remaining : List BackupParticipant

pub record LiveHost : Type 0 where
  pub host : Host
  pub cleanups : List Cleanup

unfoldable pub begin_cleanup : Purpose → List BackupParticipant → LiveHost → LiveHost
begin_cleanup purpose parts s = record s {
  cleanups = (record { purpose = purpose; remaining = parts }) ∷ s.cleanups;
}

unfoldable pub begin_finalize : List Installed → LiveHost → LiveHost
begin_finalize deployments s = begin_cleanup finalizing (backup_participants deployments) s

unfoldable pub begin_expiry : List Installed → ℕ → ℕ → LiveHost → LiveHost
begin_expiry deployments timeout_ms now s =
    if not (is_prepare_expired (read_state s.host) timeout_ms now)
    then s
    else begin_cleanup (expiring (read_state s.host) now) (backup_participants deployments) s

-- The timer's callback, once its time has come.
unfoldable pub begin_fire_at : List Installed → ℕ → ℕ → LiveHost → Option ℕ → LiveHost
begin_fire_at deployments timeout_ms now s none = s
begin_fire_at deployments timeout_ms now s (some due) =
    if leb due now
    then begin_expiry deployments timeout_ms now
        (record s { host = record (s.host) { timer = none } })
    else s

-- What follows the hooks.
unfoldable pub end_cleanup : ℕ → WriteResult → Purpose → Host → Host
end_cleanup now w finalizing h = update_state w (closed now false) (record h { timer = none })
end_cleanup now w undoing h = h
end_cleanup now w (expiring read at) h = update_state w (closed now true) h

-- The next part of a cleanup that is not among `s.cleanups` any more.
unfoldable pub continue_cleanup :
    Executor → ℕ → WriteResult → Purpose → List BackupParticipant → LiveHost → LiveHost
continue_cleanup exec now w purpose [] s = record s { host = end_cleanup now w purpose s.host }
continue_cleanup exec now w purpose (p ∷ ps) s =
    begin_cleanup purpose ps
      (record s { host = record (s.host) { log = (run_post_hooks exec (p ∷ []) s.host.log).1 } })

-- The next part of a job that is not among the jobs any more.
unfoldable pub continue_prepare :
    Executor
    → ℕ
    → Bool
    → ℕ
    → WriteResult
    → String
    → List BackupParticipant
    → List BackupParticipant
    → LiveHost
    → LiveHost
continue_prepare exec timeout_ms is_cancelled now w id [] started s = record s {
  host = open_prepare timeout_ms now w id s.host;
}
continue_prepare exec timeout_ms is_cancelled now w id (p ∷ ps) started s =
    let h = record (s.host) { log = pre p ∷ s.host.log } in
    if is_cancelled
    then begin_cleanup undoing started s
    else if (exec s.host.log (pre p)).ok
    then record s {
      host = record h {
        jobs = (record { id = id; remaining = ps; started = started ++ p ∷ [] }) ∷ h.jobs;
      };
    }
    else begin_cleanup undoing (started ++ p ∷ []) (record s { host = h })

-- `round i` and `cleanup i` let the job or the cleanup in place `i` go on; `gone` is whether the job
-- is cancelled.
pub data Step : Type 0 where
  start : String → Step
  round : ℕ → Bool → ℕ → WriteResult → Step
  cleanup : ℕ → ℕ → WriteResult → Step
  finalize : Step
  arrive fire : ℕ → Step

abbrev pub pick : {A : Type 0} → ℕ → List A → Option (A × List A)
pick i [] = none
pick zero (x ∷ xs) = some (x, xs)
pick (suc i) (x ∷ xs) = elim (pick i xs) [ none ↦ none | some (y, rest) ↦ some (y, x ∷ rest) ]

module _ (exec : Executor) (deployments : List Installed) (timeout_ms : ℕ) where
  unfoldable pub round_of :
      Bool → ℕ → WriteResult → LiveHost → Option (PrepareJob × List PrepareJob) → LiveHost
  round_of gone now w s none = s
  round_of gone now w s (some (j, rest)) =
      continue_prepare exec timeout_ms gone now w j.id j.remaining j.started
        (record s { host = record (s.host) { jobs = rest } })

  unfoldable pub cleanup_of :
      ℕ → WriteResult → LiveHost → Option (Cleanup × List Cleanup) → LiveHost
  cleanup_of now w s none = s
  cleanup_of now w s (some (c, rest)) =
      continue_cleanup exec now w c.purpose c.remaining (record s { cleanups = rest })

  unfoldable pub after_step : Step → LiveHost → LiveHost
  after_step (start id) s = record s { host = start_job deployments id s.host }
  after_step (round i gone now w) s = round_of gone now w s (pick i s.host.jobs)
  after_step (cleanup i now w) s = cleanup_of now w s (pick i s.cleanups)
  after_step finalize s = begin_finalize deployments s
  after_step (arrive now) s = begin_expiry deployments timeout_ms now s
  after_step (fire now) s = begin_fire_at deployments timeout_ms now s s.host.timer

  unfoldable pub run_steps : List Step → LiveHost → LiveHost
  run_steps [] s = s
  run_steps (e ∷ es) s = run_steps es (after_step e s)
