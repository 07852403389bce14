-- ===== src/BackupBroker/Events.antt =====
-- The broker under all of its callers: prepare jobs that run round by round beside one another,
-- finalize, the check of an arriving prepare, and the timer. A finalize, an expiry and a round each
-- run as a whole here, which the server does not see to: BackupBroker/Steps has the runs in which
-- others act between their hooks. The apps stay the same along a run.
use hola.Prelude.{
  ◌≡◌, refl, ℕ, zero, suc, String, Bool, Option, none, some, List, [], ◌∷◌, Among, inl, inr, ◌⊎◌,
  All, arith,
}
use hola.JsonRecordStore.{WriteResult, written}
use hola.BackupBroker.{BackupParticipant, Executor, PrepareJob, Installed}
use hola.BackupBroker.Server.{
  Host, start_job, continue_job, finalize_run, expire_open_prepare_if_stale, fire_timer,
}

-- `advance i` lets the job in place `i` go on up to its next wait; `gone` is whether it is cancelled.
pub data Event : Type 0 where
  start : String → Event
  advance : ℕ → Bool → ℕ → WriteResult → Event
  finalize arrive fire : ℕ → WriteResult → Event

abbrev pub take_at : ℕ → List PrepareJob → Option (PrepareJob × List PrepareJob)
take_at i [] = none
take_at zero (j ∷ js) = some (j, js)
take_at (suc i) (j ∷ js) = elim (take_at i js) [ none ↦ none | some (k, rest) ↦ some (k, j ∷ rest) ]

module _ (exec : Executor) (deployments : List Installed) (timeout_ms : ℕ) where
  unfoldable pub advance_job :
      Bool → ℕ → WriteResult → Host → Option (PrepareJob × List PrepareJob) → Host
  advance_job gone now w h none = h
  advance_job gone now w h (some (j, rest)) =
      continue_job exec timeout_ms gone now w j.id j.remaining j.started (record h { jobs = rest })

  unfoldable pub after : Event → Host → Host
  after (start id) h = start_job deployments id h
  after (advance i gone now w) h = advance_job gone now w h (take_at i h.jobs)
  after (finalize now w) h = (finalize_run exec deployments now w h).1
  after (arrive now w) h = expire_open_prepare_if_stale exec deployments timeout_ms now w h
  after (fire now w) h = fire_timer exec deployments timeout_ms now w h

  unfoldable pub run : List Event → Host → Host
  run [] h = h
  run (e ∷ es) h = run es (after e h)

abbrev pub write_of : Event → WriteResult
write_of (start id) = written
write_of (advance i gone now w) = w
write_of (finalize now w) = w
write_of (arrive now w) = w
write_of (fire now w) = w

-- Each write of the record reaches the file.
abbrev pub AllReach : List Event → Type 0
AllReach = All (λ e. write_of e ≡ written)

-- A participant that some job started.
abbrev pub IsStarted : BackupParticipant → List PrepareJob → Type 0
IsStarted p [] = ⊥
IsStarted p (j ∷ js) = Among p j.started ⊎ IsStarted p js

-- A job that was taken out: what held of each job holds of it and of those left, and a participant
-- that some job started was started by it or by one of those left.
pub record Taken (P : PrepareJob → Type 0) (i : ℕ) (js : List PrepareJob) : Type 0 where
  pub job : PrepareJob
  pub rest : List PrepareJob
  pub found : take_at i js ≡ some (job, rest)
  pub keeps : All P js → P job × All P rest
  pub started : (p : BackupParticipant) → IsStarted p js → Among p job.started ⊎ IsStarted p rest

Taken-later :
    (P : PrepareJob → Type 0) (i : ℕ) (k : PrepareJob) (js : List PrepareJob)
    → Taken P i js
    → Taken P (suc i) (k ∷ js)
Taken-later P i k js t = record {
  job = t.job;
  rest = k ∷ t.rest;
  found = ground (arith, t.found);
  keeps = λ h. ((t.keeps h.1).0, (h.0, (t.keeps h.1).1));
  started = λ p h. elim h [
    | inl here ↦ inr (inl here)
    | inr there ↦ elim (t.started p there) [ inl mine ↦ inl mine | inr other ↦ inr (inr other) ]
  ];
}

pub take_at-cases :
    (P : PrepareJob → Type 0) (i : ℕ) (js : List PrepareJob) → (take_at i js ≡ none) ⊎ Taken P i js
take_at-cases P i [] = inl refl
take_at-cases P zero (k ∷ js) =
    inr (record { job = k; rest = js; found = refl; keeps = λ h. h; started = λ p h. h })
take_at-cases P (suc i) (k ∷ js) = elim (take_at-cases P i js) [
  | inl missing ↦ inl (rw missing)
  | inr t ↦ inr (Taken-later P i k js t)
]
